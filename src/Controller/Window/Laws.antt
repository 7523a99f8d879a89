-- ===== src/Controller/Window/Laws.antt =====
-- internal/controller/rebootwindow.go: a window as an arc of the day, and the opposite window.
use shelly_operator.Base.{
  ℕ, ◌+◌, ◌-◌, ◌%◌, ◌<◌, ◌≤◌, Bool, true, String, Option, none, some, List, [], ◌∷◌, ◌≡◌, ◌↔◌, ◌⊎◌,
  inl, inr, refl, ◌∙◌, arith, codes, ok, >>=-eq-ok, Bool-cases,
}
use shelly_operator.Api.Profile.{RebootWindow}
use shelly_operator.Controller.Window.{
  Zones, WindowError, bad_end, bad_start, bad_time_zone, is_digit, parse_minute, parse_codes,
  parse_hhmm, or_err, zone_of, local_minute, within_bounds, within_reboot_window,
}

-- time.Time's Hour is in 0..23 and Minute in 0..59.
pub record IsClock {T Z : Type 0} (zones : Zones T Z) : Type 0 where
  pub hour_bound : (t : T) (z : Z) → zones.hour t z < 24
  pub minute_bound : (t : T) (z : Z) → zones.minute t z < 60

parse_minute-bound : (h n : ℕ) (cs : List ℕ) → parse_minute h cs ≡ some n → n < 1440
unfolding parse_minute
parse_minute-bound h n [] e = cc
parse_minute-bound h n (c ∷ []) e = cc
parse_minute-bound h n (c ∷ a ∷ []) e = cc
parse_minute-bound h n (c ∷ a ∷ b ∷ []) e = ground arith
parse_minute-bound h n (c ∷ a ∷ b ∷ d ∷ cs) e = cc

parse_codes-bound : (n : ℕ) (cs : List ℕ) → parse_codes cs ≡ some n → n < 1440
unfolding parse_codes
parse_codes-bound n [] e = cc
parse_codes-bound n (a ∷ []) e = cc
parse_codes-bound n (a ∷ b ∷ rest) e = elim (Bool-cases (is_digit a)) [
  | inl ea ↦ elim (Bool-cases (is_digit b)) [
    | inl eb ↦ parse_minute-bound _ n rest (rw (ea, eb) at e)
    | inr eb ↦ parse_minute-bound _ n (b ∷ rest) (rw (ea, eb) at e)
  ]
  | inr ea ↦ cc
]

parse_hhmm-bound : (s : String) (n : ℕ) → parse_hhmm s ≡ some n → n < 1440
unfolding parse_hhmm
parse_hhmm-bound s n e = parse_codes-bound n (codes s) e

-- The minutes from `start` forward to `m`, around the clock.
abbrev pub elapsed : ℕ → ℕ → ℕ
elapsed start m = (m + 1440 - start) % 1440

elapsed_cases :
    (s m : ℕ)
    → s < 1440
    → m < 1440
    → ((s ≤ m) × (elapsed s m ≡ m - s)) ⊎ ((m < s) × (elapsed s m ≡ m + 1440 - s))
elapsed_cases s m hs hm = ground arith

bounds_lem :
    (s e m : ℕ)
    → s < 1440
    → e < 1440
    → m < 1440
    → (within_bounds s e m ≡ ok true) ↔ (elapsed s m < elapsed s e)
unfolding within_bounds
bounds_lem s e m hs he hm = ground (arith, elapsed_cases s m hs hm, elapsed_cases s e hs he)

or_err-eq : {A : Type 0} (e : WindowError) (o : Option A) {a : A} → or_err e o ≡ ok a → o ≡ some a
or_err-eq e none h = cc
or_err-eq e (some x) h = cc

module _ {T Z : Type 0} (zones : Zones T Z) where
  -- What a window's fields denote at an instant: its start and end, and the minute of the day.
  abbrev pub Denotes : T → RebootWindow → ℕ → ℕ → ℕ → Type 0
  Denotes now w start finish mins =
      (z : Z) × (zone_of zones w.time_zone ≡ some z)
      × (parse_hhmm w.start ≡ some start)
      × (parse_hhmm w.end_time ≡ some finish)
      × (local_minute zones now z ≡ mins)

  denoted :
      (now : T) (w : RebootWindow) (b : Bool)
      → within_reboot_window zones now (some w) ≡ ok b
      → (s e m : ℕ) × Denotes now w s e m × (within_bounds s e m ≡ ok b)
  unfolding within_reboot_window
  denoted now w b h =
      let (z, hz, h1) = >>=-eq-ok (or_err bad_time_zone (zone_of zones w.time_zone)) _ h in
      let (s, hs, h2) = >>=-eq-ok (or_err bad_start (parse_hhmm w.start)) _ h1 in
      let (e, he, h3) = >>=-eq-ok (or_err bad_end (parse_hhmm w.end_time)) _ h2 in
      (
        s,
        e,
        local_minute zones now z,
        (z, or_err-eq bad_time_zone _ hz, or_err-eq bad_start _ hs, or_err-eq bad_end _ he, refl),
        h3,
      )

  of_denoted :
      (now : T) (w : RebootWindow) (s e m : ℕ)
      → Denotes now w s e m
      → within_reboot_window zones now (some w) ≡ within_bounds s e m
  unfolding within_reboot_window
  of_denoted now w s e m (z, hz, hs, he, hm) = rw (hz, hs, he, hm) refl

  -- Where the clock's hours and minutes are in range, withinRebootWindow answers true for a declared
  -- window just when its time zone loads, its start and end parse, and, forward around the clock
  -- from its start, fewer minutes lead to the local time than to its end.
  pub within_reboot_window_lem :
      IsClock zones
      → (now : T) (w : RebootWindow)
      → (within_reboot_window zones now (some w) ≡ ok true)
        ↔ ((s e m : ℕ) × Denotes now w s e m × (elapsed s m < elapsed s e))
  within_reboot_window_lem clock now w = (to, from)
    where
      minute : (s e m : ℕ) → Denotes now w s e m → m < 1440
      minute s e m (z, hz, hs, he, hm) =
          omega (arith, clock.hour_bound now z, clock.minute_bound now z, hm)

      iff :
          (s e m : ℕ)
          → Denotes now w s e m
          → (within_bounds s e m ≡ ok true) ↔ (elapsed s m < elapsed s e)
      iff s e m d =
          bounds_lem s e m (parse_hhmm-bound w.start s d.2) (parse_hhmm-bound w.end_time e d.3)
            (minute s e m d)

      to :
          within_reboot_window zones now (some w) ≡ ok true
          → (s e m : ℕ) × Denotes now w s e m × (elapsed s m < elapsed s e)
      to h = let (s, e, m, d, k) = denoted now w true h in (s, e, m, d, (iff s e m d).0 k)

      from :
          ((s e m : ℕ) × Denotes now w s e m × (elapsed s m < elapsed s e))
          → within_reboot_window zones now (some w) ≡ ok true
      from (s, e, m, d, k) = of_denoted now w s e m d ∙ (iff s e m d).1 k
