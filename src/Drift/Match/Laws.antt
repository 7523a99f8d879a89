-- ===== src/Drift/Match/Laws.antt =====
-- internal/drift/match.go: MatchProfile for a device without a pin.
use mathlib.Core.Path.{subst}
use shelly_operator.Base.{
  Bool, true, false, String, Option, none, some, List, [], ◌∷◌, ◌≡◌, ◌⊎◌, inl, inr, refl, sym, ap,
  ◌∙◌, Memᴰ, All-mem, arith, eq_iff, Bool-cases, Option-cases, eqz, eqz→eq, ltz, ltz_asymm,
  ltz_connex, ltz_trans, ltz_irrefl, eqz_comm, eq→eqz, str_ltb, str_ltb_asymm, str_ltb_cotrans,
  if◌then◌else◌, ◌↔◌,
}
use shelly_operator.Base.Assoc.{Assoc}
use shelly_operator.Base.Sort.{sort}
use shelly_operator.Base.Sort.Laws.{StrictWeak, sort_first, mem-sort_of}
use shelly_operator.Api.Profile.{ShellyProfile}
use shelly_operator.Api.Device.{ShellyDevice}
use shelly_operator.Drift.Match.{
  Compiled, matches, invalid, Selectors, profile_less, first, consider, compiled, candidates,
  match_profile,
}

module _ {F Sel : Type 0} where
  -- `p` wins over `q`: a higher priority, or the same and a name that is not after.
  abbrev pub Precedes : ShellyProfile F Sel → ShellyProfile F Sel → Type 0
  Precedes p q =
      (ltz q.spec.priority p.spec.priority ≡ true)
      ⊎ ((q.spec.priority ≡ p.spec.priority) × (str_ltb q.name p.name ≡ false))

  profile_less_asymm :
      (a b : ShellyProfile F Sel) → profile_less a b ≡ true → profile_less b a ≡ false
  unfolding profile_less
  profile_less_asymm a b h = ground (
    arith,
    eqz_comm a.spec.priority b.spec.priority,
    ltz_asymm b.spec.priority a.spec.priority,
    str_ltb_asymm a.name b.name,
  )

  Precedes-of_not_less : (p q : ShellyProfile F Sel) → profile_less q p ≡ false → Precedes p q
  unfolding profile_less
  Precedes-of_not_less p q h = elim (Bool-cases (eqz q.spec.priority p.spec.priority)) [
    | inl e ↦ inr (eqz→eq _ _ e, ground arith)
    | inr e ↦ elim (Bool-cases (ltz q.spec.priority p.spec.priority)) [
      | inl l ↦ inl l
      | inr g ↦
          let up : ltz p.spec.priority q.spec.priority ≡ false = ground arith in
          cc (eq→eqz _ _ (ltz_connex q.spec.priority p.spec.priority g up))
    ]
  ]

  not_less_of_Precedes : (p q : ShellyProfile F Sel) → Precedes p q → profile_less q p ≡ false
  unfolding profile_less
  not_less_of_Precedes p q (inl l) = ground (
    arith,
    ltz_asymm q.spec.priority p.spec.priority,
    eqz→eq q.spec.priority p.spec.priority,
    ltz_irrefl p.spec.priority,
  )
  not_less_of_Precedes p q (inr (e, n)) = ground (arith, eq→eqz q.spec.priority p.spec.priority e)

  Precedes-trans : (p q r : ShellyProfile F Sel) → Precedes p q → Precedes q r → Precedes p r
  Precedes-trans p q r (inl h) (inl k) = inl (ltz_trans _ q.spec.priority _ k h)
  Precedes-trans p q r (inl h) (inr (e, n)) =
      inl (subst (λ z. ltz z p.spec.priority ≡ true) (sym e) h)
  Precedes-trans p q r (inr (e, n)) (inl k) = inl (subst (λ z. ltz r.spec.priority z ≡ true) e k)
  Precedes-trans p q r (inr (e, n)) (inr (d, m)) =
      inr (d ∙ e, str_ltb_cotrans p.name q.name r.name n m)

  profile_less-StrictWeak : StrictWeak (profile_less {F = F} {Sel = Sel})
  profile_less-StrictWeak = record {
    asymm = profile_less_asymm;
    cotrans = λ a b c h k.
        not_less_of_Precedes a c
          (Precedes-trans a b c (Precedes-of_not_less a b h) (Precedes-of_not_less b c k));
  }

  first-some :
      (ps : List (ShellyProfile F Sel)) {p : ShellyProfile F Sel}
      → first ps ≡ some p
      → (rest : List (ShellyProfile F Sel)) × (ps ≡ p ∷ rest)
  unfolding first
  first-some [] h = cc
  first-some (q ∷ ps) h = (ps, cc)

  first-none : (ps : List (ShellyProfile F Sel)) → first ps ≡ none → ps ≡ []
  unfolding first
  first-none [] h = refl
  first-none (q ∷ ps) h = cc

  module _ ⦃s : Selectors Sel⦄ where
    -- The profile's selector is there, compiles, and matches the labels.
    abbrev pub SelectedBy : Assoc String → ShellyProfile F Sel → Type 0
    SelectedBy labels p =
        (sel : Sel) × (m : Assoc String → Bool) × (p.spec.selector ≡ some sel)
        × (s.compile sel ≡ matches m)
        × (m labels ≡ true)

    SelectedBy-of_compiled :
        (labels : Assoc String) (p : ShellyProfile F Sel) {m : Assoc String → Bool}
        → compiled p ≡ some (matches m)
        → m labels ≡ true
        → SelectedBy labels p
    unfolding compiled
    SelectedBy-of_compiled labels p {m} e h = elim (Option-cases p.spec.selector) [
      | inl n ↦ cc (rw n at e)
      | inr (sel, q) ↦ (sel, m, q, ground (arith), h)
    ]

    consider_mem :
        (labels : Assoc String) (p q : ShellyProfile F Sel) (c : Option Compiled)
        (r : List (ShellyProfile F Sel) × List _)
        → Memᴰ q (consider p c labels r).0
        → ((m : Assoc String → Bool) × (q ≡ p) × (c ≡ some (matches m)) × (m labels ≡ true))
          ⊎ Memᴰ q r.0
    unfolding consider
    consider_mem labels p q none (cs, ws) m = inr m
    consider_mem labels p q (some (invalid e)) (cs, ws) m = inr m
    consider_mem labels p q (some (matches f)) (cs, ws) m = split (f labels) refl m
      where
        split :
            (b : Bool)
            → f labels ≡ b
            → Memᴰ q (if b then p ∷ cs else cs)
            → ((m : Assoc String → Bool) × (q ≡ p)
                × (some (matches f) ≡ some (matches m))
                × (m labels ≡ true))
              ⊎ Memᴰ q cs
        split true e (Memᴰ.head h) = inl (f, h, refl, e)
        split true e (Memᴰ.tail t) = inr t
        split false e t = inr t

    candidates_mem :
        (labels : Assoc String) (ps : List (ShellyProfile F Sel)) {q : ShellyProfile F Sel}
        → Memᴰ q (candidates labels ps).0
        → Memᴰ q ps × SelectedBy labels q
    unfolding candidates
    candidates_mem labels [] m = elim m [ ]
    candidates_mem labels (p ∷ ps) {q} m =
        elim (consider_mem labels p q (compiled p) (candidates labels ps) m) [
          | inl (f, e, c, h) ↦ (
            Memᴰ.head e,
            subst (λ x. SelectedBy labels x) (sym e) (SelectedBy-of_compiled labels p c h),
          )
          | inr r ↦ (Memᴰ.tail (candidates_mem labels ps r).0, (candidates_mem labels ps r).1)
        ]

    compiled_of_SelectedBy :
        (labels : Assoc String) (p : ShellyProfile F Sel) (h : SelectedBy labels p)
        → compiled p ≡ some (matches h.1)
    unfolding compiled
    compiled_of_SelectedBy labels p (sel, m, e, c, t) = rw e (ap some c)

    consider_keeps :
        (labels : Assoc String) (p q : ShellyProfile F Sel) (c : Option Compiled)
        (r : List (ShellyProfile F Sel) × List _)
        → Memᴰ q r.0
        → Memᴰ q (consider p c labels r).0
    unfolding consider
    consider_keeps labels p q none (cs, ws) m = m
    consider_keeps labels p q (some (invalid e)) (cs, ws) m = m
    consider_keeps labels p q (some (matches f)) (cs, ws) m = elim (Bool-cases (f labels)) [
      | inl e ↦ rw e (Memᴰ.tail m)
      | inr e ↦ rw e m
    ]

    consider_adds :
        (labels : Assoc String) (p : ShellyProfile F Sel) (m : Assoc String → Bool)
        (r : List (ShellyProfile F Sel) × List _)
        → m labels ≡ true
        → Memᴰ p (consider p (some (matches m)) labels r).0
    unfolding consider
    consider_adds labels p m (cs, ws) h = rw h (Memᴰ.head refl)

    candidates_mem_of :
        (labels : Assoc String) (ps : List (ShellyProfile F Sel)) {q : ShellyProfile F Sel}
        → Memᴰ q ps
        → SelectedBy labels q
        → Memᴰ q (candidates labels ps).0
    unfolding candidates
    candidates_mem_of labels [] m h = elim m [ ]
    candidates_mem_of labels (p ∷ ps) {q} (Memᴰ.head e) h =
        let hp = subst (λ x. SelectedBy labels x) e h in
        subst (λ x. Memᴰ x (consider p (compiled p) labels (candidates labels ps)).0) (sym e)
          (subst (λ c. Memᴰ p (consider p c labels (candidates labels ps)).0)
            (sym (compiled_of_SelectedBy labels p hp))
            (consider_adds labels p hp.1 (candidates labels ps) hp.4))
    candidates_mem_of labels (p ∷ ps) {q} (Memᴰ.tail m) h =
        consider_keeps labels p q (compiled p) (candidates labels ps)
          (candidates_mem_of labels ps m h)

    unpinned :
        (dev : ShellyDevice) (ps : List (ShellyProfile F Sel))
        → dev.spec.profile_ref ≡ ""
        → (match_profile dev ps).0 ≡ first (sort profile_less (candidates dev.labels ps).0)
    unfolding match_profile
    unpinned dev ps e = rw ((eq_iff dev.spec.profile_ref "").1 e)

    -- If MatchProfile returns a profile for a device without a pin, then the profile is in the list and
    -- selects the device, and of any other in the list that selects it, the priority is lower, or
    -- equal and the name not before.
    pub match_profile-best :
        (dev : ShellyDevice) (ps : List (ShellyProfile F Sel)) (p : ShellyProfile F Sel)
        → dev.spec.profile_ref ≡ ""
        → (match_profile dev ps).0 ≡ some p
        → Memᴰ p ps
          × SelectedBy dev.labels p
          × ((q : ShellyProfile F Sel) → Memᴰ q ps → SelectedBy dev.labels q → Precedes p q)
    match_profile-best dev ps p e h =
        let cs = (candidates dev.labels ps).0 in
        let (rest, sorted) = first-some (sort profile_less cs) (sym (unpinned dev ps e) ∙ h) in
        let (mem, least) = sort_first profile_less profile_less-StrictWeak cs p rest sorted in
        let (listed, selected) = candidates_mem dev.labels ps mem in
        (
          listed,
          selected,
          λ q m s. Precedes-of_not_less p q (All-mem _ least (candidates_mem_of dev.labels ps m s)),
        )

    -- For a device without a pin, MatchProfile returns no profile just when none in the list selects the
    -- device.
    pub match_profile-none_iff :
        (dev : ShellyDevice) (ps : List (ShellyProfile F Sel))
        → dev.spec.profile_ref ≡ ""
        → ((match_profile dev ps).0 ≡ none)
          ↔ ((q : ShellyProfile F Sel) → Memᴰ q ps → ¬ SelectedBy dev.labels q)
    match_profile-none_iff dev ps e = (to, from)
      where
        cs : List (ShellyProfile F Sel)
        cs = (candidates dev.labels ps).0

        to :
            (match_profile dev ps).0 ≡ none
            → (q : ShellyProfile F Sel) → Memᴰ q ps
            → ¬ SelectedBy dev.labels q
        to h q m s =
            let empty = first-none (sort profile_less cs) (sym (unpinned dev ps e) ∙ h) in
            elim (subst (λ l. Memᴰ q l) empty
              (mem-sort_of profile_less cs (candidates_mem_of dev.labels ps m s))) [ ]

        from :
            ((q : ShellyProfile F Sel) → Memᴰ q ps → ¬ SelectedBy dev.labels q)
            → (match_profile dev ps).0 ≡ none
        from h = elim (Option-cases (match_profile dev ps).0) [
          | inl n ↦ n
          | inr (p, q) ↦ let b = match_profile-best dev ps p e q in absurd (h p b.0 b.1)
        ]
