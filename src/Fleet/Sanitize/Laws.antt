-- ===== src/Fleet/Sanitize/Laws.antt =====
-- What cutting and trimming keep of a text.
pub mod Labels
use mathlib.Core.Path.{subst}
use shelly_operator.Base.{
  ℕ, zero, suc, ◌≤◌, Bool, true, false, List, [], ◌∷◌, ◌++◌, ◌≡◌, ◌≢◌, refl, sym, ap, ◌∙◌, ◌&&◌,
  ◌||◌, not, map, eqb, leb, take, length, All, arith, Bool-cases, inl, inr, if◌then◌else◌,
}
use shelly_operator.Base.Trim.{
  trim, trim_left, trim_right, is_empty, StartsWell, EndsWell, trim_left-StartsWell,
  trim_right-StartsWell, trim_right-EndsWell, trim_left-eq, trim_right-eq, length-trim_left,
  length-trim_right, length-take, take-eq,
}
use shelly_operator.Fleet.Sanitize.{
  is_alnum, is_any_alnum, is_dot_or_underscore, max_label, write_rune, write_runes, sanitize_label,
  replace_rune, sanitize_label_value,
}

-- [A-Za-z0-9._-]
abbrev pub is_label_rune : ℕ → Bool
is_label_rune r = is_any_alnum r || (is_dot_or_underscore r || eqb r 45)

-- What Kubernetes admits as the value of a label: at most 63 of [A-Za-z0-9._-], a letter or a digit at
-- both ends.
pub record IsLabelValue (s : List ℕ) : Type 0 where
  pub short : length s ≤ 63
  pub runes : All (λ r. is_label_rune r ≡ true) s
  pub starts : StartsWell is_any_alnum s
  pub ends : EndsWell is_any_alnum s

-- No run of hyphens, after the code point `prev`; and what write_rune keeps.
abbrev pub NoRuns : ℕ → List ℕ → Type 0
NoRuns prev [] = Unit
NoRuns prev (r ∷ rs) = (r ≡ 45 → prev ≢ 45) × NoRuns r rs

abbrev pub is_kept : ℕ → Bool
is_kept r = is_alnum r || (is_dot_or_underscore r || eqb r 45)

pub All-take : (P : ℕ → Type 0) (n : ℕ) (xs : List ℕ) → All P xs → All P (take n xs)
All-take P zero xs h = tt
All-take P (suc n) [] h = tt
All-take P (suc n) (x ∷ xs) h = (h.0, All-take P n xs h.1)

All-trim_left :
    (P : ℕ → Type 0) (keep : ℕ → Bool) (xs : List ℕ) → All P xs → All P (trim_left keep xs)
unfolding trim_left
All-trim_left P keep [] h = tt
All-trim_left P keep (x ∷ xs) h = elim (Bool-cases (keep x)) [
  | inl e ↦ rw e h
  | inr e ↦ rw e (All-trim_left P keep xs h.1)
]

All-trim_right :
    (P : ℕ → Type 0) (keep : ℕ → Bool) (xs : List ℕ) → All P xs → All P (trim_right keep xs)
unfolding trim_right
All-trim_right P keep [] h = tt
All-trim_right P keep (x ∷ xs) h =
    let ih = All-trim_right P keep xs h.1 in
    elim (Bool-cases (keep x)) [
      | inl e ↦ rw e (h.0, ih)
      | inr e ↦ elim (Bool-cases (is_empty (trim_right keep xs))) [
        | inl k ↦ rw (e, k) tt
        | inr k ↦ rw (e, k) (h.0, ih)
      ]
    ]

pub All-trim : (P : ℕ → Type 0) (keep : ℕ → Bool) (xs : List ℕ) → All P xs → All P (trim keep xs)
unfolding trim
All-trim P keep xs h = All-trim_right P keep (trim_left keep xs) (All-trim_left P keep xs h)

pub NoRuns-take : (n p : ℕ) (xs : List ℕ) → NoRuns p xs → NoRuns p (take n xs)
NoRuns-take zero p xs h = tt
NoRuns-take (suc n) p [] h = tt
NoRuns-take (suc n) p (x ∷ xs) h = (h.0, NoRuns-take n x xs h.1)

pub NoRuns-start : (p : ℕ) (xs : List ℕ) → NoRuns p xs → NoRuns 0 xs
NoRuns-start p [] h = tt
NoRuns-start p (x ∷ xs) h = ((λ e. ground arith), h.1)

pub NoRuns-trim_left : (keep : ℕ → Bool) (xs : List ℕ) → NoRuns 0 xs → NoRuns 0 (trim_left keep xs)
unfolding trim_left
NoRuns-trim_left keep [] h = tt
NoRuns-trim_left keep (x ∷ xs) h = elim (Bool-cases (keep x)) [
  | inl e ↦ rw e h
  | inr e ↦ rw e (NoRuns-trim_left keep xs (NoRuns-start x xs h.1))
]

pub NoRuns-trim_right :
    (keep : ℕ → Bool) (p : ℕ) (xs : List ℕ) → NoRuns p xs → NoRuns p (trim_right keep xs)
unfolding trim_right
NoRuns-trim_right keep p [] h = tt
NoRuns-trim_right keep p (x ∷ xs) h =
    let ih = NoRuns-trim_right keep x xs h.1 in
    elim (Bool-cases (keep x)) [
      | inl e ↦ rw e (h.0, ih)
      | inr e ↦ elim (Bool-cases (is_empty (trim_right keep xs))) [
        | inl k ↦ rw (e, k) tt
        | inr k ↦ rw (e, k) (h.0, ih)
      ]
    ]

length-trim : (keep : ℕ → Bool) (xs : List ℕ) → length (trim keep xs) ≤ length xs
unfolding trim
length-trim keep xs =
    omega (arith, length-trim_right keep (trim_left keep xs), length-trim_left keep xs)

-- A text that was cut and trimmed by the letters and digits of one kind.
pub trimmed :
    (keep : ℕ → Bool) (s : List ℕ)
    → All (λ r. is_label_rune r ≡ true) s
    → (length (trim keep (take max_label s)) ≤ 63)
      × All (λ r. is_label_rune r ≡ true) (trim keep (take max_label s))
      × StartsWell keep (trim keep (take max_label s))
      × EndsWell keep (trim keep (take max_label s))
unfolding trim
trimmed keep s h =
    let cut = take max_label s in
    (
      omega (arith, length-trim keep cut, length-take 63 s),
      All-trim (λ r. is_label_rune r ≡ true) keep cut
          (All-take (λ r. is_label_rune r ≡ true) 63 s h),
      trim_right-StartsWell keep (trim_left keep cut) (trim_left-StartsWell keep cut),
      trim_right-EndsWell keep (trim_left keep cut),
    )
