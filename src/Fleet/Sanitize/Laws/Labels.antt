-- ===== src/Fleet/Sanitize/Laws/Labels.antt =====
-- Sanitized texts as values of labels.
use shelly_operator.Base.{
  ℕ, ◌≤◌, true, false, List, [], ◌∷◌, ◌≡◌, refl, ap, ◌∙◌, ◌||◌, map, eqb, take, length, All, arith,
  Bool-cases, inl, inr,
}
use shelly_operator.Base.Trim.{
  trim, trim_left, StartsWell, EndsWell, trim_left-eq, trim_right-eq, take-eq,
}
use shelly_operator.Fleet.Sanitize.{
  is_alnum, is_any_alnum, is_dot_or_underscore, max_label, write_runes, sanitize_label,
  replace_rune, sanitize_label_value,
}
use shelly_operator.Fleet.Sanitize.Laws.{
  is_label_rune, IsLabelValue, NoRuns, is_kept, All-take, All-trim, NoRuns-take, NoRuns-trim_left,
  NoRuns-trim_right, trimmed,
}

-- Each code point is one that SanitizeLabel writes.
abbrev Kept : List ℕ → Type 0
Kept s = All (λ r. is_kept r ≡ true) s

write_runes-Kept :
    (prev : ℕ) (s : List ℕ) → Kept (write_runes prev s) × NoRuns prev (write_runes prev s)
unfolding write_runes
write_runes-Kept prev [] = (tt, tt)
write_runes-Kept prev (r ∷ rs) = elim (Bool-cases (is_alnum r || is_dot_or_underscore r)) [
  | inl e ↦ let (k, n) = write_runes-Kept r rs in rw e ((ground arith, k), ((λ d. ground arith), n))
  | inr e ↦ elim (Bool-cases (eqb prev 45)) [
    | inl d ↦ rw (e, d) (write_runes-Kept prev rs)
    | inr d ↦ let (k, n) = write_runes-Kept 45 rs in rw (e, d) ((refl, k), ((λ x. ground arith), n))
  ]
]

write_runes-eq : (prev : ℕ) (s : List ℕ) → Kept s → NoRuns prev s → write_runes prev s ≡ s
unfolding write_runes
write_runes-eq prev [] k n = refl
write_runes-eq prev (r ∷ rs) k n = elim (Bool-cases (is_alnum r || is_dot_or_underscore r)) [
  | inl e ↦ rw e (ap (λ l. r ∷ l) (write_runes-eq r rs k.1 n.1))
  | inr e ↦
      let hyphen : r ≡ 45 = ground (arith, e, k.0) in
      let fresh : eqb prev 45 ≡ false = ground (arith, n.0 hyphen) in
      let rest : write_runes 45 rs ≡ rs = write_runes-eq 45 rs k.1 (rw hyphen at n.1) in
      rw (e, fresh) (cc (hyphen, rest))
]

All-map {ℓ} : (P : ℕ → Type ℓ) (f : ℕ → ℕ) (s : List ℕ) → ((r : ℕ) → P (f r)) → All P (map f s)
All-map P f [] h = tt
All-map P f (r ∷ rs) h = (h r, All-map P f rs h)

weaken : (s : List ℕ) → StartsWell is_alnum s → StartsWell is_any_alnum s
weaken [] h = tt
weaken (r ∷ rs) h = ground arith

weaken_end : (s : List ℕ) → EndsWell is_alnum s → EndsWell is_any_alnum s
weaken_end [] h = tt
weaken_end (r ∷ []) h = ground arith
weaken_end (r ∷ q ∷ rs) h = weaken_end (q ∷ rs) h

label_runes : (s : List ℕ) → Kept s → All (λ r. is_label_rune r ≡ true) s
label_runes [] h = tt
label_runes (r ∷ rs) h = (ground arith, label_runes rs h.1)

-- Whatever code points strings.ToLower writes, SanitizeLabel returns a text that Kubernetes admits as
-- the value of a label: at most 63 of [A-Za-z0-9._-], with a letter or a digit at both ends.
pub sanitize_label-IsLabelValue :
    (lower : ℕ → ℕ) (s : List ℕ) → IsLabelValue (sanitize_label lower s)
unfolding sanitize_label
sanitize_label-IsLabelValue lower [] = record {
  short = omega arith;
  runes = tt;
  starts = tt;
  ends = tt;
}
sanitize_label-IsLabelValue lower (c ∷ cs) =
    let written = write_runes 0 (map lower (c ∷ cs)) in
    let (short, runes, starts, ends) =
      trimmed is_alnum written (label_runes written (write_runes-Kept 0 (map lower (c ∷ cs))).0) in
    record {
      short = short;
      runes = runes;
      starts = weaken (trim is_alnum (take max_label written)) starts;
      ends = weaken_end (trim is_alnum (take max_label written)) ends;
    }

replace_rune-label : (r : ℕ) → is_label_rune (replace_rune r) ≡ true
unfolding replace_rune
replace_rune-label r = ground arith

-- sanitizeLabelValue returns, for every text, one that Kubernetes admits as the value of a label: at
-- most 63 of [A-Za-z0-9._-], with a letter or a digit at both ends.
pub sanitize_label_value-IsLabelValue : (s : List ℕ) → IsLabelValue (sanitize_label_value s)
unfolding sanitize_label_value
sanitize_label_value-IsLabelValue s =
    let (short, runes, starts, ends) =
      trimmed is_any_alnum (map replace_rune s)
        (All-map (λ r. is_label_rune r ≡ true) replace_rune s replace_rune-label) in
    record { short = short; runes = runes; starts = starts; ends = ends }

map-fixed : (f : ℕ → ℕ) (s : List ℕ) → ((r : ℕ) → is_kept r ≡ true → f r ≡ r) → Kept s → map f s ≡ s
map-fixed f [] h k = refl
map-fixed f (r ∷ rs) h k = cc (h r k.0, map-fixed f rs h k.1)

trim-eq : (s : List ℕ) → StartsWell is_alnum s → EndsWell is_alnum s → trim is_alnum s ≡ s
unfolding trim
trim-eq s h k = rw (trim_left-eq is_alnum s h) (trim_right-eq is_alnum s k)

NoRuns-trim : (s : List ℕ) → NoRuns 0 s → NoRuns 0 (trim is_alnum s)
unfolding trim
NoRuns-trim s h =
    NoRuns-trim_right is_alnum 0 (trim_left is_alnum s) (NoRuns-trim_left is_alnum s h)

again :
    (lower : ℕ → ℕ) (s : List ℕ)
    → ((r : ℕ) → is_kept r ≡ true → lower r ≡ r)
    → Kept s
    → NoRuns 0 s
    → length s ≤ 63
    → StartsWell is_alnum s
    → EndsWell is_alnum s
    → sanitize_label lower s ≡ s
unfolding sanitize_label
again lower [] f k n l a b = refl
again lower (c ∷ cs) f k n l a b =
    let written : write_runes 0 (map lower (c ∷ cs)) ≡ c ∷ cs =
      ap (λ w. write_runes 0 w) (map-fixed lower (c ∷ cs) f k) ∙ write_runes-eq 0 (c ∷ cs) k n in
    ap (λ w. trim is_alnum (take max_label w)) written
    ∙ (ap (λ w. trim is_alnum w) (take-eq 63 (c ∷ cs) l) ∙ trim-eq (c ∷ cs) a b)

-- If strings.ToLower leaves the code points a-z, 0-9, '.', '_' and '-' as they are, then sanitizing a
-- text that SanitizeLabel returned gives the same text.
pub sanitize_label_idem :
    (lower : ℕ → ℕ) (s : List ℕ)
    → ((r : ℕ) → is_kept r ≡ true → lower r ≡ r)
    → sanitize_label lower (sanitize_label lower s) ≡ sanitize_label lower s
unfolding sanitize_label
sanitize_label_idem lower [] f = refl
sanitize_label_idem lower (c ∷ cs) f =
    let written = write_runes 0 (map lower (c ∷ cs)) in
    let (kept, no_runs) = write_runes-Kept 0 (map lower (c ∷ cs)) in
    let (short, runes, starts, ends) = trimmed is_alnum written (label_runes written kept) in
    again lower (trim is_alnum (take max_label written)) f
      (All-trim (λ r. is_kept r ≡ true) is_alnum (take max_label written)
        (All-take (λ r. is_kept r ≡ true) 63 written kept))
      (NoRuns-trim (take max_label written) (NoRuns-take 63 0 written no_runs)) short starts ends
