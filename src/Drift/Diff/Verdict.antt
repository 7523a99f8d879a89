-- ===== src/Drift/Diff/Verdict.antt =====
-- The verdict of Diff over a whole profile: in sync, drifted, or a section that does not decode.
use mathlib.Core.List.Permᴰ as PermD
use shelly_operator.Base.{
  String, Option, none, some, List, [], ◌∷◌, ◌≡◌, ◌↔◌, ◌⊎◌, inl, inr, refl, ◌∙◌, ap, All, Result,
  ok, >>=-eq-ok, Option-cases,
}
use shelly_operator.Base.Assoc
use shelly_operator.Base.Assoc.{Assoc}
use shelly_operator.Base.Sort.Laws.{All-perm}
use shelly_operator.Json.{Floats, Value, Fields, end, field}
use shelly_operator.Drift.Diff.{
  Finding, DiffError, decode_map, diff_decoded, diff_section, diff_loop, diff, by_key,
}
use shelly_operator.Drift.Diff.Loop.{append-eq-nil, by_key-permᴰ}
use shelly_operator.Drift.Diff.Covers.{Covers, diff_map-Covers}

module _ {F : Type 0} ⦃n : Floats F⦄ where
  -- A section wants nothing, or the device has it, it decodes to a map, and that covers the section.
  abbrev pub IsMet : Fields F → Option (Value F) → Type 0
  IsMet want raw =
      (want ≡ end)
      ⊎ ((r : Value F) × (have : Fields F) × (raw ≡ some r)
          × (decode_map r ≡ some have)
          × Covers want have)

  pub ok_inj :
      {a b : List (Finding F)} → ◌≡◌ {A = Result DiffError (List (Finding F))} (ok a) (ok b) → a ≡ b
  ok_inj h = cc

  pub diff_section-IsMet :
      (section : String) (want : Fields F) (raw : Option (Value F))
      → diff_section section want raw ≡ ok []
      → IsMet want raw
  unfolding diff_section diff_decoded
  diff_section-IsMet section end raw h = inl refl
  diff_section-IsMet section (field k v fs) none h = cc
  diff_section-IsMet section (field k v fs) (some r) h = elim (Option-cases (decode_map r)) [
    | inl e ↦ cc (rw e at h)
    | inr (have, e) ↦
        inr (
          r,
          have,
          refl,
          e,
          (diff_map-Covers section "" (field k v fs) have).0 (ok_inj (rw e at h)),
        )
  ]

  IsMet-diff_section :
      (section : String) (want : Fields F) (raw : Option (Value F))
      → IsMet want raw
      → diff_section section want raw ≡ ok []
  unfolding diff_section diff_decoded
  IsMet-diff_section section end raw h = refl
  IsMet-diff_section section (field k v fs) raw (inl e) = cc
  IsMet-diff_section section (field k v fs) raw (inr (r, have, e, d, c)) =
      rw e (rw d (ap ok ((diff_map-Covers section "" (field k v fs) have).1 c)))

  -- Every section of the profile is met by the device's configuration.
  abbrev pub IsInSync : Assoc (Fields F) → Assoc (Value F) → Type 0
  IsInSync desired actual = All (λ e. IsMet e.1 (Assoc.get e.0 actual)) desired

  loop-IsInSync :
      (desired : Assoc (Fields F)) (actual : Assoc (Value F))
      → diff_loop desired actual ≡ ok []
      → IsInSync desired actual
  unfolding diff_loop
  loop-IsInSync [] actual h = tt
  loop-IsInSync ((s, w) ∷ rest) actual h =
      let (here, first, h') = >>=-eq-ok (diff_section s w (Assoc.get s actual)) _ h in
      let (later, then, h'') = >>=-eq-ok (diff_loop rest actual) _ h' in
      let (e, d) = append-eq-nil here later (ok_inj h'') in
      (diff_section-IsMet s w _ (first ∙ ap ok e), loop-IsInSync rest actual (then ∙ ap ok d))

  IsInSync-loop :
      (desired : Assoc (Fields F)) (actual : Assoc (Value F))
      → IsInSync desired actual
      → diff_loop desired actual ≡ ok []
  unfolding diff_loop
  IsInSync-loop [] actual h = refl
  IsInSync-loop ((s, w) ∷ rest) actual h =
      rw (IsMet-diff_section s w (Assoc.get s actual) h.0) (rw (IsInSync-loop rest actual h.1) refl)

  -- Diff returns no error and no finding just when every section that wants something is there,
  -- decodes to a map, and has each desired leaf at its path.
  pub diff-nil_iff :
      (desired : Assoc (Fields F)) (actual : Assoc (Value F))
      → (diff desired actual ≡ ok []) ↔ IsInSync desired actual
  unfolding diff
  diff-nil_iff desired actual = (
    λ h.
        All-perm (λ e. IsMet e.1 (Assoc.get e.0 actual)) (by_key desired) desired
          (PermD.symm (by_key-permᴰ desired)) (loop-IsInSync (by_key desired) actual h),
    λ h. IsInSync-loop (by_key desired) actual (
        All-perm (λ e. IsMet e.1 (Assoc.get e.0 actual)) desired (by_key desired)
          (by_key-permᴰ desired) h),
  )
