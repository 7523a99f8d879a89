-- ===== src/Drift/Diff/Sections.antt =====
-- internal/drift/diff.go: the sections of Diff's findings and of its errors.
use mathlib.Core.Path.{subst}
use mathlib.Core.List.Permᴰ as PermD
use shelly_operator.Base.{
  String, Option, none, some, List, [], ◌∷◌, ◌++◌, ◌≡◌, ◌⊎◌, inl, inr, refl, sym, ◌∙◌, ap, Memᴰ,
  All, All-append, All-mem, All-of_mem, mem-append_left, mem-append_right, Bool-cases, Option-cases,
  Result, ok, err, >>=-eq-ok, ◌>>=◌, not,
}
use shelly_operator.Base.Assoc
use shelly_operator.Base.Assoc.{Assoc}
use shelly_operator.Base.Sort.Laws.{All-perm, mem-perm}
use shelly_operator.Json.{
  Floats, Value, Fields, null, bool, num, str, arr, obj, end, field, get, as_map,
}
use shelly_operator.Drift.Diff.{
  Finding, DiffError, extend, leaf_ok, diff_leaf, diff_value, diff_entries, diff_map, decode_map,
  diff_decoded, diff_section, diff_loop, diff, join, by_key,
}
use shelly_operator.Drift.Diff.Loop.{by_key-permᴰ}
use shelly_operator.Drift.Diff.Verdict.{IsMet, diff_section-IsMet, ok_inj}

All-join :
    {A : Type 0} (P : A → Type 0) (m : Assoc (List A)) → All (λ e. All P e.1) m → All P (join m)
unfolding join
All-join P [] h = tt
All-join P ((k, x) ∷ m) h = All-append P x (join m) h.0 (All-join P m h.1)

module _ {F : Type 0} ⦃n : Floats F⦄ where
  abbrev In : String → List (Finding F) → Type 0
  In s fs = All (λ f. f.section ≡ s) fs

  diff_leaf-section :
      (s path : String) (w : Value F) (h : Option (Value F)) → In s (diff_leaf s path w h)
  unfolding diff_leaf
  diff_leaf-section s path w h = elim (Bool-cases (not (leaf_ok w h))) [
    | inl e ↦ rw e (refl, tt)
    | inr e ↦ rw e tt
  ]

  join-section :
      (s : String) (m : Assoc (List (Finding F))) → All (λ e. In s e.1) m → In s (join (by_key m))
  join-section s m h =
      All-join (λ f. f.section ≡ s) (by_key m)
        (All-perm (λ e. In s e.1) m (by_key m) (by_key-permᴰ m) h)

  mutual
    unfolding diff_value

    value-section :
        (s path : String) (w : Value F) (h : Option (Value F)) → In s (diff_value s path w h)
    value-section s path null h = diff_leaf-section s path null h
    value-section s path (bool b) h = diff_leaf-section s path (bool b) h
    value-section s path (num b) h = diff_leaf-section s path (num b) h
    value-section s path (str b) h = diff_leaf-section s path (str b) h
    value-section s path (arr b) h = diff_leaf-section s path (arr b) h
    value-section s path (obj wm) h = join-section s _ (entries-section s path wm (as_map h))

    entries-section :
        (s prefix : String) (want have : Fields F)
        → All (λ e. In s e.1) (diff_entries s prefix want have)
    entries-section s prefix end have = tt
    entries-section s prefix (field k w rest) have =
        (value-section s (extend prefix k) w (get k have), entries-section s prefix rest have)

  diff_section-section :
      (s : String) (want : Fields F) (raw : Option (Value F)) (fs : List (Finding F))
      → diff_section s want raw ≡ ok fs
      → In s fs
  unfolding diff_section diff_decoded diff_map
  diff_section-section s end raw fs h = subst (λ l. In s l) (ok_inj h) tt
  diff_section-section s (field k v rest) none fs h = subst (λ l. In s l) (ok_inj h) (refl, tt)
  diff_section-section s (field k v rest) (some r) fs h = elim (Option-cases (decode_map r)) [
    | inl e ↦ cc (rw e at h)
    | inr (have, e) ↦
        subst (λ l. In s l) (ok_inj (rw e at h))
          (join-section s _ (entries-section s "" (field k v rest) have))
  ]

  -- Some finding has the section.
  abbrev pub Named : String → List (Finding F) → Type 0
  Named s fs = (f : Finding F) × Memᴰ f fs × (f.section ≡ s)

  here-Named :
      (s : String) (want : Fields F) (raw : Option (Value F)) (fs : List (Finding F))
      → diff_section s want raw ≡ ok fs
      → IsMet want raw ⊎ Named s fs
  here-Named s want raw [] h = inl (diff_section-IsMet s want raw h)
  here-Named s want raw (f ∷ fs) h =
      inr (f, Memᴰ.head refl, (diff_section-section s want raw (f ∷ fs) h).0)

  loop-Named :
      (desired : Assoc (Fields F)) (actual : Assoc (Value F)) (fs : List (Finding F))
      → diff_loop desired actual ≡ ok fs
      → All (λ e. IsMet e.1 (Assoc.get e.0 actual) ⊎ Named e.0 fs) desired
  unfolding diff_loop
  loop-Named [] actual fs h = tt
  loop-Named ((s, w) ∷ rest) actual fs h =
      let (here, first, h') = >>=-eq-ok (diff_section s w (Assoc.get s actual)) _ h in
      let (later, second, h'') = >>=-eq-ok (diff_loop rest actual) _ h' in
      let all : here ++ later ≡ fs = ok_inj h'' in
      subst (λ l. All (λ e. IsMet e.1 (Assoc.get e.0 actual) ⊎ Named e.0 l) ((s, w) ∷ rest)) all
        (
          elim (here-Named s w (Assoc.get s actual) here first) [
            | inl m ↦ inl m
            | inr (f, m, e) ↦ inr (f, mem-append_left later m, e)
          ],
          All-of_mem _ rest λ e m.
              elim (All-mem (λ e. IsMet e.1 (Assoc.get e.0 actual) ⊎ Named e.0 later)
                (loop-Named rest actual later second) m) [
                  | inl x ↦ inl x
                  | inr (f, k, q) ↦ inr (f, mem-append_right here k, q)
                ],
        )

  -- When Diff returns findings, each desired component is met by the device's configuration, or one of
  -- the findings is in its section.
  pub diff-Named :
      (desired : Assoc (Fields F)) (actual : Assoc (Value F)) (fs : List (Finding F))
      → diff desired actual ≡ ok fs
      → All (λ e. IsMet e.1 (Assoc.get e.0 actual) ⊎ Named e.0 fs) desired
  unfolding diff
  diff-Named desired actual fs h =
      All-perm (λ e. IsMet e.1 (Assoc.get e.0 actual) ⊎ Named e.0 fs) (by_key desired) desired
        (PermD.symm (by_key-permᴰ desired)) (loop-Named (by_key desired) actual fs h)

  diff_section-err :
      (s t : String) (want : Fields F) (raw : Option (Value F))
      → diff_section s want raw ≡ err (DiffError.decode_section t)
      → (s ≡ t) × ((r : Value F) × (raw ≡ some r) × (decode_map r ≡ none))
  unfolding diff_section diff_decoded
  diff_section-err s t end raw h = cc
  diff_section-err s t (field k v rest) none h = cc
  diff_section-err s t (field k v rest) (some r) h = elim (Option-cases (decode_map r)) [
    | inl e ↦ (cc (rw e at h), (r, refl, e))
    | inr (have, e) ↦ cc (rw e at h)
  ]

  -- The section is wanted, and the device's value for it does not decode to a map.
  abbrev pub Undecodable : String → Assoc (Fields F) → Assoc (Value F) → Type 0
  Undecodable t desired actual =
      (want : Fields F) × Memᴰ (t, want) desired
      × ((r : Value F) × (Assoc.get t actual ≡ some r) × (decode_map r ≡ none))

  loop-err :
      (desired : Assoc (Fields F)) (actual : Assoc (Value F)) (t : String)
      → diff_loop desired actual ≡ err (DiffError.decode_section t)
      → Undecodable t desired actual
  unfolding diff_loop
  loop-err [] actual t h = cc
  loop-err ((s, w) ∷ rest) actual t h =
      go (diff_section s w (Assoc.get s actual)) refl (loop-err rest actual t) h
    where
      later :
          (here : List (Finding F)) (r : Result DiffError (List (Finding F)))
          → (r ≡ err (DiffError.decode_section t) → Undecodable t rest actual)
          → (r >>= λ later. ok (here ++ later)) ≡ err (DiffError.decode_section t)
          → Undecodable t ((s, w) ∷ rest) actual
      later here (ok fs) ih k = cc
      later here (err e) ih k = let (want, m, d) = ih k in (want, Memᴰ.tail m, d)

      go :
          (r : Result DiffError (List (Finding F)))
          → diff_section s w (Assoc.get s actual) ≡ r
          → (diff_loop rest actual ≡ err (DiffError.decode_section t) → Undecodable t rest actual)
          → (r >>= λ here. diff_loop rest actual >>= λ later. ok (here ++ later))
            ≡ err (DiffError.decode_section t)
          → Undecodable t ((s, w) ∷ rest) actual
      go (ok here) e ih k = later here (diff_loop rest actual) ih k
      go (err x) e ih k =
          let (same, d) = diff_section-err s t w (Assoc.get s actual) (e ∙ k) in
          (
            w,
            Memᴰ.head (ap (λ y. (y, w)) (sym same)),
            subst (λ y. (r : Value F) × (Assoc.get y actual ≡ some r) × (decode_map r ≡ none)) same
                d,
          )

  -- When Diff fails, the section that it names is wanted, is on the device, and does not decode.
  pub diff-err :
      (desired : Assoc (Fields F)) (actual : Assoc (Value F)) (t : String)
      → diff desired actual ≡ err (DiffError.decode_section t)
      → Undecodable t desired actual
  unfolding diff
  diff-err desired actual t h =
      let (want, m, d) = loop-err (by_key desired) actual t h in
      (want, mem-perm (by_key-permᴰ desired) m, d)
