-- ===== src/Shellytest/Config/Converge.antt =====
-- Writes to a fake device that accepts configuration.
use shelly_operator.Base.{
  true, false, String, Option, none, some, List, [], ◌∷◌, ◌≡◌, ◌⊎◌, inl, inr, refl, sym, ◌∙◌, ap,
  Memᴰ, All, All-mem, All-of_mem, arith, eq_iff, eq_refl, ◌==◌, Bool-cases, Option-cases, ok,
}
use shelly_operator.Base.Assoc
use shelly_operator.Base.Assoc.{Assoc, get-put}
use shelly_operator.Json.{
  Floats, Value, Fields, null, bool, num, str, arr, obj, NumReflexive, IsWf, FieldsWf,
}
use shelly_operator.Json.Wf.{deep_equal_refl, mem-IsWf}
use shelly_operator.Drift.Diff.{leaf_equal, leaf_ok, decode_map, diff}
use shelly_operator.Drift.Diff.Covers.{LeafAt, here, under, Covers}
use shelly_operator.Drift.Diff.Verdict.{IsMet, diff-nil_iff}
use shelly_operator.Shellytest.Merge.{merge}
use shelly_operator.Shellytest.Merge.Laws.{value_at-merge}
use shelly_operator.Shellytest.Config.{ConfigDevice, or_empty, snapshot, handle_set_config}

LeafAt-IsWf :
    {F : Type 0} {fs : Fields F} {p : List String} {v : Value F}
    → FieldsWf fs
    → LeafAt fs p v
    → IsWf v
LeafAt-IsWf {fs = fs} w (here m l) = mem-IsWf fs w m
LeafAt-IsWf {fs = fs} w (under m l) = LeafAt-IsWf (mem-IsWf fs w m) l

get-snapshot :
    {F : Type 0} (k : String) (m : Assoc (Fields F)) {fs : Fields F}
    → Assoc.get k m ≡ some fs
    → Assoc.get k (snapshot m) ≡ some (obj fs)
unfolding Assoc.get
get-snapshot k [] h = cc
get-snapshot k ((j, x) ∷ m) h = elim (Bool-cases (j == k)) [
  | inl e ↦ rw e (ap some (ap obj (cc (rw e at h))))
  | inr e ↦ rw e (get-snapshot k m (rw e at h))
]

get-snapshot-none :
    {F : Type 0} (k : String) (m : Assoc (Fields F))
    → Assoc.get k m ≡ none
    → Assoc.get k (snapshot m) ≡ none
unfolding Assoc.get
get-snapshot-none k [] h = refl
get-snapshot-none k ((j, x) ∷ m) h = elim (Bool-cases (j == k)) [
  | inl e ↦ cc (rw e at h)
  | inr e ↦ rw e (get-snapshot-none k m (rw e at h))
]

get-snapshot_eq :
    {F : Type 0} (k : String) (m l : Assoc (Fields F))
    → Assoc.get k m ≡ Assoc.get k l
    → Assoc.get k (snapshot m) ≡ Assoc.get k (snapshot l)
get-snapshot_eq k m l h = elim (Option-cases (Assoc.get k l)) [
  | inl e ↦ get-snapshot-none k m (h ∙ e) ∙ sym (get-snapshot-none k l e)
  | inr (fs, e) ↦ get-snapshot k m (h ∙ e) ∙ sym (get-snapshot k l e)
]

-- The device takes configuration as it is told to.
pub record Accepts {F : Type 0} (d : ConfigDevice F) : Type 0 where
  pub no_error : d.set_config_error ≡ ""
  pub no_ignore : d.ignore_set_config ≡ false

module _ {F : Type 0} where
  -- One write of the loop over the sections; a section that is not desired is not written.
  abbrev pub write : ConfigDevice F → String → Option (Fields F) → ConfigDevice F
  write d s none = d
  write d s (some want) = (handle_set_config d s want).1

  -- The desired configuration of each section, written in turn.
  abbrev pub write_sections : ConfigDevice F → Assoc (Fields F) → List String → ConfigDevice F
  write_sections d desired [] = d
  write_sections d desired (s ∷ ss) = write_sections (write d s (Assoc.get s desired)) desired ss

module _ {F : Type 0} ⦃n : Floats F⦄ (reflexive : NumReflexive n) where
  leaf_equal_refl : (v : Value F) → IsWf v → leaf_equal v v ≡ true
  unfolding leaf_equal
  leaf_equal_refl (num x) w = reflexive x
  leaf_equal_refl null w = deep_equal_refl reflexive null w
  leaf_equal_refl (bool b) w = deep_equal_refl reflexive (bool b) w
  leaf_equal_refl (str b) w = deep_equal_refl reflexive (str b) w
  leaf_equal_refl (arr b) w = deep_equal_refl reflexive (arr b) w
  leaf_equal_refl (obj b) w = deep_equal_refl reflexive (obj b) w

  -- A merge leaves the device covering what was merged.
  pub Covers-merge : (have want : Fields F) → FieldsWf want → Covers want (merge have want)
  unfolding leaf_ok
  Covers-merge have want w p v l =
      rw (value_at-merge have want w l) (leaf_equal_refl v (LeafAt-IsWf w l))

  config-set :
      (d : ConfigDevice F) (k : String) (want : Fields F)
      → Accepts d
      → (handle_set_config d k want).1.config
        ≡ Assoc.put k (merge (or_empty (Assoc.get k d.config)) want) d.config
  unfolding handle_set_config
  config-set d k want a = rw ((eq_iff d.set_config_error "").1 a.no_error) (rw a.no_ignore refl)

  Accepts-set :
      (d : ConfigDevice F) (k : String) (want : Fields F)
      → Accepts d
      → Accepts (handle_set_config d k want).1
  unfolding handle_set_config
  Accepts-set d k want a = record {
    no_error = ground (arith, a.no_error, a.no_ignore);
    no_ignore = ground (arith, a.no_error, a.no_ignore);
  }

  -- A section is met once it was written.
  set_config-IsMet :
      (d : ConfigDevice F) (k : String) (want : Fields F)
      → Accepts d
      → FieldsWf want
      → IsMet want (Assoc.get k (snapshot (handle_set_config d k want).1.config))
  unfolding decode_map
  set_config-IsMet d k want a w =
      let new = merge (or_empty (Assoc.get k d.config)) want in
      let there : Assoc.get k (Assoc.put k new d.config) ≡ some new =
        get-put k k new d.config ∙ rw (eq_refl k) refl in
      rw (config-set d k want a) (
        inr (
          obj new,
          new,
          get-snapshot k _ there,
          refl,
          Covers-merge (or_empty (Assoc.get k d.config)) want w,
        ))

  -- A write leaves another section as it was.
  get-set_ne :
      (d : ConfigDevice F) (k j : String) (want : Fields F)
      → Accepts d
      → (k == j) ≡ false
      → Assoc.get j (snapshot (handle_set_config d k want).1.config)
        ≡ Assoc.get j (snapshot d.config)
  get-set_ne d k j want a ne =
      rw (config-set d k want a)
        (get-snapshot_eq j _ d.config (get-put k j _ d.config ∙ rw ne refl))

  -- The section is met already, or it is still to be written.
  abbrev pub MetOrListed : ConfigDevice F → List String → String × Fields F → Type 0
  MetOrListed d sections e = IsMet e.1 (Assoc.get e.0 (snapshot d.config)) ⊎ Memᴰ e.0 sections

  write-MetOrListed :
      (d : ConfigDevice F) (desired : Assoc (Fields F)) (s : String) (ss : List String)
      (e : String × Fields F)
      → Accepts d
      → FieldsWf e.1
      → Assoc.get e.0 desired ≡ some e.1
      → MetOrListed d (s ∷ ss) e
      → MetOrListed (write d s (Assoc.get s desired)) ss e
  write-MetOrListed d desired s ss (k, want) a w g h = elim (Bool-cases (s == k)) [
    | inl same ↦
        let es : s ≡ k = (eq_iff s k).0 same in
        inl (rw (ap (λ x. Assoc.get x desired) es ∙ g) (rw es (set_config-IsMet d k want a w)))
    | inr ne ↦ other ne h (Option-cases (Assoc.get s desired))
  ]
    where
      moved :
          (s == k) ≡ false
          → ((Assoc.get s desired ≡ none) ⊎ ((x : Fields F) × (Assoc.get s desired ≡ some x)))
          → IsMet want (Assoc.get k (snapshot d.config))
          → MetOrListed (write d s (Assoc.get s desired)) ss (k, want)
      moved ne (inl e) m = rw e (inl m)
      moved ne (inr (x, e)) m = rw e (inl (rw (get-set_ne d s k x a ne) m))

      other :
          (s == k) ≡ false
          → MetOrListed d (s ∷ ss) (k, want)
          → ((Assoc.get s desired ≡ none) ⊎ ((x : Fields F) × (Assoc.get s desired ≡ some x)))
          → MetOrListed (write d s (Assoc.get s desired)) ss (k, want)
      other ne (inl m) c = moved ne c m
      other ne (inr (Memᴰ.head e)) c = cc ((eq_iff s k).1 (sym e))
      other ne (inr (Memᴰ.tail t)) c = inr t

  Accepts-write :
      (d : ConfigDevice F) (s : String) (o : Option (Fields F)) → Accepts d → Accepts (write d s o)
  Accepts-write d s none a = a
  Accepts-write d s (some want) a = Accepts-set d s want a

  -- Once every section that is not met was written, in whatever order, Diff finds nothing.
  pub write_sections-diff :
      (d : ConfigDevice F) (desired : Assoc (Fields F)) (sections : List String)
      → Accepts d
      → All (λ e. FieldsWf e.1 × (Assoc.get e.0 desired ≡ some e.1)) desired
      → All (MetOrListed d sections) desired
      → diff desired (snapshot (write_sections d desired sections).config) ≡ ok []
  write_sections-diff d desired [] a w h = (diff-nil_iff desired (snapshot d.config)).1 (
      All-of_mem _ desired
        λ e m. elim (All-mem (MetOrListed d []) h m) [ inl x ↦ x | inr t ↦ elim t [ ] ])
  write_sections-diff d desired (s ∷ ss) a w h =
      write_sections-diff (write d s (Assoc.get s desired)) desired ss
        (Accepts-write d s (Assoc.get s desired) a) w
        (All-of_mem _ desired λ e m.
          let (wf, g) = All-mem (λ e. FieldsWf e.1 × (Assoc.get e.0 desired ≡ some e.1)) w m in
          write-MetOrListed d desired s ss e a wf g (All-mem (MetOrListed d (s ∷ ss)) h m))
