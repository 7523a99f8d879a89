-- ===== src/Drift/Report/Laws.antt =====
-- internal/drift/diff.go: what Sections and Summarize return.
use mathlib.Core.Path.{subst}
use shelly_operator.Base.{
  ℕ, zero, suc, ◌+◌, ◌≤◌, Bool, true, false, String, List, [], ◌∷◌, ◌≡◌, ◌⊎◌, inl, inr, refl, sym,
  ap, Memᴰ, All, All-of_mem, All-mem, arith, eq_iff, ◌==◌, any, take, length, str_ltb,
  str_ltb_asymm, str_ltb_cotrans, str_ltb_connex, Bool-cases, if◌then◌else◌, eqb,
}
use shelly_operator.Base.Sort.{insert, sort, IsSorted}
use shelly_operator.Base.Sort.Laws.{
  StrictWeak, mem-sort, mem-sort_of, sort-IsSorted, sort-permᴰ, insert-permᴰ, All-perm,
}
use shelly_operator.Json.{Value}
use shelly_operator.Drift.Diff.{Finding}
use shelly_operator.Drift.Report.{
  distinct, sections_of, sections, max_summarized, join_strings, parts, summarize,
}

any-mem : (s : String) (ss : List String) → any (λ x. x == s) ss ≡ true → Memᴰ s ss
any-mem s [] h = cc
any-mem s (x ∷ ss) h = elim (Bool-cases (x == s)) [
  | inl e ↦ Memᴰ.head (sym ((eq_iff x s).0 e))
  | inr e ↦ Memᴰ.tail (any-mem s ss (ground (arith)))
]

mem-skip :
    (b : Bool) {s x : String} {ss : List String}
    → Memᴰ s (if b then ss else x ∷ ss)
    → (s ≡ x) ⊎ Memᴰ s ss
mem-skip true m = inr m
mem-skip false (Memᴰ.head e) = inl e
mem-skip false (Memᴰ.tail t) = inr t

mem-distinct : {s : String} (ss : List String) → Memᴰ s (distinct ss) → Memᴰ s ss
unfolding distinct
mem-distinct [] m = m
mem-distinct (x ∷ ss) m = elim (mem-skip (any (λ y. y == x) ss) m) [
  | inl e ↦ Memᴰ.head e
  | inr t ↦ Memᴰ.tail (mem-distinct ss t)
]

mem-distinct_of : {s : String} (ss : List String) → Memᴰ s ss → Memᴰ s (distinct ss)
unfolding distinct
mem-distinct_of [] m = m
mem-distinct_of {s} (x ∷ ss) (Memᴰ.head q) = elim (Bool-cases (any (λ y. y == x) ss)) [
  | inl e ↦ rw e (mem-distinct_of ss (subst (λ y. Memᴰ y ss) (sym q) (any-mem x ss e)))
  | inr e ↦ rw e (Memᴰ.head q)
]
mem-distinct_of (x ∷ ss) (Memᴰ.tail t) = elim (Bool-cases (any (λ y. y == x) ss)) [
  | inl e ↦ rw e (mem-distinct_of ss t)
  | inr e ↦ rw e (Memᴰ.tail (mem-distinct_of ss t))
]

not_any :
    (x : String) (ss : List String) → any (λ y. y == x) ss ≡ false → All (λ y. (y == x) ≡ false) ss
not_any x [] h = tt
not_any x (y ∷ ss) h = (ground arith, not_any x ss (ground arith))

-- No text twice.
abbrev pub IsNodup : List String → Type 0
IsNodup [] = Unit
IsNodup (s ∷ ss) = All (λ y. (y == s) ≡ false) ss × IsNodup ss

distinct-IsNodup : (ss : List String) → IsNodup (distinct ss)
unfolding distinct
distinct-IsNodup [] = tt
distinct-IsNodup (x ∷ ss) = elim (Bool-cases (any (λ y. y == x) ss)) [
  | inl e ↦ rw e (distinct-IsNodup ss)
  | inr e ↦ rw e (
    All-of_mem _ (distinct ss) (λ y m. All-mem _ (not_any x ss e) (mem-distinct ss m)),
    distinct-IsNodup ss,
  )
]

pub str_ltb-StrictWeak : StrictWeak str_ltb
str_ltb-StrictWeak = record { asymm = str_ltb_asymm; cotrans = str_ltb_cotrans }

mem-sections_of :
    {F : Type 0} {s : String} (fs : List (Finding F))
    → Memᴰ s (sections_of fs)
    → (f : Finding F) × Memᴰ f fs × (f.section ≡ s)
mem-sections_of [] m = elim m [ ]
mem-sections_of (f ∷ fs) (Memᴰ.head e) = (f, Memᴰ.head refl, sym e)
mem-sections_of (f ∷ fs) (Memᴰ.tail t) = let (g, m, e) = mem-sections_of fs t in (g, Memᴰ.tail m, e)

mem-sections_of_of :
    {F : Type 0} {f : Finding F} (fs : List (Finding F))
    → Memᴰ f fs
    → Memᴰ f.section (sections_of fs)
mem-sections_of_of [] m = elim m [ ]
mem-sections_of_of (g ∷ fs) (Memᴰ.head e) = Memᴰ.head (ap (λ (x : Finding _). x.section) e)
mem-sections_of_of (g ∷ fs) (Memᴰ.tail t) = Memᴰ.tail (mem-sections_of_of fs t)

-- The section of every finding is listed.
pub mem-sections :
    {F : Type 0} {f : Finding F} (fs : List (Finding F)) → Memᴰ f fs → Memᴰ f.section (sections fs)
unfolding sections
mem-sections fs m = mem-sort_of str_ltb _ (mem-distinct_of _ (mem-sections_of_of fs m))

insert-IsNodup :
    (x : String) (ys : List String)
    → All (λ y. (y == x) ≡ false) ys
    → IsNodup ys
    → IsNodup (insert str_ltb x ys)
unfolding insert
insert-IsNodup x [] h n = (tt, tt)
insert-IsNodup x (y ∷ ys) h n = elim (Bool-cases (str_ltb y x)) [
  | inl e ↦
      let ne : (x == y) ≡ false = ground (arith, eq_iff x y, eq_iff y x, h.0) in
      rw e (
        All-perm (λ z. (z == y) ≡ false) (x ∷ ys) (insert str_ltb x ys) (insert-permᴰ str_ltb x ys)
            (ne, n.0),
        insert-IsNodup x ys h.1 n.1,
      )
  | inr e ↦ rw e (h, n)
]

sort-IsNodup : (xs : List String) → IsNodup xs → IsNodup (sort str_ltb xs)
unfolding sort
sort-IsNodup [] n = tt
sort-IsNodup (x ∷ xs) n =
    insert-IsNodup x (sort str_ltb xs)
      (All-perm (λ y. (y == x) ≡ false) xs (sort str_ltb xs) (sort-permᴰ str_ltb xs) n.0)
      (sort-IsNodup xs n.1)

-- Each text is below all that follow it.
abbrev pub IsAscending : List String → Type 0
IsAscending [] = Unit
IsAscending (s ∷ ss) = All (λ y. str_ltb s y ≡ true) ss × IsAscending ss

All-above :
    (x : String) (ys : List String)
    → All (λ y. str_ltb y x ≡ false) ys
    → All (λ y. (y == x) ≡ false) ys
    → All (λ y. str_ltb x y ≡ true) ys
All-above x [] h k = tt
All-above x (y ∷ ys) h k =
    (ground (arith, str_ltb_connex y x, eq_iff y x, h.0, k.0), All-above x ys h.1 k.1)

ascending : (xs : List String) → IsSorted str_ltb xs → IsNodup xs → IsAscending xs
ascending [] s n = tt
ascending (x ∷ xs) s n = (All-above x xs s.0 n.0, ascending xs s.1 n.1)

-- Sections lists a section just when some finding has it, and it lists them in strictly ascending
-- order, hence each once.
pub sections_lem :
    {F : Type 0} (fs : List (Finding F))
    → ((s : String) → Memᴰ s (sections fs) → (f : Finding F) × Memᴰ f fs × (f.section ≡ s))
      × ((f : Finding F) → Memᴰ f fs → Memᴰ f.section (sections fs))
      × IsAscending (sections fs)
unfolding sections
sections_lem fs = (
  λ s m. mem-sections_of fs (mem-distinct _ (mem-sort str_ltb _ m)),
  λ f m. mem-sections fs m,
  ascending _ (sort-IsSorted str_ltb str_ltb-StrictWeak _)
      (sort-IsNodup _ (distinct-IsNodup (sections_of fs))),
)

module _ {F : Type 0} (show : Value F → String) where
  length-parts :
      (total i : ℕ) (fs : List (Finding F)) → i ≤ 5 → i + length (parts show total i fs) ≤ 6
  unfolding parts
  length-parts total i [] h = omega arith
  length-parts total i (f ∷ fs) h = elim (Bool-cases (eqb i 5)) [
    | inl e ↦ rw e (omega arith)
    | inr e ↦
        let lower : suc i ≤ 5 = ground arith in
        rw e (omega (arith, length-parts total (suc i) fs lower))
  ]

  parts_eq :
      (total i k : ℕ) (fs gs : List (Finding F))
      → i + k ≡ 5
      → length fs ≡ length gs
      → take k fs ≡ take k gs
      → parts show total i fs ≡ parts show total i gs
  unfolding parts
  parts_eq total i k [] [] h l e = refl
  parts_eq total i k [] (g ∷ gs) h l e = cc
  parts_eq total i k (f ∷ fs) [] h l e = cc
  parts_eq total i zero (f ∷ fs) (g ∷ gs) h l e = ground arith
  parts_eq total i (suc k) (f ∷ fs) (g ∷ gs) h l e =
      let here : f ≡ g = cc in
      let rest : take k fs ≡ take k gs = cc in
      cc (here, parts_eq total (suc i) k fs gs (omega arith) (omega arith) rest)

  -- Summarize spells out at most five findings and one line for the rest, and findings that agree
  -- in number and in the first five have the same summary.
  pub summarize_capped :
      (fs gs : List (Finding F))
      → (length (parts show (length fs) 0 fs) ≤ 6)
        × (length fs ≡ length gs
            → take max_summarized fs ≡ take max_summarized gs
            → summarize show fs ≡ summarize show gs)
  unfolding summarize
  summarize_capped fs gs = (
    omega (arith, length-parts (length fs) 0 fs (omega arith)),
    λ l e.
        rw l (ap (λ ps. join_strings "; " ps) (parts_eq (length gs) 0 5 fs gs (omega arith) l e)),
  )
