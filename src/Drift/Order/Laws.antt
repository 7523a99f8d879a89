-- ===== src/Drift/Order/Laws.antt =====
-- internal/drift/order.go: the list that ApplyOrder returns.
use mathlib.Core.List.{Permᴰ}
use shelly_operator.Base.{
  ◌≤◌, String, List, [], ◌∷◌, ◌++◌, ◌≡◌, refl, has_prefix, ends_with, ◌⊎◌, inl, inr, false, arith,
  eq_iff, All, str_ltb_asymm, str_ltb_cotrans, All-of_mem, All-mem,
}
use mathlib.Core.Path.{subst}
use shelly_operator.Base.Sort.{IsSorted}
use shelly_operator.Base.Sort.Laws.{StrictWeak, sort-permᴰ, sort-IsSorted}
use shelly_operator.Drift.Order.{rank, section_less, apply_order}

section_less-StrictWeak : StrictWeak section_less
unfolding section_less
section_less-StrictWeak = record {
  asymm = λ a b h. ground (arith, str_ltb_asymm a b);
  cotrans = λ a b c h k. ground (arith, str_ltb_cotrans a b c);
}

rank_of_not_less : (a b : String) → section_less b a ≡ false → rank a ≤ rank b
unfolding section_less
rank_of_not_less a b h = ground arith

rank-wifi : rank "wifi" ≡ 200
unfolding rank has_prefix ends_with
rank-wifi = refl

rank-auth : rank "auth" ≡ 100
unfolding rank has_prefix ends_with
rank-auth = refl

rank_late : (s : String) → 100 ≤ rank s → ((s ≡ "auth") × (rank s ≡ 100)) ⊎ (s ≡ "wifi")
unfolding rank
rank_late s h = ground (arith, eq_iff s "auth", eq_iff s "wifi")

-- What stands after an element of a sorted list is not below it.
after_sorted :
    (s : String) (ys zs : List String)
    → IsSorted section_less (ys ++ s ∷ zs)
    → All (λ z. section_less z s ≡ false) zs
after_sorted s [] zs h = h.0
after_sorted s (y ∷ ys) zs h = after_sorted s ys zs h.1

after_ordered :
    (sections ys zs : List String) (s : String)
    → apply_order sections ≡ ys ++ s ∷ zs
    → All (λ z. rank s ≤ rank z) zs
unfolding apply_order
after_ordered sections ys zs s e = All-of_mem _ zs λ z m. rank_of_not_less s z (
    All-mem _
      (after_sorted s ys zs (
        subst (λ l. IsSorted section_less l) e
          (sort-IsSorted section_less section_less-StrictWeak sections)))
      m)

-- ApplyOrder returns the sections that it was given, each as often.
pub apply_order-Perm : (sections : List String) → Permᴰ (apply_order sections) sections
unfolding apply_order
apply_order-Perm sections = sort-permᴰ section_less sections

-- In the order that ApplyOrder returns, the sections after any section have no lower rank, those
-- after "wifi" are all "wifi", and those after "auth" are all "auth" or "wifi".
pub apply_order-wifi_last :
    (sections ys zs : List String)
    → ((s : String) → apply_order sections ≡ ys ++ s ∷ zs → All (λ z. rank s ≤ rank z) zs)
      × (apply_order sections ≡ ys ++ "wifi" ∷ zs → All (λ z. z ≡ "wifi") zs)
      × (apply_order sections ≡ ys ++ "auth" ∷ zs → All (λ z. (z ≡ "auth") ⊎ (z ≡ "wifi")) zs)
apply_order-wifi_last sections ys zs = (
  λ s. after_ordered sections ys zs s,
  λ e. All-of_mem _ zs λ z m. wifi_only z (All-mem _ (after_ordered sections ys zs "wifi" e) m),
  λ e. All-of_mem _ zs λ z m. late_only z (All-mem _ (after_ordered sections ys zs "auth" e) m),
)
  where
    wifi_only : (z : String) → rank "wifi" ≤ rank z → z ≡ "wifi"
    wifi_only z h = elim (rank_late z (omega (arith, rank-wifi))) [
      | inl (e, r) ↦ absurd (omega (arith, rank-wifi))
      | inr e ↦ e
    ]

    late_only : (z : String) → rank "auth" ≤ rank z → (z ≡ "auth") ⊎ (z ≡ "wifi")
    late_only z h = elim (rank_late z (omega (arith, rank-auth))) [
      | inl (e, r) ↦ inl e
      | inr e ↦ inr e
    ]
