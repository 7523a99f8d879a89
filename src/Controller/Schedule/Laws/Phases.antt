-- ===== src/Controller/Schedule/Laws/Phases.antt =====
-- The order of the planned actions.
use shelly_operator.Base.{
  ℕ, suc, Bool, true, false, Option, none, some, List, [], ◌∷◌, ◌++◌, not, ◌≡◌, refl, iff_b, select,
  All, All-append, ltb, Bool-cases, inl, inr,
}
use shelly_operator.Base.Sort.{IsSorted}
use shelly_operator.Api.Profile.{ScheduleJobSpec, ScheduleSection}
use shelly_operator.Shelly.Rpc.{ScheduleJob}
use shelly_operator.Controller.Firmware.{is_update_job}
use shelly_operator.Controller.Schedule.{Codec, enable_of, spec_is_update_job}
use shelly_operator.Controller.Schedule.Plan.{
  Kind, create, delete, update, ScheduleAction, Owned, unmatched, update_action, create_action,
  delete_action, delete_pass, claim_owned, match_pass, create_pass, plan, schedule_actions,
}

module _ {ℓ} {A : Type ℓ} (less : A → A → Bool) where
  IsSorted-append :
      (xs ys : List A)
      → IsSorted less xs
      → IsSorted less ys
      → All (λ x. All (λ y. less y x ≡ false) ys) xs
      → IsSorted less (xs ++ ys)
  IsSorted-append [] ys h k f = k
  IsSorted-append (x ∷ xs) ys h k f =
      (All-append (λ y. less y x ≡ false) xs ys h.0 f.0, IsSorted-append xs ys h.1 k f.1)

All-map {ℓ κ μ} :
    {A : Type ℓ} (P : A → Type κ) (Q : A → Type μ) (xs : List A)
    → ((a : A) → P a → Q a)
    → All P xs
    → All Q xs
All-map P Q [] f h = tt
All-map P Q (x ∷ xs) f h = (f x h.0, All-map P Q xs f h.1)

-- An update comes first, a deletion last.
abbrev pub kind_rank : Kind → ℕ
kind_rank update = 0
kind_rank create = 1
kind_rank delete = 2

abbrev pub earlier : {F : Type 0} → ScheduleAction F → ScheduleAction F → Bool
earlier a b = ltb (kind_rank a.kind) (kind_rank b.kind)

module _ {F : Type 0} where
  abbrev Of : Kind → ScheduleAction F → Type 0
  Of k a = a.kind ≡ k

  not_earlier :
      (k l : Kind)
      → ltb (kind_rank k) (kind_rank l) ≡ false
      → (a b : ScheduleAction F) → Of k a
      → Of l b
      → earlier a b ≡ false
  not_earlier k l e a b ha hb = rw (ha, hb) e

  same-IsSorted :
      (k : Kind)
      → ltb (kind_rank k) (kind_rank k) ≡ false
      → (xs : List (ScheduleAction F)) → All (Of k) xs
      → IsSorted earlier xs
  same-IsSorted k e [] h = tt
  same-IsSorted k e (x ∷ xs) h = (
    All-map (Of k) (λ y. earlier y x ≡ false) xs (λ y hy. not_earlier k k e y x hy h.0) h.1,
    same-IsSorted k e xs h.1,
  )

  after :
      (k l : Kind)
      → ltb (kind_rank l) (kind_rank k) ≡ false
      → (xs ys : List (ScheduleAction F)) → All (Of k) xs
      → All (Of l) ys
      → All (λ x. All (λ y. earlier y x ≡ false) ys) xs
  after k l e xs ys hx hy =
      All-map (Of k) (λ x. All (λ y. earlier y x ≡ false) ys) xs
        (λ x h. All-map (Of l) (λ y. earlier y x ≡ false) ys (λ y i. not_earlier l k e y x i h) hy)
        hx

  after_both :
      (xs ys zs : List (ScheduleAction F))
      → All (λ x. All (λ y. earlier y x ≡ false) ys) xs
      → All (λ x. All (λ y. earlier y x ≡ false) zs) xs
      → All (λ x. All (λ y. earlier y x ≡ false) (ys ++ zs)) xs
  after_both [] ys zs h k = tt
  after_both (x ∷ xs) ys zs h k =
      (All-append (λ y. earlier y x ≡ false) ys zs h.0 k.0, after_both xs ys zs h.1 k.1)

  deletes : (owned : Owned F) → All (Of delete) (delete_pass owned)
  unfolding delete_pass delete_action
  deletes [] = tt
  deletes ((dj, true) ∷ owned) = deletes owned
  deletes ((dj, false) ∷ owned) = (refl, deletes owned)

  updates-Of :
      (spec : ScheduleJobSpec F) (found : Option (ScheduleJob F))
      → All (Of update) (update_action spec found)
  unfolding update_action
  updates-Of spec none = tt
  updates-Of spec (some dj) = elim (Bool-cases (iff_b dj.enable (enable_of spec))) [
    | inl e ↦ rw e tt
    | inr e ↦ rw e (refl, tt)
  ]

module _ {F : Type 0} ⦃c : Codec F⦄ where
  updates :
      (specs : List (ScheduleJobSpec F)) (owned : Owned F)
      → All (Of update) (match_pass specs owned).1
  unfolding match_pass
  updates [] owned = tt
  updates (spec ∷ specs) owned =
      All-append (Of update) (update_action spec (claim_owned spec owned).0) _
        (updates-Of spec (claim_owned spec owned).0) (updates specs (claim_owned spec owned).1)

  creates :
      (si : ℕ) (specs : List (ScheduleJobSpec F)) (matched : List Bool)
      → All (Of create) (create_pass si specs matched)
  unfolding create_pass create_action
  creates si [] matched = tt
  creates si (spec ∷ specs) [] = tt
  creates si (spec ∷ specs) (true ∷ matched) = creates (suc si) specs matched
  creates si (spec ∷ specs) (false ∷ matched) = elim (Bool-cases (spec_is_update_job spec)) [
    | inl e ↦ rw e (creates (suc si) specs matched)
    | inr e ↦ rw e (refl, creates (suc si) specs matched)
  ]

  -- Whatever the section and the device's jobs, the planned actions are ordered by their kind: the
  -- updates, then the creations, then the deletions.
  pub schedule_actions-IsSorted :
      (section : Option (ScheduleSection F)) (jobs : List (ScheduleJob F))
      → IsSorted earlier (schedule_actions section jobs)
  unfolding schedule_actions plan
  schedule_actions-IsSorted none jobs = tt
  schedule_actions-IsSorted (some section) jobs =
      let specs = section.jobs in
      let owned = unmatched (select (λ j. not (is_update_job j)) jobs) in
      let (matched, us, owned') = match_pass specs owned in
      let hu = updates specs owned in
      let hc = creates 0 specs matched in
      let hd = deletes owned' in
      let uc = after update create refl us (create_pass 0 specs matched) hu hc in
      let ud = after update delete refl us (delete_pass owned') hu hd in
      let cd = after create delete refl (create_pass 0 specs matched) (delete_pass owned') hc hd in
      IsSorted-append earlier us _ (same-IsSorted update refl us hu)
        (IsSorted-append earlier (create_pass 0 specs matched) _ (same-IsSorted create refl _ hc)
          (same-IsSorted delete refl _ hd) cd)
        (after_both us _ _ uc ud)
