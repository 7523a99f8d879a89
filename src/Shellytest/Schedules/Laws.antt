-- ===== src/Shellytest/Schedules/Laws.antt =====
-- The fake device's job list, where its ids are unique.
use shelly_operator.Base.{
  ℤ, eqz_comm, true, false, List, [], ◌∷◌, ◌++◌, ◌≡◌, All, any, ap, Bool-cases, inl, inr,
}
use shelly_operator.Shelly.Rpc.{ScheduleJob}
use shelly_operator.Shellytest.Schedules.{has_id, remove_first}

module _ {F : Type 0} where
  -- No job has the id.
  abbrev pub Fresh : ℤ → List (ScheduleJob F) → Type 0
  Fresh id js = All (λ j. has_id id j ≡ false) js

  abbrev pub HasUniqueIds : List (ScheduleJob F) → Type 0
  HasUniqueIds [] = Unit
  HasUniqueIds (j ∷ js) = Fresh j.id js × HasUniqueIds js

  pub remove_first-append :
      (id : ℤ) (kept : List (ScheduleJob F)) (j : ScheduleJob F) (rest : List (ScheduleJob F))
      → Fresh id kept
      → has_id id j ≡ true
      → remove_first id (kept ++ j ∷ rest) ≡ kept ++ rest
  unfolding remove_first
  remove_first-append id [] j rest f h = rw h
  remove_first-append id (k ∷ kept) j rest f h =
      rw f.0 (ap (λ l. k ∷ l) (remove_first-append id kept j rest f.1 h))

  pub any-append :
      (id : ℤ) (kept : List (ScheduleJob F)) (j : ScheduleJob F) (rest : List (ScheduleJob F))
      → has_id id j ≡ true
      → any (has_id id) (kept ++ j ∷ rest) ≡ true
  any-append id [] j rest h = rw h
  any-append id (k ∷ kept) j rest h = elim (Bool-cases (has_id id k)) [
    | inl e ↦ rw e
    | inr e ↦ rw e (any-append id kept j rest h)
  ]

  pub Fresh-append :
      (id : ℤ) (xs ys : List (ScheduleJob F)) → Fresh id xs → Fresh id ys → Fresh id (xs ++ ys)
  Fresh-append id [] ys f g = g
  Fresh-append id (x ∷ xs) ys f g = (f.0, Fresh-append id xs ys f.1 g)

  -- The job `j` moves behind the kept ones, of which no later job has the id.
  pub Fresh-move :
      (j : ScheduleJob F) (kept rest : List (ScheduleJob F))
      → Fresh j.id rest
      → All (λ i. Fresh i.id kept) rest
      → All (λ i. Fresh i.id (kept ++ j ∷ [])) rest
  Fresh-move j kept [] f a = tt
  Fresh-move j kept (i ∷ rest) f a = (
    Fresh-append i.id kept (j ∷ []) a.0 (rw (eqz_comm j.id i.id) f.0, tt),
    Fresh-move j kept rest f.1 a.1,
  )

  pub Fresh-nil : (js : List (ScheduleJob F)) → All (λ i. Fresh i.id []) js
  Fresh-nil [] = tt
  Fresh-nil (j ∷ js) = (tt, Fresh-nil js)
