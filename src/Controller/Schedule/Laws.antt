-- ===== src/Controller/Schedule/Laws.antt =====
-- internal/controller/schedule.go: what the actions of scheduleActions may touch.
pub mod Phases
pub mod Settled
use mathlib.Core.Path.{subst}
use shelly_operator.Base.{
  ℤ, pos, negsuc, ℕ, suc, ◌+◌, zero, Bool, true, false, String, Option, none, some, List, [], ◌∷◌,
  ◌++◌, not, ◌≡◌, refl, sym, ap, ◌∙◌, iff_b, select, All, All-append, All-of_mem, All-mem,
  mem-select, Memᴰ, get_elem?, if◌then◌else◌, Bool-cases, Option-cases, inl, inr, arith, some_inj,
}
use shelly_operator.Api.Profile.{ScheduleJobSpec, ScheduleSection}
use shelly_operator.Shelly.Rpc.{ScheduleJob}
use shelly_operator.Drift.Diff.Loop.{append-eq-nil}
use shelly_operator.Controller.Firmware.{is_update_job}
use shelly_operator.Controller.Schedule.{
  Codec, enable_of, spec_is_update_job, job_spec_matches_device,
}
use shelly_operator.Controller.Schedule.Plan.{
  Kind, create, delete, update, ScheduleAction, Owned, unmatched, update_action, create_action,
  delete_action, delete_pass, claim, claim_owned, match_pass, create_pass, plan, schedule_actions,
  is_found,
}

iff_b-eq : (a b : Bool) → iff_b a b ≡ true → a ≡ b
iff_b-eq a b h = ground arith

module _ {F : Type 0} ⦃c : Codec F⦄ where
  claim-All :
      (Q : ScheduleJob F × Bool → Type 0) (spec : ScheduleJobSpec F) (owned : Owned F)
      → ((dj : ScheduleJob F)
          → (claim spec owned).0 ≡ some dj
          → job_spec_matches_device dj spec ≡ true
          → Q (dj, false)
          → Q (dj, true))
      → All Q owned
      → All Q (claim spec owned).1
  unfolding claim
  claim-All Q spec [] f h = tt
  claim-All Q spec ((dj, true) ∷ owned) f h = (h.0, claim-All Q spec owned f h.1)
  claim-All Q spec ((dj, false) ∷ owned) f h = elim (Bool-cases (job_spec_matches_device dj spec)) [
    | inl e ↦ rw e (f dj (rw e refl) e h.0, h.1)
    | inr e ↦ rw e (h.0, claim-All Q spec owned (λ j k. f j (rw e k)) h.1)
  ]

  claim-found :
      (Q : ScheduleJob F × Bool → Type 0) (spec : ScheduleJobSpec F) (owned : Owned F)
      (dj : ScheduleJob F)
      → All Q owned
      → (claim spec owned).0 ≡ some dj
      → Q (dj, false) × (job_spec_matches_device dj spec ≡ true)
  unfolding claim
  claim-found Q spec [] dj h e = cc
  claim-found Q spec ((j, true) ∷ owned) dj h e = claim-found Q spec owned dj h.1 e
  claim-found Q spec ((j, false) ∷ owned) dj h e =
      elim (Bool-cases (job_spec_matches_device j spec)) [
        | inl m ↦
            let same : j ≡ dj = some_inj (rw m at e) in
            subst (λ y. Q (y, false) × (job_spec_matches_device y spec ≡ true)) same (h.0, m)
        | inr m ↦ claim-found Q spec owned dj h.1 (rw m at e)
      ]

  -- A job of the device that no firmware update runs in.
  abbrev pub OwnJob : List (ScheduleJob F) → ScheduleJob F → Type 0
  OwnJob jobs dj = Memᴰ dj jobs × (is_update_job dj ≡ false)

  -- What an action of each kind is entitled to.
  abbrev pub Licence :
      Kind → List (ScheduleJobSpec F) → List (ScheduleJob F) → ScheduleAction F → Type 0
  Licence create specs jobs a =
      (si : ℕ) × (spec : ScheduleJobSpec F) × (a.job.id ≡ negsuc si)
      × (get_elem? specs si ≡ some spec)
      × (spec_is_update_job spec ≡ false)
      × (a.job.enable ≡ enable_of spec)
      × (a.job.timespec ≡ spec.timespec)
  Licence delete specs jobs a = OwnJob jobs a.job × (a.id ≡ a.job.id)
  Licence update specs jobs a =
      (dj : ScheduleJob F) × (spec : ScheduleJobSpec F) × OwnJob jobs dj
      × Memᴰ spec specs
      × (job_spec_matches_device dj spec ≡ true)
      × (a.id ≡ dj.id)
      × (a.job ≡ record dj { enable = enable_of spec })
      × (iff_b dj.enable (enable_of spec) ≡ false)

  abbrev pub IsLicensed :
      List (ScheduleJobSpec F) → List (ScheduleJob F) → ScheduleAction F → Type 0
  IsLicensed specs jobs a = Licence a.kind specs jobs a

  unmatched-All :
      (Q : ScheduleJob F × Bool → Type 0) (js : List (ScheduleJob F))
      → ((dj : ScheduleJob F) → Memᴰ dj js → Q (dj, false))
      → All Q (unmatched js)
  unmatched-All Q [] f = tt
  unmatched-All Q (j ∷ js) f =
      (f j (Memᴰ.head refl), unmatched-All Q js (λ dj m. f dj (Memᴰ.tail m)))

module _ {F : Type 0} ⦃c : Codec F⦄ (specs0 : List (ScheduleJobSpec F))
    (jobs : List (ScheduleJob F)) where
  abbrev Own : ScheduleJob F × Bool → Type 0
  Own o = OwnJob jobs o.0

  claim_owned-Own :
      (spec : ScheduleJobSpec F) (owned : Owned F)
      → All Own owned
      → All Own (claim_owned spec owned).1
  unfolding claim_owned
  claim_owned-Own spec owned h = elim (Bool-cases (spec_is_update_job spec)) [
    | inl e ↦ rw e h
    | inr e ↦ rw e (claim-All Own spec owned (λ dj k m q. q) h)
  ]

  update_action-IsLicensed :
      (spec : ScheduleJobSpec F) (dj : ScheduleJob F)
      → Memᴰ spec specs0
      → OwnJob jobs dj
      → job_spec_matches_device dj spec ≡ true
      → All (IsLicensed specs0 jobs) (update_action spec (some dj))
  unfolding update_action
  update_action-IsLicensed spec dj m o e = elim (Bool-cases (iff_b dj.enable (enable_of spec))) [
    | inl k ↦ rw k tt
    | inr k ↦ rw k ((dj, spec, o, m, e, refl, refl, k), tt)
  ]

  found-IsLicensed :
      (spec : ScheduleJobSpec F) (owned : Owned F)
      → Memᴰ spec specs0
      → All Own owned
      → All (IsLicensed specs0 jobs) (update_action spec (claim spec owned).0)
  unfolding update_action
  found-IsLicensed spec owned m h = elim (Option-cases (claim spec owned).0) [
    | inl e ↦ rw e tt
    | inr (dj, e) ↦
        let (own, same) = claim-found Own spec owned dj h e in
        rw e (update_action-IsLicensed spec dj m own same)
  ]

  updates-IsLicensed :
      (spec : ScheduleJobSpec F) (owned : Owned F)
      → Memᴰ spec specs0
      → All Own owned
      → All (IsLicensed specs0 jobs) (update_action spec (claim_owned spec owned).0)
  unfolding claim_owned update_action
  updates-IsLicensed spec owned m h = elim (Bool-cases (spec_is_update_job spec)) [
    | inl e ↦ rw e tt
    | inr e ↦ rw e (found-IsLicensed spec owned m h)
  ]

  match_pass-IsLicensed :
      (specs : List (ScheduleJobSpec F)) (owned : Owned F)
      → ((s : ScheduleJobSpec F) → Memᴰ s specs → Memᴰ s specs0)
      → All Own owned
      → All (IsLicensed specs0 jobs) (match_pass specs owned).1 × All Own (match_pass specs owned).2
  unfolding match_pass
  match_pass-IsLicensed [] owned sub h = (tt, h)
  match_pass-IsLicensed (spec ∷ specs) owned sub h =
      let (rest, owned') =
        match_pass-IsLicensed specs (claim_owned spec owned).1 (λ s m. sub s (Memᴰ.tail m))
          (claim_owned-Own spec owned h) in
      (
        All-append (IsLicensed specs0 jobs) (update_action spec (claim_owned spec owned).0) _
            (updates-IsLicensed spec owned (sub spec (Memᴰ.head refl)) h) rest,
        owned',
      )

  delete_pass-IsLicensed :
      (owned : Owned F) → All Own owned → All (IsLicensed specs0 jobs) (delete_pass owned)
  unfolding delete_pass delete_action
  delete_pass-IsLicensed [] h = tt
  delete_pass-IsLicensed ((dj, true) ∷ owned) h = delete_pass-IsLicensed owned h.1
  delete_pass-IsLicensed ((dj, false) ∷ owned) h = ((h.0, refl), delete_pass-IsLicensed owned h.1)

  create_pass-IsLicensed :
      (si : ℕ) (specs : List (ScheduleJobSpec F)) (matched : List Bool)
      → ((n : ℕ) (s : ScheduleJobSpec F)
          → get_elem? specs n ≡ some s
          → get_elem? specs0 (si + n) ≡ some s)
      → All (IsLicensed specs0 jobs) (create_pass si specs matched)
  unfolding create_pass create_action
  create_pass-IsLicensed si [] matched at_si = tt
  create_pass-IsLicensed si (spec ∷ specs) [] at_si = tt
  create_pass-IsLicensed si (spec ∷ specs) (m ∷ matched) at_si =
      let rest =
        create_pass-IsLicensed (suc si) specs matched
          (λ n s e. subst (λ i. get_elem? specs0 i ≡ some s) (omega arith) (at_si (suc n) s e)) in
      let here : get_elem? specs0 si ≡ some spec =
        subst (λ i. get_elem? specs0 i ≡ some spec) (omega arith) (at_si 0 spec refl) in
      elim (Bool-cases m) [
        | inl e ↦ rw e rest
        | inr e ↦ elim (Bool-cases (spec_is_update_job spec)) [
          | inl k ↦ rw (e, k) rest
          | inr k ↦ rw (e, k) ((si, spec, refl, here, k, refl, refl), rest)
        ]
      ]

module _ {F : Type 0} ⦃c : Codec F⦄ where
  own_jobs-Own :
      (jobs : List (ScheduleJob F)) (dj : ScheduleJob F)
      → Memᴰ dj (select (λ j. not (is_update_job j)) jobs)
      → OwnJob jobs dj
  own_jobs-Own jobs dj m =
      let (there, own) = mem-select (λ j. not (is_update_job j)) jobs m in
      (there, ground (arith, own))

  -- Every action that schedule_actions plans, for any declared jobs and any jobs of the device, is
  -- licensed. A deleted job is a job of the device that no firmware update runs in, under its own
  -- id. An updated job is such a job, of the content of a declared job, with only its enable value
  -- changed, to the declared one, from which it differs. A created job carries the index of a
  -- declared job that is no firmware update, and that job's enable value and timespec.
  pub schedule_actions-IsLicensed :
      (section : ScheduleSection F) (jobs : List (ScheduleJob F))
      → All (IsLicensed section.jobs jobs) (schedule_actions (some section) jobs)
  unfolding schedule_actions plan
  schedule_actions-IsLicensed section jobs =
      let specs = section.jobs in
      let owned = unmatched (select (λ j. not (is_update_job j)) jobs) in
      let (updates, owned') =
        match_pass-IsLicensed specs jobs specs owned (λ s m. m)
          (unmatched-All (Own specs jobs) _ (own_jobs-Own jobs)) in
      All-append (IsLicensed specs jobs) (match_pass specs owned).1 _ updates (
        All-append (IsLicensed specs jobs) (create_pass 0 specs (match_pass specs owned).0) _
          (create_pass-IsLicensed specs jobs 0 specs (match_pass specs owned).0
            (λ n s e. subst (λ i. get_elem? specs i ≡ some s) (omega arith) e))
          (delete_pass-IsLicensed specs jobs _ owned'))
