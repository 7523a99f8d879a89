-- ===== src/Controller/Schedule/Laws/Settled.antt =====
-- internal/controller/schedule.go: the empty plan.
use mathlib.Core.Path.{subst}
use shelly_operator.Base.{
  ℕ, suc, Bool, true, false, some, List, [], ◌∷◌, not, ◌≡◌, refl, select, All, All-mem, Memᴰ,
  mem-select, mem-select_of, ap, ◌∙◌, arith, Bool-cases, Option-cases, inl, inr,
}
use shelly_operator.Api.Profile.{ScheduleJobSpec, ScheduleSection}
use shelly_operator.Shelly.Rpc.{ScheduleJob}
use shelly_operator.Drift.Diff.Loop.{append-eq-nil}
use shelly_operator.Controller.Firmware.{is_update_job}
use shelly_operator.Controller.Schedule.{
  Codec, enable_of, spec_is_update_job, job_spec_matches_device,
}
use shelly_operator.Controller.Schedule.Plan.{
  Owned, unmatched, update_action, delete_pass, claim, claim_owned, match_pass, create_pass, plan,
  schedule_actions, is_found,
}
use shelly_operator.Controller.Schedule.Laws.{claim-All, claim-found, OwnJob, unmatched-All}

module _ {F : Type 0} where
  right_enable :
      (spec : ScheduleJobSpec F) (dj : ScheduleJob F)
      → update_action spec (some dj) ≡ []
      → dj.enable ≡ enable_of spec
  unfolding update_action
  right_enable spec dj h = ground arith

  All-matched : (owned : Owned F) → delete_pass owned ≡ [] → All (λ o. o.1 ≡ true) owned
  unfolding delete_pass
  All-matched [] h = tt
  All-matched ((dj, true) ∷ owned) h = (refl, All-matched owned h)
  All-matched ((dj, false) ∷ owned) h = cc

module _ {F : Type 0} ⦃c : Codec F⦄ where
  -- The device's job has the declared job's content and enable value.
  abbrev pub Realizes : ScheduleJobSpec F → ScheduleJob F → Type 0
  Realizes spec dj =
      (spec_is_update_job spec ≡ false)
      × (job_spec_matches_device dj spec ≡ true)
      × (dj.enable ≡ enable_of spec)

  -- A declared job that is no firmware update stands among the device's own jobs.
  abbrev pub IsServed : List (ScheduleJob F) → ScheduleJobSpec F → Type 0
  IsServed jobs spec =
      spec_is_update_job spec ≡ false → (dj : ScheduleJob F) × OwnJob jobs dj × Realizes spec dj

  abbrev pub IsDeclared : List (ScheduleJobSpec F) → ScheduleJob F → Type 0
  IsDeclared specs dj = (spec : ScheduleJobSpec F) × Memᴰ spec specs × Realizes spec dj

module _ {F : Type 0} ⦃c : Codec F⦄ (specs0 : List (ScheduleJobSpec F))
    (jobs : List (ScheduleJob F)) where
  abbrev Settled : ScheduleJob F × Bool → Type 0
  Settled (dj, b) = OwnJob jobs dj × (b ≡ true → IsDeclared specs0 dj)

  claim_owned-Settled :
      (spec : ScheduleJobSpec F) (owned : Owned F)
      → Memᴰ spec specs0
      → update_action spec (claim_owned spec owned).0 ≡ []
      → All Settled owned
      → All Settled (claim_owned spec owned).1
  unfolding claim_owned
  claim_owned-Settled spec owned m e h = elim (Bool-cases (spec_is_update_job spec)) [
    | inl u ↦ rw u h
    | inr u ↦
        let nothing : update_action spec (claim spec owned).0 ≡ [] = rw u at e in
        rw u (
          claim-All Settled spec owned
            (λ dj k s q. (
              q.0,
              λ t. (
                spec,
                m,
                (u, s, right_enable spec dj (subst (λ y. update_action spec y ≡ []) k nothing)),
              ),
            ))
            h)
  ]

  served :
      (spec : ScheduleJobSpec F) (owned : Owned F) (m : Bool)
      → is_found (claim_owned spec owned).0 ≡ m
      → (m ≡ true)
      → update_action spec (claim_owned spec owned).0 ≡ []
      → All Settled owned
      → IsServed jobs spec
  unfolding claim_owned
  served spec owned m f t e h u = elim (Option-cases (claim spec owned).0) [
    | inl k ↦ cc
    | inr (dj, k) ↦
        let nothing : update_action spec (claim spec owned).0 ≡ [] = rw u at e in
        let (q, s) = claim-found Settled spec owned dj h k in
        (dj, q.0, (u, s, right_enable spec dj (subst (λ y. update_action spec y ≡ []) k nothing)))
  ]

  -- One declared job of the second pass.
  create-nil :
      (si : ℕ) (spec : ScheduleJobSpec F) (specs : List (ScheduleJobSpec F)) (m : Bool)
      (ms : List Bool)
      → create_pass si (spec ∷ specs) (m ∷ ms) ≡ []
      → (spec_is_update_job spec ≡ false → m ≡ true) × (create_pass (suc si) specs ms ≡ [])
  unfolding create_pass
  create-nil si spec specs true ms h = ((λ u. refl), h)
  create-nil si spec specs false ms h = elim (Bool-cases (spec_is_update_job spec)) [
    | inl e ↦ ((λ u. cc), rw e at h)
    | inr e ↦ cc
  ]

  match_pass-Settled :
      (si : ℕ) (specs : List (ScheduleJobSpec F)) (owned : Owned F)
      → ((s : ScheduleJobSpec F) → Memᴰ s specs → Memᴰ s specs0)
      → All Settled owned
      → (match_pass specs owned).1 ≡ []
      → create_pass si specs (match_pass specs owned).0 ≡ []
      → All (IsServed jobs) specs × All Settled (match_pass specs owned).2
  unfolding match_pass
  match_pass-Settled si [] owned sub h u k = (tt, h)
  match_pass-Settled si (spec ∷ specs) owned sub h u k =
      let (here, rest) = append-eq-nil (update_action spec (claim_owned spec owned).0) _ u in
      let (claimed, others) = create-nil si spec specs _ _ k in
      let (all, last) =
        match_pass-Settled (suc si) specs (claim_owned spec owned).1 (λ s m. sub s (Memᴰ.tail m))
          (claim_owned-Settled spec owned (sub spec (Memᴰ.head refl)) here h) rest others in
      (((λ e. served spec owned _ refl (claimed e) here h e), all), last)

module _ {F : Type 0} where
  abbrev firsts : Owned F → List (ScheduleJob F)
  firsts [] = []
  firsts ((dj, b) ∷ owned) = dj ∷ firsts owned

  firsts-unmatched : (js : List (ScheduleJob F)) → firsts (unmatched js) ≡ js
  firsts-unmatched [] = refl
  firsts-unmatched (j ∷ js) = ap (λ l. j ∷ l) (firsts-unmatched js)

module _ {F : Type 0} ⦃c : Codec F⦄ where
  firsts-claim :
      (spec : ScheduleJobSpec F) (owned : Owned F) → firsts (claim spec owned).1 ≡ firsts owned
  unfolding claim
  firsts-claim spec [] = refl
  firsts-claim spec ((dj, true) ∷ owned) = ap (λ l. dj ∷ l) (firsts-claim spec owned)
  firsts-claim spec ((dj, false) ∷ owned) = elim (Bool-cases (job_spec_matches_device dj spec)) [
    | inl e ↦ rw e refl
    | inr e ↦ rw e (ap (λ l. dj ∷ l) (firsts-claim spec owned))
  ]

  firsts-claim_owned :
      (spec : ScheduleJobSpec F) (owned : Owned F)
      → firsts (claim_owned spec owned).1 ≡ firsts owned
  unfolding claim_owned
  firsts-claim_owned spec owned = elim (Bool-cases (spec_is_update_job spec)) [
    | inl e ↦ rw e refl
    | inr e ↦ rw e (firsts-claim spec owned)
  ]

  firsts-match_pass :
      (specs : List (ScheduleJobSpec F)) (owned : Owned F)
      → firsts (match_pass specs owned).2 ≡ firsts owned
  unfolding match_pass
  firsts-match_pass [] owned = refl
  firsts-match_pass (spec ∷ specs) owned =
      firsts-match_pass specs (claim_owned spec owned).1 ∙ firsts-claim_owned spec owned

  declared :
      (specs0 : List (ScheduleJobSpec F)) (jobs : List (ScheduleJob F)) (owned : Owned F)
      → All (λ o. o.1 ≡ true) owned
      → All (Settled specs0 jobs) owned
      → All (IsDeclared specs0) (firsts owned)
  declared specs0 jobs [] h k = tt
  declared specs0 jobs ((dj, b) ∷ owned) h k = (k.0.1 h.0, declared specs0 jobs owned h.1 k.1)

  -- If schedule_actions plans nothing for a declared section, then each declared job that is no
  -- firmware update stands on the device, with its content and its enable value, as one of the jobs
  -- that no firmware update runs in; and each such job of the device is a declared one.
  pub schedule_actions-nil :
      (section : ScheduleSection F) (jobs : List (ScheduleJob F))
      → schedule_actions (some section) jobs ≡ []
      → All (IsServed jobs) section.jobs
        × ((dj : ScheduleJob F) → OwnJob jobs dj → IsDeclared section.jobs dj)
  unfolding schedule_actions plan
  schedule_actions-nil section jobs h =
      let specs = section.jobs in
      let own = select (λ j. not (is_update_job j)) jobs in
      let (matched, us, owned) = match_pass specs (unmatched own) in
      let (no_update, others) = append-eq-nil us _ h in
      let (no_create, no_delete) = append-eq-nil (create_pass 0 specs matched) _ others in
      let start : All (Settled specs jobs) (unmatched own) =
        unmatched-All (Settled specs jobs) own (λ dj m.
          let (there, k) = mem-select (λ j. not (is_update_job j)) jobs m in
          ((there, ground (arith, k)), λ t. cc)) in
      let (all, last) =
        match_pass-Settled specs jobs 0 specs (unmatched own) (λ s m. m) start no_update
          no_create in
      let same : firsts owned ≡ own =
        firsts-match_pass specs (unmatched own) ∙ firsts-unmatched own in
      (
        all,
        λ dj o.
            All-mem (IsDeclared specs)
              (subst (All (IsDeclared specs)) same
                (declared specs jobs owned (All-matched owned no_delete) last))
              (mem-select_of (λ j. not (is_update_job j)) jobs o.0 (ground (arith, o.1))),
      )
