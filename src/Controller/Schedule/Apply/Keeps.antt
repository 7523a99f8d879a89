-- ===== src/Controller/Schedule/Apply/Keeps.antt =====
-- internal/controller/schedule.go: applySchedule and the jobs that run a firmware update.
use mathlib.Core.Path.{subst}
use shelly_operator.Base.{
  ℤ, Bool, true, false, String, Option, none, some, List, [], ◌∷◌, ◌≡◌, refl, sym, ap, ◌∙◌, ◌==◌,
  eq_iff, any, select-append, All, arith, Bool-cases, inl, inr, Result, ok, err,
}
use mathlib.Core.List.{append-nil}
use shelly_operator.Json.{Fields}
use shelly_operator.Api.Profile.{ScheduleCallSpec, ScheduleJobSpec, ScheduleSection}
use shelly_operator.Shelly.Errors.{CallError}
use shelly_operator.Shelly.Rpc.{ScheduleCall, ScheduleJob, continue}
use shelly_operator.Shelly.Schedules.{delete_schedule, update_schedule}
use shelly_operator.Shellytest.Schedules.{ScheduleDevice, has_id, fake_rpc}
use shelly_operator.Shellytest.Schedules.Laws.{Fresh, HasUniqueIds}
use shelly_operator.Controller.Firmware.{is_update_call, is_update_job, shelly_update_method}
use shelly_operator.Controller.Schedule.{Codec, enable_of, spec_is_update_job}
use shelly_operator.Controller.Schedule.Plan.{
  Kind, create, delete, update, ScheduleAction, schedule_actions,
}
use shelly_operator.Controller.Schedule.Laws.{IsLicensed, Licence, schedule_actions-IsLicensed}
use shelly_operator.Controller.Schedule.Apply.{
  call_params, add_call, spec_calls, declared_job, create_with, create_declared, perform_kind,
  apply_actions, apply_schedule,
}
use shelly_operator.Controller.Schedule.Apply.UpdateJobs.{
  update_jobs, select-remove_first, select-replace_first, own-Fresh,
}

calls_inj :
    {F : Type 0} {a b : List (ScheduleCall F)}
    → ◌≡◌ {A = Result CallError (List (ScheduleCall F))} (ok a) (ok b)
    → a ≡ b
calls_inj h = cc

-- A method name matches itself whatever the case.
abbrev pub FoldReflexive : {F : Type 0} → Codec F → Type 0
FoldReflexive c = (s : String) → c.equal_fold s s ≡ true

module _ {F : Type 0} ⦃c : Codec F⦄ (folds : FoldReflexive c) where
  no_update_call :
      (k : ScheduleCallSpec F)
      → c.equal_fold k.method shelly_update_method ≡ false
      → (k.method == shelly_update_method) ≡ false
  no_update_call k h = elim (Bool-cases (k.method == shelly_update_method)) [
    | inl e ↦
        let same : k.method ≡ shelly_update_method = (eq_iff k.method shelly_update_method).0 e in
        cc (folds shelly_update_method, ap (λ m. c.equal_fold m shelly_update_method) same, h)
    | inr e ↦ e
  ]

  add_call-lem :
      (method : String) (o : Result String (Fields F))
      (r : Result CallError (List (ScheduleCall F))) (calls : List (ScheduleCall F))
      → (method == shelly_update_method) ≡ false
      → ((cs : List (ScheduleCall F)) → r ≡ ok cs → any is_update_call cs ≡ false)
      → add_call method o r ≡ ok calls
      → any is_update_call calls ≡ false
  unfolding add_call is_update_call
  add_call-lem method (err t) r calls m f e = cc
  add_call-lem method (ok p) (err x) calls m f e = cc
  add_call-lem method (ok p) (ok cs) calls m f e =
      subst (λ l. any is_update_call l ≡ false) (calls_inj e) (rw m (f cs refl))

  spec_calls-lem :
      (ks : List (ScheduleCallSpec F)) (calls : List (ScheduleCall F))
      → any (λ (k : ScheduleCallSpec F). c.equal_fold k.method shelly_update_method) ks ≡ false
      → spec_calls ks ≡ ok calls
      → any is_update_call calls ≡ false
  unfolding spec_calls
  spec_calls-lem [] calls h e = subst (λ l. any is_update_call l ≡ false) (calls_inj e) refl
  spec_calls-lem (k ∷ ks) calls h e =
      add_call-lem k.method (call_params k.params) (spec_calls ks) calls
        (no_update_call k (ground arith)) (λ cs q. spec_calls-lem ks cs (ground arith) q) e

module _ {F : Type 0} ⦃c : Codec F⦄ where
  create_with-keeps :
      (spec : ScheduleJobSpec F) (r : Result CallError (List (ScheduleCall F)))
      (d : ScheduleDevice F)
      → ((cs : List (ScheduleCall F)) → r ≡ ok cs → any is_update_call cs ≡ false)
      → update_jobs (create_with fake_rpc spec r d).1.schedules ≡ update_jobs d.schedules
  unfolding create_with fake_rpc is_update_job
  create_with-keeps spec (err e) d f = refl
  create_with-keeps spec (ok []) d f = refl
  create_with-keeps spec (ok (x ∷ xs)) d f =
      select-append is_update_job d.schedules _
      ∙ rw (f (x ∷ xs) refl) (append-nil (update_jobs d.schedules))

  update-keeps :
      (id : ℤ) (enable : Bool) (timespec : String) (cs : List (ScheduleCall F))
      (d : ScheduleDevice F)
      → any is_update_call cs ≡ false
      → Fresh id (update_jobs d.schedules)
      → update_jobs
          (update_schedule fake_rpc
            (record { id = id; enable = enable; timespec = timespec; calls = cs })
            d).1.schedules
        ≡ update_jobs d.schedules
  unfolding update_schedule fake_rpc is_update_job
  update-keeps id enable timespec [] d n f = refl
  update-keeps id enable timespec (x ∷ xs) d n f = elim (Bool-cases (any (has_id id) d.schedules)) [
    | inl e ↦ rw e (
        select-replace_first
          (record { id = id; enable = enable; timespec = timespec; calls = x ∷ xs }) d.schedules n
          f)
    | inr e ↦ rw e refl
  ]

  delete-keeps :
      (id : ℤ) (d : ScheduleDevice F)
      → Fresh id (update_jobs d.schedules)
      → update_jobs (delete_schedule fake_rpc id d).1.schedules ≡ update_jobs d.schedules
  unfolding delete_schedule fake_rpc
  delete-keeps id d f = elim (Bool-cases (any (has_id id) d.schedules)) [
    | inl e ↦ rw e (select-remove_first id d.schedules f)
    | inr e ↦ rw e refl
  ]

module _ {F : Type 0} ⦃c : Codec F⦄ (folds : FoldReflexive c) where
  no_update_spec :
      (spec : ScheduleJobSpec F)
      → spec_is_update_job spec ≡ false
      → any (λ (k : ScheduleCallSpec F). c.equal_fold k.method shelly_update_method) spec.calls
        ≡ false
  unfolding spec_is_update_job
  no_update_spec spec h = h

  perform-keeps :
      (k : Kind) (specs : List (ScheduleJobSpec F)) (jobs : List (ScheduleJob F))
      (a : ScheduleAction F) (d : ScheduleDevice F)
      → HasUniqueIds jobs
      → update_jobs d.schedules ≡ update_jobs jobs
      → Licence k specs jobs a
      → update_jobs (perform_kind fake_rpc k specs a d).1.schedules ≡ update_jobs d.schedules
  unfolding perform_kind create_declared declared_job is_update_job
  perform-keeps create specs jobs a d u e (si, spec, i, g, n, en, ts) = rw i (
      rw g (
        create_with-keeps spec (spec_calls spec.calls) d
          (λ cs q. spec_calls-lem folds spec.calls cs (no_update_spec spec n) q)))
  perform-keeps update specs jobs a d u e (dj, spec, o, m, s, i, j, w) = rw j (
      update-keeps dj.id (enable_of spec) dj.timespec dj.calls d o.1
        (subst (λ l. Fresh dj.id l) (sym e) (own-Fresh jobs dj u o)))
  perform-keeps delete specs jobs a d u e (o, i) =
      rw i
        (delete-keeps a.job.id d (subst (λ l. Fresh a.job.id l) (sym e) (own-Fresh jobs a.job u o)))

  continue-keeps :
      (specs : List (ScheduleJobSpec F)) (actions : List (ScheduleAction F))
      (r : Result CallError (Unit {0})) (d : ScheduleDevice F) (ups : List (ScheduleJob F))
      → update_jobs d.schedules ≡ ups
      → update_jobs (apply_actions fake_rpc specs actions d).1.schedules ≡ ups
      → update_jobs (continue r (λ _. apply_actions fake_rpc specs actions) d).1.schedules ≡ ups
  continue-keeps specs actions (ok x) d ups h k = k
  continue-keeps specs actions (err x) d ups h k = h

  actions-keeps :
      (specs : List (ScheduleJobSpec F)) (jobs : List (ScheduleJob F))
      (actions : List (ScheduleAction F)) (d : ScheduleDevice F)
      → HasUniqueIds jobs
      → update_jobs d.schedules ≡ update_jobs jobs
      → All (IsLicensed specs jobs) actions
      → update_jobs (apply_actions fake_rpc specs actions d).1.schedules ≡ update_jobs jobs
  unfolding apply_actions
  actions-keeps specs jobs [] d u e l = e
  actions-keeps specs jobs (a ∷ actions) d u e l =
      let (r, d') = perform_kind fake_rpc a.kind specs a d in
      let kept : update_jobs d'.schedules ≡ update_jobs jobs =
        perform-keeps a.kind specs jobs a d u e l.0 ∙ e in
      continue-keeps specs actions r d' (update_jobs jobs) kept
        (actions-keeps specs jobs actions d' u kept l.1)

  -- Where the ids of the fake device's jobs are unique and case folding matches a name with itself,
  -- applySchedule, whether it succeeds or fails on the way, leaves the jobs of the device that run a
  -- firmware update exactly as they were, in their order.
  pub apply_schedule-update_jobs :
      (section : Option (ScheduleSection F)) (d : ScheduleDevice F)
      → HasUniqueIds d.schedules
      → update_jobs (apply_schedule fake_rpc section d).1.schedules ≡ update_jobs d.schedules
  unfolding apply_schedule fake_rpc
  apply_schedule-update_jobs none d u = refl
  apply_schedule-update_jobs (some section) d u =
      actions-keeps section.jobs d.schedules (schedule_actions (some section) d.schedules) d u refl
        (schedule_actions-IsLicensed section d.schedules)
