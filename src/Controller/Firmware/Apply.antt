-- ===== src/Controller/Firmware/Apply.antt =====
-- internal/controller/firmware.go: applyFirmware against the fake device.
use mathlib.Core.List.{append_assoc, append-nil}
use shelly_operator.Base.{
  ℤ, pos, suc, eqz_refl, Bool, true, false, List, [], ◌∷◌, ◌++◌, ◌≡◌, refl, ap, ◌∙◌, sym, All,
  arith, not, ◌&&◌, ◌||◌, if◌then◌else◌, Bool-cases, inl, inr, select, any, ok,
}
use shelly_operator.Base.Assoc
use shelly_operator.Json.{get}
use shelly_operator.Shelly.Rpc.{ScheduleJob, ◌>>◌}
use shelly_operator.Controller.Firmware.{
  has_non_stable_update_call, is_update_job, is_compliant, firmware_offenders, auto_update_job,
  firmware_findings, apply_firmware, delete_jobs, ensure_job,
}
use shelly_operator.Controller.Firmware.Agree.{missing, firmware_findings-agree}
use shelly_operator.Shellytest.Schedules.{ScheduleDevice, fake_rpc, has_id, remove_first}
use shelly_operator.Shellytest.Schedules.Laws.{
  Fresh, HasUniqueIds, remove_first-append, any-append, Fresh-move, Fresh-nil,
}

settled : (want c : Bool) → (want && not (c || (want && not c))) ≡ false
settled true true = refl
settled true false = refl
settled false c = refl

module _ {F : Type 0} where
  -- The jobs that enforcement leaves alone: those of others, and the compliant ones.
  abbrev pub kept_job : Bool → ScheduleJob F → Bool
  kept_job want j = not (is_update_job j) || is_compliant want j

  offenders-kept :
      (want : Bool) (j : ScheduleJob F) (js : List (ScheduleJob F))
      → kept_job want j ≡ true
      → (firmware_offenders want (j ∷ js)).0 ≡ (firmware_offenders want js).0
  unfolding firmware_offenders
  offenders-kept want j js h = ground arith

  offenders-dropped :
      (want : Bool) (j : ScheduleJob F) (js : List (ScheduleJob F))
      → kept_job want j ≡ false
      → (firmware_offenders want (j ∷ js)).0 ≡ j.id ∷ (firmware_offenders want js).0
  unfolding firmware_offenders
  offenders-dropped want j js h = ground arith

  -- The device without its first job of the id.
  abbrev without : ℤ → ScheduleDevice F → ScheduleDevice F
  without id d = record d {
    schedules = remove_first id d.schedules;
    schedule_rev = suc d.schedule_rev;
  }

  delete_step :
      (id : ℤ) (ids : List ℤ) (d : ScheduleDevice F)
      → any (has_id id) d.schedules ≡ true
      → delete_jobs fake_rpc (id ∷ ids) d ≡ delete_jobs fake_rpc ids (without id d)
  unfolding delete_jobs fake_rpc
  delete_step id ids d h = rw h

  -- Deleting the offenders leaves the kept jobs, in their order.
  abbrev Deleted : List ℤ → ScheduleDevice F → List (ScheduleJob F) → Type 0
  Deleted ids d left =
      (d' : ScheduleDevice F) × (delete_jobs fake_rpc ids d ≡ (ok tt, d'))
      × (d'.schedules ≡ left)
      × (d'.next_sched_id ≡ d.next_sched_id)

  delete_offenders :
      (want : Bool) (jobs kept : List (ScheduleJob F)) (d : ScheduleDevice F)
      → d.schedules ≡ kept ++ jobs
      → HasUniqueIds jobs
      → All (λ i. Fresh i.id kept) jobs
      → Deleted (firmware_offenders want jobs).0 d (kept ++ select (kept_job want) jobs)
  unfolding delete_jobs firmware_offenders
  delete_offenders want [] kept d e u f = (d, refl, e, refl)
  delete_offenders want (j ∷ js) kept d e u f = elim (Bool-cases (kept_job want j)) [
    | inl k ↦ rw (offenders-kept want j js k) (
        rw k (
          rw (append_assoc kept (j ∷ []) (select (kept_job want) js)) at (
            delete_offenders want js (kept ++ j ∷ []) d (e ∙ sym (append_assoc kept (j ∷ []) js))
              u.1 (Fresh-move j kept js u.0 f.1))))
    | inr k ↦
        let here : any (has_id j.id) d.schedules ≡ true =
          rw e (any-append j.id kept j js (eqz_refl j.id)) in
        let gone : (without j.id d).schedules ≡ kept ++ js =
          ap (remove_first j.id) e ∙ remove_first-append j.id kept j js f.0 (eqz_refl j.id) in
        let (d', run, left, next) = delete_offenders want js kept (without j.id d) gone u.1 f.1 in
        (d', rw (offenders-dropped want j js k) (delete_step j.id _ d here ∙ run), rw k left, next)
  ]

  -- The standard job, with the id that the device assigns.
  abbrev pub created : Bool → ScheduleDevice F → List (ScheduleJob F)
  created want d =
      if missing want d.schedules
      then record auto_update_job { id = pos d.next_sched_id } ∷ []
      else []

  offenders-select :
      (want : Bool) (jobs : List (ScheduleJob F))
      → firmware_offenders want (select (kept_job want) jobs)
        ≡ ([], (firmware_offenders want jobs).1)
  unfolding firmware_offenders
  offenders-select want [] = refl
  offenders-select want (j ∷ jobs) = ground (arith, offenders-select want jobs)

  offenders-append :
      (want : Bool) (xs ys : List (ScheduleJob F))
      → firmware_offenders want (xs ++ ys) ≡ (
        (firmware_offenders want xs).0 ++ (firmware_offenders want ys).0,
        (firmware_offenders want xs).1 || (firmware_offenders want ys).1,
      )
  unfolding firmware_offenders
  offenders-append want [] ys = refl
  offenders-append want (x ∷ xs) ys = ground (arith, offenders-append want xs ys)

  offenders-created :
      (d : ScheduleDevice F)
      → firmware_offenders true (record (auto_update_job {F = F}) { id = pos d.next_sched_id } ∷ [])
        ≡ ([], true)
  unfolding firmware_offenders auto_update_job is_update_job has_non_stable_update_call get
      Assoc.get
  offenders-created d = refl

  ensure_step :
      (b : Bool) (d : ScheduleDevice F)
      → (d' : ScheduleDevice F) × (ensure_job fake_rpc b d ≡ (ok tt, d'))
        × (d'.schedules
            ≡ d.schedules
              ++ (if b then record auto_update_job { id = pos d.next_sched_id } ∷ [] else []))
  unfolding ensure_job fake_rpc
  ensure_step true d = (_, refl, refl)
  ensure_step false d = (d, refl, sym (append-nil d.schedules))

  offenders_of_created :
      (want : Bool) (d : ScheduleDevice F)
      → firmware_offenders want (created want d) ≡ ([], missing want d.schedules)
  unfolding firmware_offenders
  offenders_of_created false d = refl
  offenders_of_created true d = elim (Bool-cases (firmware_offenders true d.schedules).1) [
    | inl e ↦ rw e
    | inr e ↦ rw e (offenders-created d)
  ]

  nothing_left :
      (want : Bool) (d : ScheduleDevice F)
      → firmware_findings want (select (kept_job want) d.schedules ++ created want d) ≡ []
  nothing_left want d = (firmware_findings-agree want _).1.1 (
    rw offenders-append (rw offenders-select (rw offenders_of_created refl)),
    rw offenders-append (rw offenders-select (rw offenders_of_created (settled want _))),
  )

  apply_step :
      (want : Bool) (d : ScheduleDevice F)
      → apply_firmware fake_rpc want d
        ≡ (delete_jobs fake_rpc (firmware_offenders want d.schedules).0
              >> ensure_job fake_rpc (missing want d.schedules))
            d
  unfolding apply_firmware fake_rpc
  apply_step want d = refl

  -- Against the fake device, whose job ids are unique, applyFirmware succeeds. It leaves, in their
  -- order, the jobs that are no update jobs and the compliant ones, adds the standard job just when
  -- auto-update is wanted and no job was compliant, and then nothing is reported.
  pub apply_firmware_converges :
      (want : Bool) (d : ScheduleDevice F)
      → HasUniqueIds d.schedules
      → (d' : ScheduleDevice F) × (apply_firmware fake_rpc want d ≡ (ok tt, d'))
        × (d'.schedules ≡ select (kept_job want) d.schedules ++ created want d)
        × (firmware_findings want d'.schedules ≡ [])
  unfolding apply_firmware
  apply_firmware_converges want d u =
      let (d₁, run, left, next) =
        delete_offenders want d.schedules [] d refl u (Fresh-nil d.schedules) in
      let (d₂, ran, all) = ensure_step (missing want d.schedules) d₁ in
      let final : d₂.schedules ≡ select (kept_job want) d.schedules ++ created want d =
        all ∙ rw (left, next) in
      (d₂, apply_step want d ∙ rw run ran, final, rw final (nothing_left want d))
