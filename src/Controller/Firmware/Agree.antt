-- ===== src/Controller/Firmware/Agree.antt =====
-- internal/controller/firmware.go: firmwareFindings beside firmwareOffenders.
use shelly_operator.Base.{
  ℤ, Bool, true, false, String, List, [], ◌∷◌, ◌++◌, ◌≡◌, ◌↔◌, refl, ap, ◌∙◌, sym, map, arith, not,
  ◌&&◌, if◌then◌else◌,
}
use shelly_operator.Json.{bool}
use shelly_operator.Drift.Diff.{Finding}
use shelly_operator.Drift.Diff.Loop.{append-eq-nil}
use shelly_operator.Shelly.Rpc.{ScheduleJob}
use shelly_operator.Controller.Firmware.{
  job_path, firmware_offenders, job_findings, jobs_findings, firmware_findings, finding,
}

map-nil : (ids : List ℤ) → map job_path ids ≡ [] → ids ≡ []
map-nil [] h = refl
map-nil (i ∷ ids) h = cc

extra-nil : (b : Bool) (s : String) → (if b then s ∷ [] else []) ≡ [] → b ≡ false
extra-nil true s h = cc
extra-nil false s h = refl

module _ {F : Type 0} where
  abbrev pub paths : List (Finding F) → List String
  paths [] = []
  paths (f ∷ fs) = f.path ∷ paths fs

  paths-append : (xs ys : List (Finding F)) → paths (xs ++ ys) ≡ paths xs ++ paths ys
  paths-append [] ys = refl
  paths-append (x ∷ xs) ys = ap (λ l. x.path ∷ l) (paths-append xs ys)

  paths-jobs :
      (want : Bool) (jobs : List (ScheduleJob F))
      → paths (jobs_findings want jobs) ≡ map job_path (firmware_offenders want jobs).0
  unfolding jobs_findings job_findings firmware_offenders
  paths-jobs want [] = refl
  paths-jobs want (j ∷ jobs) = ground (arith, paths-jobs want jobs)

  paths-nil : (fs : List (Finding F)) → paths fs ≡ [] → fs ≡ []
  paths-nil [] h = refl
  paths-nil (f ∷ fs) h = cc

  paths-extra :
      (b : Bool) (f : Finding F)
      → paths (if b then f ∷ [] else []) ≡ (if b then f.path ∷ [] else [])
  paths-extra true f = refl
  paths-extra false f = refl

  -- The job that enforcement creates, as a path.
  abbrev pub missing : Bool → List (ScheduleJob F) → Bool
  missing want jobs = want && not (firmware_offenders want jobs).1

  paths-findings :
      (want : Bool) (jobs : List (ScheduleJob F))
      → paths (firmware_findings want jobs)
        ≡ map job_path (firmware_offenders want jobs).0
          ++ (if missing want jobs then "autoUpdate" ∷ [] else [])
  unfolding firmware_findings
  paths-findings want jobs =
      paths-append (jobs_findings want jobs) _
      ∙ cc (
        paths-jobs want jobs,
        paths-extra (missing want jobs) (finding "autoUpdate" (bool true) (bool false)),
      )

  -- firmwareFindings reports the jobs that firmwareOffenders returns, in the same order, and then
  -- autoUpdate where auto-update is wanted and no job is compliant. It reports nothing just when there
  -- is no offender, and a compliant job wherever auto-update is wanted.
  pub firmware_findings-agree :
      (want : Bool) (jobs : List (ScheduleJob F))
      → (paths (firmware_findings want jobs)
          ≡ map job_path (firmware_offenders want jobs).0
            ++ (if missing want jobs then "autoUpdate" ∷ [] else []))
        × ((firmware_findings want jobs ≡ [])
            ↔ (((firmware_offenders want jobs).0 ≡ []) × (missing want jobs ≡ false)))
  firmware_findings-agree want jobs = (paths-findings want jobs, (to, from))
    where
      to :
          firmware_findings want jobs ≡ []
          → ((firmware_offenders want jobs).0 ≡ []) × (missing want jobs ≡ false)
      to h =
          let (a, b) =
            append-eq-nil (map job_path (firmware_offenders want jobs).0) _
              (sym (paths-findings want jobs) ∙ ap paths h) in
          (map-nil _ a, extra-nil (missing want jobs) "autoUpdate" b)

      from :
          ((firmware_offenders want jobs).0 ≡ []) × (missing want jobs ≡ false)
          → firmware_findings want jobs ≡ []
      from (a, b) = paths-nil _ (paths-findings want jobs ∙ rw (a, b))
