-- ===== src/Controller/Reconcile/Apply/Progress.antt =====
-- applyFindings: how far it comes.
use mathlib.Core.List.{append_assoc}
use shelly_operator.Base.{
  Bool, String, Option, none, some, List, [], ◌∷◌, ◌++◌, ◌≡◌, refl, sym, ◌∙◌, Result, ok, err,
}
use shelly_operator.Base.Assoc.{Assoc}
use shelly_operator.Json.{Floats, Fields}
use shelly_operator.Api.Profile.{ShellyProfile}
use shelly_operator.Api.Device.{ShellyDevice}
use shelly_operator.Drift.Diff.{Finding}
use shelly_operator.Drift.Order.{apply_order}
use shelly_operator.Drift.Report.{sections}
use shelly_operator.Shelly.Errors.{CallError}
use shelly_operator.Shelly.Rpc.{Rpc}
use shelly_operator.Shelly.Methods.{Client, Calls, Texts}
use shelly_operator.Controller.Schedule.{Codec}
use shelly_operator.Controller.Reconcile.Apply.{
  ApplyResult, Applying, after_write, apply_sections, apply_section, nothing_applied,
  apply_findings,
}

module _ {W : Type 0} (write : String → Rpc W Bool) where
  -- Where the run ended: nothing was left, or the first of what was left failed with the error, as the
  -- last thing done.
  abbrev pub Stop : Option CallError → List String → W → Type 0
  Stop none left w = left ≡ []
  Stop (some e) left w =
      (section : String) × (later : List String) × (v : W) × (left ≡ section ∷ later)
      × (write section v ≡ (err e, w))

  -- What was applied is the first part of what was to be.
  abbrev pub Progress : List String → (ApplyResult × Option CallError) × W → Type 0
  Progress order ((res, e), w) =
      (left : List String) × (order ≡ res.applied ++ left) × Stop e left w

  after_write-Progress :
      (next : ApplyResult → Applying W) (ss : List String)
      → ((res : ApplyResult) (w : W) → Progress (res.applied ++ ss) (next res w))
      → (section : String) (res : ApplyResult) (r : Result CallError Bool) (v w : W)
      → write section v ≡ (r, w)
      → Progress (res.applied ++ section ∷ ss) (after_write next section res r w)
  unfolding after_write
  after_write-Progress next ss ih section res (err e) v w h =
      (section ∷ ss, refl, (section, ss, v, refl, h))
  after_write-Progress next ss ih section res (ok restart) v w h =
      let (left, e, stop) = ih _ w in
      (left, sym (append_assoc res.applied (section ∷ []) ss) ∙ e, stop)

  apply_sections-Progress :
      (ss : List String) (res : ApplyResult) (w : W)
      → Progress (res.applied ++ ss) (apply_sections write ss res w)
  unfolding apply_sections
  apply_sections-Progress [] res w = ([], refl, refl)
  apply_sections-Progress (s ∷ ss) res w =
      after_write-Progress (apply_sections write ss) ss (apply_sections-Progress ss) s res
        (write s w).0 w (write s w).1 refl

module _ {F Sel W : Type 0} ⦃n : Floats F⦄ ⦃t : Texts⦄ ⦃codec : Codec F⦄ (calls : Calls F W) where
  -- What applyFindings reports as applied is the first part of the order of ApplyOrder. It is all of it
  -- where there is no error; otherwise the next section in that order is the one whose write failed with
  -- the error, and nothing was done after it.
  pub apply_findings-Progress :
      (c : Client) (dev : ShellyDevice) (desired : Assoc (Fields F)) (findings : List (Finding F))
      (auth_enable fw_enable : Option Bool) (password : String) (wifi_pw : String × String)
      (profile : ShellyProfile F Sel) (w : W)
      → Progress
          (apply_section calls c dev desired auth_enable fw_enable password wifi_pw profile)
          (apply_order (sections findings))
          (apply_findings calls c dev desired findings auth_enable fw_enable password wifi_pw
            profile w)
  unfolding apply_findings
  apply_findings-Progress c dev desired findings auth_enable fw_enable password wifi_pw profile w =
      apply_sections-Progress
        (apply_section calls c dev desired auth_enable fw_enable password wifi_pw profile)
        (apply_order (sections findings)) nothing_applied w
