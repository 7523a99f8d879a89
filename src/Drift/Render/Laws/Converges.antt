-- ===== src/Drift/Render/Laws/Converges.antt =====
-- One round of enforcement of a profile: rendered, compared, written, and compared again.
use shelly_operator.Base.{String, List, [], ◌≡◌, ok, All-of_mem, All-mem}
use shelly_operator.Base.Assoc.{mem-get}
use shelly_operator.Json.{Floats, NumReflexive}
use shelly_operator.Api.Profile.{ProfileConfig}
use shelly_operator.Drift.Diff.{Finding, diff}
use shelly_operator.Drift.Order.{apply_order}
use shelly_operator.Drift.Report.{sections}
use shelly_operator.Drift.Render.{render}
use shelly_operator.Drift.Render.Laws.{EntryOk, render-OutputOk}
use shelly_operator.Shellytest.Config.{ConfigDevice, snapshot}
use shelly_operator.Shellytest.Config.Converge.{Accepts, write_sections}
use shelly_operator.Shellytest.Config.Enforce.{enforce_converges}

module _ {F : Type 0} ⦃n : Floats F⦄ (reflexive : NumReflexive n) where
  -- If numbers equal themselves, a device accepts configuration, and Diff finds the findings fs between what a profile renders
  -- for it and its configuration, then after the rendered maps of the sections of fs were written,
  -- in the order of ApplyOrder, Diff finds nothing between what was rendered and the configuration.
  pub render_converges :
      (cfg : ProfileConfig F) (desired_name : String) (d : ConfigDevice F) (fs : List (Finding F))
      → Accepts d
      → diff (render cfg desired_name (snapshot d.config)) (snapshot d.config) ≡ ok fs
      → diff (render cfg desired_name (snapshot d.config)) (
          snapshot
            (write_sections d
              (render cfg desired_name (snapshot d.config))
              (apply_order (sections fs))).config)
        ≡ ok []
  render_converges cfg desired_name d fs a h =
      let actual = snapshot d.config in
      let out = render cfg desired_name actual in
      let (nodup, entries_ok) = render-OutputOk cfg desired_name actual in
      enforce_converges reflexive d out fs a
        (All-of_mem _ out λ e m. ((All-mem (EntryOk actual) entries_ok m).1, mem-get out nodup m)) h
