-- ===== src/Shellytest/Config/Enforce.antt =====
-- The drift of a fake device that accepts configuration, before and after the drifted sections are
-- written in the order of ApplyOrder.
use mathlib.Core.Path.{subst}
use mathlib.Core.List.Permᴰ as PermD
use shelly_operator.Base.{List, [], ◌≡◌, some, ◌⊎◌, inl, inr, Memᴰ, All, All-mem, All-of_mem, ok}
use shelly_operator.Base.Assoc
use shelly_operator.Base.Assoc.{Assoc}
use shelly_operator.Base.Sort.Laws.{mem-perm}
use shelly_operator.Json.{Floats, Fields, FieldsWf, NumReflexive}
use shelly_operator.Drift.Diff.{Finding, diff}
use shelly_operator.Drift.Diff.Verdict.{IsMet}
use shelly_operator.Drift.Diff.Sections.{Named, diff-Named}
use shelly_operator.Drift.Order.{apply_order}
use shelly_operator.Drift.Order.Laws.{apply_order-Perm}
use shelly_operator.Drift.Report.{sections}
use shelly_operator.Drift.Report.Laws.{mem-sections}
use shelly_operator.Shellytest.Config.{ConfigDevice, snapshot}
use shelly_operator.Shellytest.Config.Converge.{Accepts, write_sections, write_sections-diff}

module _ {F : Type 0} ⦃n : Floats F⦄ (reflexive : NumReflexive n) where
  -- If numbers equal themselves, the device accepts configuration, the desired components and their maps
  -- hold each key once, and Diff returns findings, then after the desired maps of the findings' sections
  -- were written, in the order of ApplyOrder, Diff returns no finding.
  pub enforce_converges :
      (d : ConfigDevice F) (desired : Assoc (Fields F)) (fs : List (Finding F))
      → Accepts d
      → All (λ e. FieldsWf e.1 × (Assoc.get e.0 desired ≡ some e.1)) desired
      → diff desired (snapshot d.config) ≡ ok fs
      → diff desired (snapshot (write_sections d desired (apply_order (sections fs))).config)
        ≡ ok []
  enforce_converges d desired fs a w h =
      write_sections-diff reflexive d desired (apply_order (sections fs)) a w (
        All-of_mem _ desired λ e m.
          elim (All-mem (λ e. IsMet e.1 (Assoc.get e.0 (snapshot d.config)) ⊎ Named e.0 fs)
            (diff-Named desired (snapshot d.config) fs h) m) [
              | inl x ↦ inl x
              | inr (f, k, q) ↦ inr (
                  mem-perm (PermD.symm (apply_order-Perm (sections fs)))
                    (subst (λ s. Memᴰ s (sections fs)) q (mem-sections fs k)))
            ])
