-- ===== src/Telemetry/Passing.antt =====
-- internal/telemetry/metrics.go: what a registry passes on of a list of recordings.
use lspwatch.Common.{◌≡◌, none, some, List, [], ◌∷◌, ◌++◌, if◌then◌else◌, arith}
use lspwatch.Common.Dict.{get}
use lspwatch.Telemetry.{MetricRecording, MetricsRegistry, is_metric_enabled}

module _ {V : Type 0} where
  -- What a registry passes on of some recordings: those that are enabled, under their export names.
  unfoldable pub exported : MetricsRegistry → List (MetricRecording V) → List (MetricRecording V)
  exported r [] = []
  exported r (m ∷ ms) =
      let rest = exported r ms in
      elim (get m.name r.registered) [
        | none ↦ rest
        | some g ↦ if is_metric_enabled m.name r then record m { name = g.name } ∷ rest else rest
      ]

  pub exported-cons :
      (r : MetricsRegistry) (m : MetricRecording V) (ms : List (MetricRecording V))
      → exported r (m ∷ ms) ≡ exported r (m ∷ []) ++ exported r ms
  unfolding exported
  exported-cons r m ms = ground arith
