-- ===== src/Exporters/Datadog/Payloads.antt =====
-- internal/exporters/datadog.go: `processBatch`, up to the payload that it submits; and what all
-- payloads of a run hold. The units and the global tags are those of the exporter, which are set
-- before its start.
use mathlib.Core.List.{Perm, map-append}
use mathlib.Core.List.Perm
use lspwatch.Common.{◌≡◌, sym, subst, false, Option, List, [], ◌∷◌, map, concat, Bytes}
use lspwatch.Common.Dict.{Dict}
use lspwatch.Config.{DatadogConfig}
use lspwatch.Telemetry.{MetricRecording, Tag}
use lspwatch.Exporters.Datadog.{DatadogExporter, Action, run, new_datadog_metrics_exporter}
use lspwatch.Exporters.Datadog.Life.{OneLife, run_complete}
use lspwatch.Exporters.Datadog.Series.{MetricSeries, point, get_timeseries}
use lspwatch.Exporters.Datadog.Series.Points.{same-Perm, points_of, get_timeseries-Perm}

module _ {V : Type 0} (digest : Bytes → Bytes) (range : (A : Type 0) → Dict A → Dict A) where
  -- the payload of `processBatch`
  unfoldable pub process_batch :
      Dict Bytes → List Tag → List (MetricRecording V) → List (Option (MetricSeries V))
  unfolding get_timeseries
  process_batch units tags batch = get_timeseries digest range units tags batch

  -- The payloads of all batches that were submitted.
  unfoldable pub payloads : DatadogExporter V → List (List (Option (MetricSeries V)))
  unfolding process_batch
  payloads x = map (process_batch x.metric_unit_mapping x.tags) x.submitted

  process_batch-points :
      (units : Dict Bytes) (tags : List Tag) (batches : List (List (MetricRecording V)))
      → ((A : Type 0) (m : Dict A) → Perm (range A m) m)
      → Perm
          (concat (map (points_of digest range) (map (process_batch units tags) batches)))
          (map point (concat batches))
  unfolding process_batch
  process_batch-points units tags [] visits = Perm.refl []
  process_batch-points units tags (b ∷ bs) visits =
      Perm.trans
        (Perm.append (get_timeseries-Perm digest range units tags b visits)
          (process_batch-points units tags bs visits))
        (same-Perm (sym (map-append point b (concat bs))))

  -- When a new exporter has been started at most once and its goroutine has ended or not begun, the
  -- payloads that it has submitted hold exactly the points of the metrics that were taken, each as
  -- often as it was taken, however a range orders a map.
  pub run_complete-payloads :
      (cfg : DatadogConfig) (actions : List (Action V))
      → ((A : Type 0) (m : Dict A) → Perm (range A m) m)
      → OneLife actions (new_datadog_metrics_exporter cfg)
      → (run actions (new_datadog_metrics_exporter cfg)).0.handler_active ≡ false
      → Perm
          (concat (
            map
              (points_of digest range)
              (payloads (run actions (new_datadog_metrics_exporter cfg)).0)))
          (map point (run actions (new_datadog_metrics_exporter cfg)).1)
  unfolding payloads
  run_complete-payloads cfg actions visits once ended =
      let x = (run actions (new_datadog_metrics_exporter cfg)).0 in
      subst (λ l. Perm (concat (map (points_of digest range) (payloads x))) (map point l))
        (run_complete cfg actions once ended)
        (process_batch-points x.metric_unit_mapping x.tags x.submitted visits)
