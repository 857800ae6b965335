-- ===== src/Exporters/Datadog.antt =====
-- internal/exporters/datadog.go: the life of the exporter with its batching goroutine
-- (`runMetricsBatchHandler`). The channel is unbuffered, so an emission is one step with its
-- reception. `submitted` lists the batches given to `processBatch`, the oldest first.
pub mod Life
pub mod Series
pub mod Delivery
pub mod Setup
pub mod Payloads
use lspwatch.Common.{
  ℕ, suc, ◌+◌, ◌≡◌, Bool, true, false, not, ◌&&◌, Option, none, some, List, [], ◌∷◌, ◌++◌, leb,
  if◌then◌else◌, Bytes, length,
}
use lspwatch.Common.Dict.{Dict, put}
use lspwatch.Common.Int.{ℤ, pos, negsuc}
use lspwatch.Config.{DatadogConfig}
use lspwatch.Telemetry.{MetricRegistration, MetricRecording, Tag}
use lspwatch.Core.Watcher.{seconds_duration}

abbrev pub default_batch_size : ℤ
default_batch_size = pos 100

abbrev pub default_batch_timeout : ℤ
default_batch_timeout = pos 30_000_000_000

-- `DatadogMetricsExporter` with its `defaultMetricsProcessor`
pub record DatadogExporter (V : Type 0) : Type 0 where
  pub batch_size : ℤ
  pub batch_timeout : ℤ
  pub running : Bool
  pub channel_closed : Bool
  pub handler_active : Bool
  pub batch : List (MetricRecording V)
  pub submitted : List (List (MetricRecording V))
  pub metric_unit_mapping : Dict Bytes
  pub tags : List Tag

pub data Outcome : Type 0 where
  done : Outcome
  not_running : Outcome  -- the error of `EmitMetric`
  panics : Outcome  -- a send on, or a close of, a closed channel
  blocks : Outcome  -- no goroutine receives

-- A call of a method, or a case of the goroutine's `select`.
pub data Action (V : Type 0) : Type 0 where
  start : Action V
  emit : MetricRecording V → Action V
  shutdown : Action V
  timeout : Action V
  see_closed : Action V

-- `NewDatadogMetricsExporter`, without client, logger and context
unfoldable pub new_datadog_metrics_exporter : {V : Type 0} → DatadogConfig → DatadogExporter V
unfolding seconds_duration
new_datadog_metrics_exporter cfg = record {
  batch_size = elim cfg.batch_size [ none ↦ default_batch_size | some n ↦ n ];
  batch_timeout = elim cfg.batch_timeout [
    | none ↦ default_batch_timeout
    | some n ↦ seconds_duration n
  ];
  running = false;
  channel_closed = false;
  handler_active = false;
  batch = [];
  submitted = [];
  metric_unit_mapping = [];
  tags = [];
}

-- `len(batch) >= dme.batchSize`
abbrev pub reaches : ℕ → ℤ → Bool
reaches n (pos size) = leb size n
reaches n (negsuc size) = true

module _ {V : Type 0} where
  -- `RegisterMetric`, which always succeeds
  unfoldable pub register_metric : MetricRegistration → DatadogExporter V → DatadogExporter V
  register_metric g s = record s {
    metric_unit_mapping = put g.name g.datadog_unit s.metric_unit_mapping;
  }

  unfoldable pub set_global_tags : List Tag → DatadogExporter V → DatadogExporter V
  set_global_tags tags s = record s { tags = tags }

  -- `if len(batch) > 0 { go processBatch(batch); batch = nil }`
  unfoldable pub flush : List (MetricRecording V) → DatadogExporter V → DatadogExporter V
  flush [] s = s
  flush (m ∷ ms) s = record s { submitted = s.submitted ++ (m ∷ ms) ∷ []; batch = [] }

  -- A metric received: it is added, and a full batch is submitted.
  unfoldable pub receive : MetricRecording V → DatadogExporter V → DatadogExporter V
  unfolding flush
  receive m s =
      let batch = s.batch ++ m ∷ [] in
      if reaches (length batch) s.batch_size
      then flush batch (record s { batch = batch })
      else record s { batch = batch }

  -- `EmitMetric`
  unfoldable pub emit_metric : MetricRecording V → DatadogExporter V → DatadogExporter V × Outcome
  unfolding receive
  emit_metric m s =
      if not s.running
      then (s, not_running)
      else if s.channel_closed
      then (s, panics)
      else if s.handler_active
      then (receive m s, done)
      else (s, blocks)

  -- One call or one case of the goroutine; a goroutine that has returned takes none.
  unfoldable pub act : Action V → DatadogExporter V → DatadogExporter V × Outcome
  unfolding emit_metric flush
  act start s = (if s.running then s else record s { handler_active = true; running = true }, done)
  act (emit m) s = emit_metric m s
  act shutdown s =
      if not s.running
      then (s, done)
      else if s.channel_closed
      then (s, panics)
      else (record s { channel_closed = true; running = false }, done)
  act timeout s = (if s.handler_active then flush s.batch s else s, done)
  act see_closed s = (
    if s.handler_active && s.channel_closed
        then record (flush s.batch s) { handler_active = false; batch = [] }
        else s,
    done,
  )

  -- The metrics that `EmitMetric` took without an error.
  abbrev pub taken_by : Action V → Outcome → List (MetricRecording V)
  taken_by (emit m) done = m ∷ []
  taken_by _ _ = []

  -- A run, with the metrics that it took.
  unfoldable pub run :
      List (Action V) → DatadogExporter V → DatadogExporter V × List (MetricRecording V)
  run [] s = (s, [])
  run (a ∷ rest) s = let (s', o) = act a s in let (t, ms) = run rest s' in (t, taken_by a o ++ ms)
