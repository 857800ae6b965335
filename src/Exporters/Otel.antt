-- ===== src/Exporters/Otel.antt =====
-- internal/exporters/otel.go: the life of `MetricsOTelExporter` over the OpenTelemetry SDK, whose
-- metrics side is a parameter (`Sdk`, on a state `S` of its own, with `H` for a histogram). The
-- methods hold the exporter's lock, so each is one step.
pub mod Life
pub mod Delivery
pub mod Enabling
pub mod Sinks
pub mod Setup
use lspwatch.Common.{
  ℕ, ◌+◌, Bool, true, false, not, Option, none, some, List, [], ◌∷◌, ◌++◌, leb, if◌then◌else◌,
  Bytes, codes,
}
use lspwatch.Common.Dict.{Dict, get, put}
use lspwatch.Common.Results.{Result, ok, err}
use lspwatch.Telemetry.{
  counter, gauge, histogram, MetricRegistration, MetricRecording, MetricsExporter, Tag,
}

pub record Sdk (V S H : Type 0) : Type 0 where
  pub new_meter : S → S  -- newOTelMeterProvider, and its Meter("lspwatch")
  pub float64_histogram : (name description unit : Bytes) → S → S × Result Bytes H
  pub record_value : H → V → Dict Bytes → S → S  -- Histogram.Record with these attributes
  pub shutdown_provider : S → S  -- MeterProvider.Shutdown, in a goroutine of its own

-- A context: one that ends at a time, or one that has been cancelled.
pub data Context : Type 0 where
  expires_at : ℕ → Context
  cancelled : Context

pub data OtelError : Type 0 where
  not_running already_running : OtelError
  histogram_not_found : Bytes → OtelError
  instrument_failed : Bytes → OtelError

-- `MetricsOTelExporter`, with the state of the SDK behind it; `shutdown_ctx` is nil before a
-- shutdown
pub record OtelExporter (S H : Type 0) : Type 0 where
  pub sdk : S
  pub metric_registrations : List MetricRegistration
  pub histograms : Dict H
  pub global_tags : List Tag
  pub shutdown_ctx : Option Context
  pub running : Bool

-- What `NewMetricsOTelExporter` returns, but for the exporter under it and the logger.
unfoldable pub new_exporter : {S H : Type 0} → S → OtelExporter S H
new_exporter sdk = record {
  sdk = sdk;
  metric_registrations = [];
  histograms = [];
  global_tags = [];
  shutdown_ctx = none;
  running = false;
}

-- five seconds, in nanoseconds
abbrev pub shutdown_timeout : ℕ
shutdown_timeout = 5_000_000_000

tag_attributes : List Tag → Dict Bytes
tag_attributes [] = []
tag_attributes (t ∷ ts) = (t.key, t.value) ∷ tag_attributes ts

-- A call of a method of the exporter; `now` is the time of the call.
pub data Call (V : Type 0) : Type 0 where
  register : MetricRegistration → Call V
  set_tags : List Tag → Call V
  start_up : Call V
  emit : MetricRecording V → Call V
  end : (now : ℕ) → Call V

module _ {V S H : Type 0} (api : Sdk V S H) (range : Dict Bytes → Dict Bytes) where
  -- `RegisterMetric`, which keeps the registration for `Start`
  unfoldable pub register_metric : MetricRegistration → OtelExporter S H → OtelExporter S H
  register_metric g x = record x { metric_registrations = x.metric_registrations ++ g ∷ [] }

  unfoldable pub set_global_tags : List Tag → OtelExporter S H → OtelExporter S H
  set_global_tags tags x = record x { global_tags = tags }

  -- the attributes of a recording: the global tags, and the recording's in the order of the range
  unfoldable pub attributes : List Tag → Dict Bytes → Dict Bytes
  unfolding tag_attributes
  attributes global tags = tag_attributes global ++ range tags

  -- `EmitMetric`
  unfoldable pub emit_metric :
      MetricRecording V → OtelExporter S H → OtelExporter S H × Option OtelError
  unfolding get attributes
  emit_metric m x =
      if not x.running then (x, some not_running) else elim (get m.name x.histograms) [
        | none ↦ (x, some (histogram_not_found m.name))
        | some h ↦ (
          record x { sdk = api.record_value h m.value (attributes x.global_tags m.tags) x.sdk },
          none,
        )
      ]

  unfoldable pub add_histogram :
      MetricRegistration
      → OtelExporter S H
      → S × Result Bytes H
      → OtelExporter S H × Option OtelError
  unfolding put
  add_histogram g x (sdk, ok h) =
      (record x { sdk = sdk; histograms = put g.name h x.histograms }, none)
  add_histogram g x (sdk, err e) = (record x { sdk = sdk }, some (instrument_failed e))

  -- the body of the loop of `createInstrumentsFromRegistrations`
  unfoldable pub create_instrument :
      MetricRegistration → OtelExporter S H → OtelExporter S H × Option OtelError
  unfolding add_histogram
  create_instrument g x = elim g.kind [
    | histogram ↦ add_histogram g x (api.float64_histogram g.name g.description g.otel_unit x.sdk)
    | counter ↦ (x, none)
    | gauge ↦ (x, none)
  ]

  unfoldable pub continue_creating :
      OtelExporter S H × Option OtelError
      → (OtelExporter S H → OtelExporter S H × Option OtelError)
      → OtelExporter S H × Option OtelError
  continue_creating (x, none) rest = rest x
  continue_creating (x, some e) rest = (x, some e)

  -- `createInstrumentsFromRegistrations`, which ends at the first error
  unfoldable pub create_instruments :
      List MetricRegistration → OtelExporter S H → OtelExporter S H × Option OtelError
  unfolding continue_creating create_instrument
  create_instruments [] x = (x, none)
  create_instruments (g ∷ gs) x = continue_creating (create_instrument g x) (create_instruments gs)

  unfoldable pub started : OtelExporter S H × Option OtelError → OtelExporter S H × Option OtelError
  started (x, none) = (record x { running = true }, none)
  started (x, some e) = (x, some e)

  -- `Start`
  unfoldable pub start : OtelExporter S H → OtelExporter S H × Option OtelError
  unfolding started create_instruments
  start x =
      if x.running
      then (x, some already_running)
      else started
          (create_instruments x.metric_registrations (record x { sdk = api.new_meter x.sdk }))

  -- `Shutdown`
  unfoldable pub shutdown : ℕ → OtelExporter S H → OtelExporter S H
  shutdown now x =
      if x.running
      then record x {
        sdk = api.shutdown_provider x.sdk;
        shutdown_ctx = some (expires_at (now + shutdown_timeout));
      }
      else record x { shutdown_ctx = some cancelled }

  -- `Wait`, called at `now`: the time at which it returns, and `none` where it uses a nil context
  unfoldable pub wait : ℕ → OtelExporter S H → Option ℕ
  wait now x = elim x.shutdown_ctx [
    | none ↦ none
    | some c ↦ elim c [ cancelled ↦ some now | expires_at t ↦ some (if leb t now then now else t) ]
  ]

  unfoldable pub take_call : Call V → OtelExporter S H → OtelExporter S H × Option OtelError
  unfolding register_metric set_global_tags start emit_metric shutdown
  take_call (register g) x = (register_metric g x, none)
  take_call (set_tags tags) x = (set_global_tags tags x, none)
  take_call start_up x = start x
  take_call (emit m) x = emit_metric m x
  take_call (end now) x = (shutdown now x, none)

  -- The exporter after some calls.
  unfoldable pub take_calls : List (Call V) → OtelExporter S H → OtelExporter S H
  take_calls [] x = x
  take_calls (c ∷ cs) x = take_calls cs (take_call c x).0

  error_text : OtelError → Bytes
  error_text not_running = codes "otel metrics exporter not running"
  error_text already_running = codes "exporter already running"
  error_text (histogram_not_found name) = codes "histogram not found for metric: " ++ name
  error_text (instrument_failed e) = e

  with_error : OtelExporter S H × Option OtelError → OtelExporter S H × Option Bytes
  unfolding error_text
  with_error (x, none) = (x, none)
  with_error (x, some e) = (x, some (error_text e))

  -- `MetricsOTelExporter` as a `MetricsExporter`
  unfoldable pub as_otel_exporter : MetricsExporter V (OtelExporter S H)
  unfolding with_error
  as_otel_exporter = record {
    register_metric = λ g x. (register_metric g x, none);
    emit_metric = λ m x. with_error (emit_metric m x);
    set_global_tags = λ tags x. set_global_tags tags x;
  }
