-- ===== src/Telemetry.antt =====
-- internal/telemetry/metrics.go: metrics, their registrations, and the registry between the
-- components that measure and the exporter. An exporter (`MetricsExporter`) is a value that is
-- shared by two registries, so its state is passed beside the registry's.
pub mod Registry
pub mod Passing
use lspwatch.Common.{
  ℕ, zero, suc, Bool, true, false, Option, none, some, List, [], ◌∷◌, ◌++◌, if◌then◌else◌, Bytes,
  codes,
}
use lspwatch.Common.Dict.{Dict, get, put}

pub data MetricKind : Type 0 where
  counter gauge histogram : MetricKind

-- `AvailableMetric`, `AvailableTag` and `TagValue` are Go strings.
abbrev pub AvailableMetric : Type 0
AvailableMetric = Bytes

abbrev pub request_duration : AvailableMetric
request_duration = codes "request.duration"

abbrev pub server_rss : AvailableMetric
server_rss = codes "server.rss"

pub record MetricRegistration : Type 0 where
  pub kind : MetricKind
  pub name : Bytes
  pub description : Bytes
  pub otel_unit : Bytes
  pub datadog_unit : Bytes

pub record Tag : Type 0 where
  pub key : Bytes
  pub value : Bytes

-- `V` stands for float64. `Tags` points to a map in every recording that the program makes.
pub record MetricRecording (V : Type 0) : Type 0 where
  pub name : Bytes
  pub timestamp : ℕ
  pub value : V
  pub tags : Dict Bytes

unfoldable pub new_tag : Bytes → Bytes → Tag
new_tag key value = record { key = key; value = value }

-- `tagsMap[tag.Key] = tag.Value` for each tag
unfoldable pub tags_map : Dict Bytes → List Tag → Dict Bytes
unfolding put
tags_map m [] = m
tags_map m (t ∷ ts) = tags_map (put t.key t.value m) ts

unfoldable pub new_metric_recording :
    {V : Type 0} → AvailableMetric → ℕ → V → List Tag → MetricRecording V
unfolding tags_map
new_metric_recording name timestamp value tags = record {
  name = name;
  timestamp = timestamp;
  value = value;
  tags = tags_map [] tags;
}

-- The methods of `MetricsExporter` that are called before a session and within it, on an exporter
-- whose state is `X`.
pub record MetricsExporter (V X : Type 0) : Type 0 where
  pub register_metric : MetricRegistration → X → X × Option Bytes
  pub emit_metric : MetricRecording V → X → X × Option Bytes
  pub set_global_tags : List Tag → X → X

-- `DefaultMetricsRegistry`, without the exporter
pub record MetricsRegistry : Type 0 where
  pub registered : Dict MetricRegistration
  pub enabled : Dict Bool

pub data RegistryError : Type 0 where
  enable_unregistered : AvailableMetric → RegistryError
  emit_unregistered : Bytes → RegistryError
  exporter_error : Bytes → RegistryError

unfoldable pub new_default_metrics_registry : Dict MetricRegistration → MetricsRegistry
new_default_metrics_registry registered = record { registered = registered; enabled = [] }

-- `IsMetricEnabled`: a missing key reads as false
unfoldable pub is_metric_enabled : AvailableMetric → MetricsRegistry → Bool
unfolding get
is_metric_enabled metric r = elim (get metric r.enabled) [ none ↦ false | some b ↦ b ]

module _ {V X : Type 0} (exporter : MetricsExporter V X) where
  enable_registered :
      AvailableMetric
      → MetricsRegistry
      → X × Option Bytes
      → MetricsRegistry × X × Option RegistryError
  unfolding put
  enable_registered metric r (x, some e) = (r, x, some (exporter_error e))
  enable_registered metric r (x, none) = (record r { enabled = put metric true r.enabled }, x, none)

  -- `EnableMetric`
  unfoldable pub enable_metric :
      AvailableMetric → MetricsRegistry → X → MetricsRegistry × X × Option RegistryError
  unfolding get enable_registered
  enable_metric metric r x = elim (get metric r.registered) [
    | none ↦ (r, x, some (enable_unregistered metric))
    | some registration ↦ enable_registered metric r (exporter.register_metric registration x)
  ]

  unfoldable pub exporter_result : X × Option Bytes → X × Option RegistryError
  exporter_result (x, none) = (x, none)
  exporter_result (x, some e) = (x, some (exporter_error e))

  -- `EmitMetric`: under the export name, if the metric is enabled
  unfoldable pub emit_metric : MetricRecording V → MetricsRegistry → X → X × Option RegistryError
  unfolding get is_metric_enabled exporter_result
  emit_metric metric r x = elim (get metric.name r.registered) [
    | none ↦ (x, some (emit_unregistered metric.name))
    | some registration ↦
        if is_metric_enabled metric.name r
        then exporter_result (exporter.emit_metric (record metric { name = registration.name }) x)
        else (x, none)
  ]

  pub continue_enabling :
      MetricsRegistry × X × Option RegistryError
      → (MetricsRegistry → X → MetricsRegistry × X × Option RegistryError)
      → MetricsRegistry × X × Option RegistryError
  continue_enabling (r, x, none) rest = rest r x
  continue_enabling (r, x, some e) rest = (r, x, some e)

  -- the loop of `enableMetrics`, which ends at the first error
  unfoldable pub enable_all :
      List AvailableMetric → MetricsRegistry → X → MetricsRegistry × X × Option RegistryError
  unfolding continue_enabling
  enable_all [] r x = (r, x, none)
  enable_all (m ∷ ms) r x = continue_enabling (enable_metric m r x) (enable_all ms)
