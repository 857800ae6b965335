-- ===== src/Exporters/Datadog/Setup/Bounds.antt =====
-- The batches of the exporter of internal/exporters/datadog.go, from a configuration that satisfies
-- the rules.
use lspwatch.Common.{Bytes, codes, ℕ, ◌≤◌, ◌≡◌, refl, true, Option, none, some, arith}
use lspwatch.Common.Int.{ℤ, pos, negsuc}
use lspwatch.Common.Results.{Result, ok, err}
use lspwatch.Config.{DatadogConfig}
use lspwatch.Io.Logs.{Files, Log, LogError, create_logger}
use lspwatch.Exporters.Datadog.Setup.{
  DatadogContext, DatadogSetup, datadog_logged, new_datadog_exporter,
}
use lspwatch.Config.Rules.{batch_rules, optional, in_range}
use lspwatch.Config.Rules.Kept.{both_true}
use lspwatch.Core.Watcher.{seconds_duration}
use lspwatch.Exporters.Datadog.{
  DatadogExporter, new_datadog_metrics_exporter, default_batch_size, default_batch_timeout,
}

abbrev pub IsBetween : ℕ → ℕ → ℤ → Type 0
IsBetween low high (pos n) = (low ≤ n) × (n ≤ high)
IsBetween low high (negsuc n) = ⊥

-- A batch holds between 1 and 500 metrics, and waits for one to 250 seconds.
abbrev pub IsBatching : {V : Type 0} → DatadogExporter V → Type 0
IsBatching x =
    IsBetween 1 500 x.batch_size × IsBetween 1_000_000_000 250_000_000_000 x.batch_timeout

batch_size-IsBetween :
    (size : Option ℤ)
    → optional (in_range 1 500) size ≡ true
    → IsBetween 1 500 (elim size [ none ↦ default_batch_size | some n ↦ n ])
unfolding optional in_range
batch_size-IsBetween none h = (omega arith, omega arith)
batch_size-IsBetween (some (pos n)) h = (ground arith, ground arith)
batch_size-IsBetween (some (negsuc n)) h = cc

batch_timeout-IsBetween :
    (timeout : Option ℤ)
    → optional (in_range 1 250) timeout ≡ true
    → IsBetween 1_000_000_000 250_000_000_000
        (elim timeout [ none ↦ default_batch_timeout | some n ↦ seconds_duration n ])
unfolding optional in_range seconds_duration
batch_timeout-IsBetween none h = (omega arith, omega arith)
batch_timeout-IsBetween (some (pos n)) h = ground arith
batch_timeout-IsBetween (some (negsuc n)) h = cc

pub new_datadog_metrics_exporter-IsBatching :
    (V : Type 0) (cfg : DatadogConfig)
    → batch_rules cfg ≡ true
    → IsBatching (new_datadog_metrics_exporter {V = V} cfg)
unfolding batch_rules new_datadog_metrics_exporter
new_datadog_metrics_exporter-IsBatching V cfg h =
    let (size, timeout) = both_true _ _ h in
    (batch_size-IsBetween cfg.batch_size size, batch_timeout-IsBetween cfg.batch_timeout timeout)

module _ (V : Type 0) {W : Type 0} (files : Files W) where
  -- What `NewDatadogMetricsExporter` has made batches within the bounds, and keeps the context that
  -- it was given.
  abbrev pub IsSetUp : DatadogContext → Result LogError (DatadogSetup V) → Type 0
  IsSetUp context (err e) = Unit
  IsSetUp context (ok setup) = IsBatching setup.exporter × (setup.context ≡ context)

  datadog_logged-IsSetUp :
      (context : DatadogContext) (cfg : DatadogConfig) (t : W × Result LogError Log)
      → batch_rules cfg ≡ true
      → IsSetUp context (datadog_logged files context cfg t).1
  unfolding datadog_logged
  datadog_logged-IsSetUp context cfg (w, err e) h = tt
  datadog_logged-IsSetUp context cfg (w, ok log) h =
      (new_datadog_metrics_exporter-IsBatching V cfg h, refl)

  pub new_datadog_exporter-IsSetUp :
      (context : DatadogContext) (cfg : DatadogConfig) (log_dir : Bytes) (w : W)
      → batch_rules cfg ≡ true
      → IsSetUp context (new_datadog_exporter files context cfg log_dir w).1
  unfolding new_datadog_exporter
  new_datadog_exporter-IsSetUp context cfg log_dir w h =
      datadog_logged-IsSetUp context cfg (create_logger files log_dir (codes "datadog.log") w) h
