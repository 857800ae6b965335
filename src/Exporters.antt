-- ===== src/Exporters.antt =====
-- internal/exporters: the exporters behind the metrics registries.
pub mod Datadog
pub mod Otel
