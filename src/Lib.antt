-- ===== src/Lib.antt =====
-- lspwatch stands between an editor and a language server. It forwards the messages of either side,
-- measures how long requests take and how much memory the server uses, and exports these metrics.
--
-- The parts and how they interact. A configuration (internal/config/config.go) says what to measure
-- and which exporter to use. `NewLspwatchInstance` (internal/lspwatch.go) makes the exporter, gives
-- it the global tags, and makes one registry (internal/telemetry/metrics.go) for the proxy and one
-- for the watcher; both hand what is enabled to the one exporter. The proxy
-- (internal/core/proxy.go) reads messages with the reader of internal/io/io.go in two goroutines
-- that share a buffer of open requests; the watcher (internal/core/watcher.go) polls the server's
-- process. The Datadog exporter (internal/exporters/datadog.go) collects metrics in batches in a
-- goroutine of its own.
--
-- The files:
-- - Common: shared names. Common/Dict is a Go map with string keys, Common/Results a pair (value,
--   error).
-- - Io/Reader: `LSPReader.Read`, one clause or helper for each of its returns; Io/Text: the
--   functions of Go's library that it calls (`ReadString`, `TrimSpace`, `IndexRune`, `ParseInt`); a
--   source is the list of bytes that are still to come and the way it ends. Io/Ids:
--   `StringOrInt.UnmarshalJSON`. Io/Diverter: `SingleUseDiverterPipe`, chunk by chunk, between
--   pipes of `io.Pipe`. Io/Logs: `CreateLogger`, and `Release`.
-- - Config: the configuration, `GetDefaultConfig`, `ReadLspwatchConfig`, `getConfig`; Config/Rules:
--   the `validate` tags of its fields, as a test.
-- - Telemetry: `DefaultMetricsRegistry` over an exporter, which is a record of its methods on a
--   state.
-- - Core/Buffer: the interface of the third-party ordered map, and a dictionary that fills it.
-- - Core/Proxy: `NewProxyHandler`; Core/Proxy/Listeners: the bodies of the loops of `listenClient`
--   and `listenServer`, one step for each event; a trace is any interleaving of such steps.
--   Core/Proxy/Reading: the goroutines that read for them; Core/Proxy/Transparency: from the bytes
--   of one peer to those of the other; Core/Proxy/PassThrough: the diverter pipe with
--   `passThroughServerBytes` and `switchToProxyModeOnce`, up to the bytes that the client gets.
-- - Core/Watcher: `NewServerWatcher`, and `Start` and `Shutdown` as steps.
-- - Exporters/Datadog: the exporter with its goroutine, as actions; Exporters/Datadog/Series:
--   `getTimeseries`; Exporters/Datadog/Payloads: `processBatch`; Exporters/Datadog/Delivery: the
--   exporter behind the proxy's registry; Exporters/Datadog/Setup: what `NewDatadogMetricsExporter`
--   makes beside it, and `GetDatadogContext`.
-- - Exporters/Otel: the methods of `MetricsOTelExporter` (internal/exporters/otel.go) over an SDK;
--   Exporters/Otel/Sinks: `fileExporter` and `loggingExporter`; Exporters/Otel/Setup:
--   `newTLSConfig`, the options of the OTLP exporters, `NewMetricsOTelExporter`;
--   Exporters/Otel/Delivery: the exporter behind the proxy's registry; Exporters/Otel/Enabling:
--   from `enableMetrics` through `Start` to `EmitMetric`.
-- - Instance: `getTagValues`, `globalTagGetters`, and `NewLspwatchInstance` from the exporter on;
--   Instance/Exporter: `newMetricsExporter`; Instance/SetUp: `NewLspwatchInstance` as a whole.
-- - Instance/Run: `Run` and `shutdownAndWait` with the listeners and the watcher that they wait
--   for, as moves of an interleaving; only what starts, ends and blocks each of them is kept of the
--   listeners here. Instance/Run/Calls: the calls of the exporter in it; Instance/Run/Submitting:
--   these calls made to the Datadog exporter, Instance/Run/Recording: to the OpenTelemetry
--   exporter.
-- - Instance/Loop: the goroutine of `Run` with its timer and its status, and the interrupt
--   listener, apart from the goroutines that Instance/Run keeps.
-- - Instance/Stderr: the stderr recorder.
-- - Command: the root command (cmd/root.go), down to the status of the program.
-- - Tests: concrete runs.
--
-- Fuel. The loop over header lines has the number of the input's bytes and one more, and every
-- round takes a byte; `strconv.Itoa` of n has n + 1, and every round divides n by ten.
--
-- What is a parameter: the JSON and YAML decoders, the validator, the .env loader, the file system,
-- the command and its pipes, the ordered map, the digest, the order of a range over a map, the
-- OpenTelemetry SDK with its OTLP exporters, certificates and their pools, floating-point
-- conversions (a value is of any type), and what the machine says of itself. Of the validator it is
-- assumed in some places that it finds no error only where the tags' rules hold (`KeepsRules`), of
-- `os.MkdirAll` that a directory is there where it succeeds (`MakesDirectories`), and of a file
-- opened to append that what is written without an error stands behind what was there (`Appends`).
--
-- What is not modelled: what is logged; the answer of Datadog to a submission, so that how long
-- `exporter.Wait` takes is open; the parsing of the command line. The events that a trace orders
-- are those a listener has taken; that the goroutines access the request buffer one at a time is
-- assumed, as the source has no lock there. The provider of the OpenTelemetry SDK ends in a
-- goroutine of its own; when it does is not part of the model.
pub mod Common
pub mod Io
pub mod Config
pub mod Telemetry
pub mod Core
pub mod Exporters
pub mod Instance
pub mod Command
mod Tests
