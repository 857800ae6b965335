-- ===== src/Tests/Sessions.antt =====
-- Instances for internal/core: a session of the proxy, and a watcher.
use lspwatch.Common.{ℕ, ◌≡◌, refl, true, false, none, some, List, [], ◌∷◌, ◌++◌, Bytes, codes, same}
use lspwatch.Common.Dict.{get, put}
use lspwatch.Common.Int.{pos}
use lspwatch.Common.Results.{ok}
use lspwatch.Config.{LspwatchConfig, get_default_config}
use lspwatch.Config.Rules.{is_fit}
use lspwatch.Telemetry.{
  MetricRecording, MetricsExporter, request_duration, server_rss, emit_metric, enable_metric,
  new_default_metrics_registry,
}
use lspwatch.Core.Buffer.{RequestBookmark, dict_buffer}
use lspwatch.Core.Proxy.{LspClientMessage, LspServerMessage, ProxyHandler, enable_metrics}
use lspwatch.Core.Proxy.Listeners.{
  message, stream_end, Event, from_client, from_server, client_shutdown, Session, step, respond,
  is_metered, duration_recording, Trace, start, taken,
}
use lspwatch.Core.Proxy.Session.{pending, Trace-pending}
use lspwatch.Core.Proxy.Metering.{emit_each, observations, Trace-observations}
use lspwatch.Core.Proxy.Forwarding.{HasForwarded, is_exit, Trace-HasForwarded, exit_lost}
use lspwatch.Core.Watcher.{
  ServerWatcher, default_polling_interval, new_server_watcher, watcher_built, WatchEvent,
  is_waiting, watch, start_watcher, take_state, request_shutdown, tick, sample, exit, see_shutdown,
  watch_all,
}
use lspwatch.Core.Watcher.Ending.{watch_all_ends}
use lspwatch.Core.Watcher.Life.{IsTickable, new_server_watcher-IsTickable}
use lspwatch.Instance.{available_lsp_metrics, available_server_metrics}

-- An exporter that takes every registration and keeps the recordings.
abbrev pub keeping : MetricsExporter ℕ (List (MetricRecording ℕ))
keeping = record {
  register_metric = λ g x. (x, none);
  emit_metric = λ m x. (x ++ m ∷ [], none);
  set_global_tags = λ tags x. x;
}

abbrev pub whole_seconds : ℕ → ℕ
whole_seconds n = n

abbrev pub metering : ProxyHandler dict_buffer
metering = record {
  metered_requests = (codes "initialize", tt) ∷ [];
  metrics_registry = record {
    registered = available_lsp_metrics;
    enabled = (request_duration, true) ∷ [];
  };
  request_buffer = [];
  mode = codes "command";
}

abbrev pub fresh : Session keeping whole_seconds dict_buffer
fresh = record {
  handler = metering;
  exporter_state = [];
  to_server = [];
  to_client = [];
  shutdown_message = none;
  shutdown_requests = 0;
  client_listening = true;
  server_listening = true;
}

abbrev initialize : LspClientMessage
initialize = record { id = some (codes "1"); method = some (codes "initialize"); params = none }

abbrev initialized : LspServerMessage
initialized = record { id = some (codes "1"); method = none; result = none; error = none }

abbrev exit_notification : LspClientMessage
exit_notification = record { id = none; method = some (codes "exit"); params = none }

abbrev request : Event
request = from_client 5 (message initialize (codes "request"))

abbrev response : Event
response = from_server 9 1 (message initialized (codes "response"))

abbrev farewell : Event
farewell = from_client 11 (message exit_notification (codes "exit"))

abbrev history : List Event
history = client_shutdown ∷ farewell ∷ response ∷ request ∷ []

abbrev round :
    Event → Session keeping whole_seconds dict_buffer → Session keeping whole_seconds dict_buffer
round = step keeping whole_seconds dict_buffer

abbrev over : Session keeping whole_seconds dict_buffer
over = round client_shutdown (round farewell (round response (round request fresh)))

session : Trace keeping whole_seconds dict_buffer fresh history over
unfolding step respond put get
session =
    taken client_shutdown (taken farewell (taken response (taken request start refl) refl) refl)
      refl

-- The run measures the time between request and response once, and withholds `exit` to the end.
session_outputs :
    (over.exporter_state
      ≡ record {
        name = codes "lspwatch.request.duration";
        timestamp = 1;
        value = 4;
        tags = (codes "method", codes "initialize") ∷ [];
      }
        ∷ [])
    × (over.to_server ≡ codes "request" ∷ codes "exit" ∷ [])
    × (over.to_client ≡ codes "response" ∷ [])
unfolding step respond put get is_metered duration_recording same emit_metric
session_outputs = (refl, refl, refl)

empty_buffer : (k : Bytes) → get {V = RequestBookmark} k [] ≡ none
empty_buffer k = unfold get in refl

Trace-pending_example : get (codes "1") over.handler.request_buffer ≡ pending (codes "1") history
Trace-pending_example =
    Trace-pending keeping whole_seconds dict_buffer (codes "1") empty_buffer session

Trace-observations_example :
    over.exporter_state
    ≡ emit_each keeping whole_seconds dict_buffer metering.metrics_registry
        (observations keeping whole_seconds dict_buffer metering history)
        []
Trace-observations_example =
    Trace-observations keeping whole_seconds dict_buffer empty_buffer session

Trace-HasForwarded_example : HasForwarded keeping whole_seconds dict_buffer fresh history over
Trace-HasForwarded_example = Trace-HasForwarded keeping whole_seconds dict_buffer refl session

abbrev abandoned : Session keeping whole_seconds dict_buffer
abandoned = round (from_client 12 stream_end) (round farewell fresh)

exit_lost_example : (round response abandoned).to_server ≡ []
exit_lost_example =
    exit_lost keeping whole_seconds dict_buffer 11 12 exit_notification (codes "exit") fresh
      (unfold is_exit same in refl) (taken response start (unfold step in refl))

abbrev pub watcher : ServerWatcher
watcher = record {
  metrics_registry = record {
    registered = available_server_metrics;
    enabled = (server_rss, true) ∷ [];
  };
  polling_interval = default_polling_interval;
  process_exited = false;
  shut_down = false;
  polling = false;
  sampling = false;
  handing_over = false;
  locked_out = false;
}

abbrev gone : ServerWatcher
gone = record watcher { process_exited = true; polling = true; sampling = true }

-- The longest interval that the rules allow.
abbrev slow_polling : LspwatchConfig
slow_polling = record get_default_config { polling_interval = some (pos 1000) }

abbrev slow_watcher : ServerWatcher
slow_watcher = record watcher { polling_interval = pos 1_000_000_000_000 }

slow_polling_fits : is_fit (λ path. true) slow_polling ≡ true
unfolding is_fit get_default_config
slow_polling_fits = refl

slow_watcher_built :
    (new_server_watcher keeping whole_seconds
      (new_default_metrics_registry available_server_metrics)
      slow_polling
      []).0
    ≡ ok slow_watcher
unfolding new_server_watcher watcher_built enable_metrics enable_metric new_default_metrics_registry
    get_default_config get put same
slow_watcher_built = refl

new_server_watcher-IsTickable_example : IsTickable slow_watcher.polling_interval
new_server_watcher-IsTickable_example =
    new_server_watcher-IsTickable keeping whole_seconds (λ path. true)
      (new_default_metrics_registry available_server_metrics) slow_polling [] {w = slow_watcher}
      slow_polling_fits slow_watcher_built

abbrev ending : List WatchEvent
ending = tick ∷ exit ∷ tick ∷ take_state ∷ request_shutdown ∷ []

watch_all_ends_example :
    (watch_all keeping whole_seconds
      (sample 1 (some 7) ∷ see_shutdown ∷ [])
      (watch_all keeping whole_seconds ending (start_watcher keeping whole_seconds watcher) []).0
      (watch_all keeping whole_seconds ending
        (start_watcher keeping whole_seconds watcher)
        []).1).0.polling
    ≡ false
watch_all_ends_example =
    watch_all_ends keeping whole_seconds ending watcher [] 1 (some 7) refl
      (unfold watch_all watch start_watcher is_waiting same in refl)
      (unfold watch_all watch start_watcher is_waiting same in refl)
