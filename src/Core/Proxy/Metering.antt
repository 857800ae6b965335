-- ===== src/Core/Proxy/Metering.antt =====
-- The metrics that internal/core/proxy.go emits, against the history of the events.
use lspwatch.Common.{
  ℕ, ◌-◌, ◌&&◌, is_some, codes, ◌≡◌, refl, sym, ap, ◌∙◌, Option, none, some, List, [], ◌∷◌, ◌++◌,
  if◌then◌else◌, Bytes, arith,
}
use lspwatch.Common.Dict.{get}
use lspwatch.Telemetry.{
  request_duration, is_metric_enabled, new_metric_recording, new_tag, MetricRecording,
  MetricsExporter, MetricsRegistry, emit_metric,
}
use lspwatch.Core.Buffer.{RequestBookmark, OrderedMap}
use lspwatch.Core.Proxy.{ProxyHandler}
use lspwatch.Core.Proxy.Listeners.{
  message, stream_end, read_error, Event, from_client, from_server, client_shutdown,
  server_shutdown, Session, duration_recording, is_metered, respond, match_response, note_request,
  dispose, step, Trace, start, taken,
}
use lspwatch.Core.Proxy.Session.{pending, Trace-pending}

module _ {V X : Type 0} (exporter : MetricsExporter V X) (seconds : ℕ → V) (B : OrderedMap) where
  open B use {get_key}

  -- Recordings handed to the registry in turn.
  unfoldable pub emit_each : MetricsRegistry → List (MetricRecording V) → X → X
  emit_each r [] x = x
  emit_each r (m ∷ ms) x = emit_each r ms (emit_metric exporter m r x).0

  emit_each-append :
      (r : MetricsRegistry) (ms ns : List (MetricRecording V)) (x : X)
      → emit_each r (ms ++ ns) x ≡ emit_each r ns (emit_each r ms x)
  unfolding emit_each
  emit_each-append r [] ns x = refl
  emit_each-append r (m ∷ ms) ns x = emit_each-append r ms ns (emit_metric exporter m r x).0

  measured : ProxyHandler B → ℕ → ℕ → Option RequestBookmark → List (MetricRecording V)
  measured h now stamp none = []
  measured h now stamp (some b) =
      if is_some (get b.method h.metered_requests)
        && is_metric_enabled request_duration h.metrics_registry
      then record {
        name = request_duration;
        timestamp = stamp;
        value = seconds (now - b.request_time);
        tags = (codes "method", b.method) ∷ [];
      }
        ∷ []
      else []

  answer :
      ProxyHandler B → List Event → ℕ → ℕ → Option Bytes → Option Bytes → List (MetricRecording V)
  unfolding measured
  answer h es now stamp (some id) none = measured h now stamp (pending id es)
  answer h es now stamp _ _ = []

  -- What one event has measured, behind the history `es`: a response, the time since its request.
  pub observe : ProxyHandler B → List Event → Event → List (MetricRecording V)
  unfolding answer
  observe h es (from_server now stamp (message m raw)) = answer h es now stamp m.id m.method
  observe h es _ = []

  -- All that a history has measured, in order of time.
  pub observations : ProxyHandler B → List Event → List (MetricRecording V)
  observations h [] = []
  observations h (e ∷ es) = observations h es ++ observe h es e

  -- The fields of the handler that no event changes.
  abbrev IsSteady : ProxyHandler B → ProxyHandler B → Type 0
  IsSteady h k =
      (k.metered_requests ≡ h.metered_requests) × (k.metrics_registry ≡ h.metrics_registry)

  respond-IsSteady :
      (now stamp : ℕ) (id : Bytes) (s : Session exporter seconds B)
      → IsSteady s.handler (respond exporter seconds B now stamp id s).handler
  unfolding respond
  respond-IsSteady now stamp id s = ground arith

  match_response-IsSteady :
      (now stamp : ℕ) (id method : Option Bytes) (s : Session exporter seconds B)
      → IsSteady s.handler (match_response exporter seconds B now stamp id method s).handler
  unfolding match_response
  match_response-IsSteady now stamp (some id) none s = respond-IsSteady now stamp id s
  match_response-IsSteady now stamp (some id) (some method) s = (refl, refl)
  match_response-IsSteady now stamp none method s = (refl, refl)

  dispose-IsSteady :
      (now : ℕ) (id method : Option Bytes) (raw : Bytes) (s : Session exporter seconds B)
      → IsSteady s.handler
          (dispose exporter seconds B raw (note_request exporter seconds B now id method s)).handler
        × ((dispose exporter seconds B raw
              (note_request exporter seconds B now id method s)).exporter_state
            ≡ s.exporter_state)
  unfolding dispose note_request
  dispose-IsSteady now id method raw s = ground arith

  step-IsSteady :
      (e : Event) (s : Session exporter seconds B)
      → IsSteady s.handler (step exporter seconds B e s).handler
  unfolding step
  step-IsSteady (from_client now (message m raw)) s = (dispose-IsSteady now m.id m.method raw s).0
  step-IsSteady (from_client now stream_end) s = (refl, refl)
  step-IsSteady (from_client now read_error) s = (refl, refl)
  step-IsSteady (from_server now stamp (message m raw)) s =
      match_response-IsSteady now stamp m.id m.method s
  step-IsSteady (from_server now stamp stream_end) s = (refl, refl)
  step-IsSteady (from_server now stamp read_error) s = (refl, refl)
  step-IsSteady client_shutdown s = (refl, refl)
  step-IsSteady server_shutdown s = (refl, refl)

  Trace-IsSteady :
      {s t : Session exporter seconds B} {es : List Event}
      → Trace exporter seconds B s es t
      → IsSteady s.handler t.handler
  Trace-IsSteady start = (refl, refl)
  Trace-IsSteady (taken {t = u} e tr listening) =
      let (a, b) = Trace-IsSteady tr in let (c, d) = step-IsSteady e u in (c ∙ a, d ∙ b)

  is_metered_steady :
      (b : RequestBookmark) (h k : ProxyHandler B)
      → IsSteady h k
      → is_metered exporter seconds B b k ≡ is_metered exporter seconds B b h
  unfolding is_metered
  is_metered_steady b h k steady = ground arith

  is_metered_lem :
      (b : RequestBookmark) (h : ProxyHandler B)
      → is_metered exporter seconds B b h ≡ (
          is_some (get b.method h.metered_requests)
          && is_metric_enabled request_duration h.metrics_registry)
  unfolding is_metered
  is_metered_lem b h = refl

  -- A response hands the recording of its own request to the registry, if that is one to meter.
  respond_exporter :
      (now stamp : ℕ) (id : Bytes) (h : ProxyHandler B) (s : Session exporter seconds B)
      (p : Option RequestBookmark)
      → IsSteady h s.handler
      → get_key id s.handler.request_buffer ≡ p
      → (respond exporter seconds B now stamp id s).exporter_state
        ≡ emit_each h.metrics_registry (measured h now stamp p) s.exporter_state
  unfolding measured emit_each
  respond_exporter now stamp id h s none steady e = unfold respond in ground arith
  respond_exporter now stamp id h s (some b) steady e =
      unfold respond duration_recording new_metric_recording new_tag in
      ground (arith, is_metered_lem b h, is_metered_steady b h s.handler steady)

  match_response_exporter :
      (now stamp : ℕ) (id method : Option Bytes) (h : ProxyHandler B) (es : List Event)
      (s : Session exporter seconds B)
      → IsSteady h s.handler
      → ((k : Bytes) → get_key k s.handler.request_buffer ≡ pending k es)
      → (match_response exporter seconds B now stamp id method s).exporter_state
        ≡ emit_each h.metrics_registry (answer h es now stamp id method) s.exporter_state
  unfolding match_response answer emit_each
  match_response_exporter now stamp (some id) none h es s steady buffer =
      respond_exporter now stamp id h s (pending id es) steady (buffer id)
  match_response_exporter now stamp (some id) (some method) h es s steady buffer = refl
  match_response_exporter now stamp none method h es s steady buffer = refl

  step_exporter :
      (e : Event) (h : ProxyHandler B) (es : List Event) (s : Session exporter seconds B)
      → IsSteady h s.handler
      → ((k : Bytes) → get_key k s.handler.request_buffer ≡ pending k es)
      → (step exporter seconds B e s).exporter_state
        ≡ emit_each h.metrics_registry (observe h es e) s.exporter_state
  unfolding step observe emit_each
  step_exporter (from_client now (message m raw)) h es s steady buffer =
      (dispose-IsSteady now m.id m.method raw s).1
  step_exporter (from_client now stream_end) h es s steady buffer = refl
  step_exporter (from_client now read_error) h es s steady buffer = refl
  step_exporter (from_server now stamp (message m raw)) h es s steady buffer =
      match_response_exporter now stamp m.id m.method h es s steady buffer
  step_exporter (from_server now stamp stream_end) h es s steady buffer = refl
  step_exporter (from_server now stamp read_error) h es s steady buffer = refl
  step_exporter client_shutdown h es s steady buffer = refl
  step_exporter server_shutdown h es s steady buffer = refl

  -- From an empty request buffer, whatever the interleaving of client and server, what reaches the
  -- registry is exactly what the history has measured: for each response to a request that waits,
  -- once and in order, if its method is one to meter and the metric is enabled, one recording of
  -- the time since that request, tagged with its method.
  pub Trace-observations :
      {s t : Session exporter seconds B} {es : List Event}
      → ((k : Bytes) → get_key k s.handler.request_buffer ≡ none)
      → Trace exporter seconds B s es t
      → t.exporter_state
        ≡ emit_each s.handler.metrics_registry (observations s.handler es) s.exporter_state
  unfolding observations
  Trace-observations fresh start = unfold emit_each in refl
  Trace-observations {s} fresh (taken {es} {t = u} e tr listening) =
      step_exporter e s.handler es u (Trace-IsSteady tr)
        (λ k. Trace-pending exporter seconds B k fresh tr)
      ∙ ap (emit_each s.handler.metrics_registry (observe s.handler es e))
          (Trace-observations fresh tr)
      ∙ sym (
          emit_each-append s.handler.metrics_registry (observations s.handler es)
            (observe s.handler es e) s.exporter_state)
