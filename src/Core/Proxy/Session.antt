-- ===== src/Core/Proxy/Session.antt =====
-- The listeners of internal/core/proxy.go against the history of the events that they took: the
-- request buffer, the metrics that are emitted.
use lspwatch.Common.{
  ℕ, ◌≡◌, refl, ap, ◌∙◌, Option, none, some, List, [], ◌∷◌, if◌then◌else◌, Bytes, same, same_iff,
  arith,
}
use lspwatch.Telemetry.{MetricsExporter}
use lspwatch.Core.Buffer.{RequestBookmark, OrderedMap}
use lspwatch.Core.Proxy.{ProxyHandler}
use lspwatch.Core.Proxy.Listeners.{
  message, stream_end, read_error, Event, from_client, from_server, client_shutdown,
  server_shutdown, Session, respond, match_response, note_request, dispose, Disposition, forwarded,
  withheld, step, Trace, start, taken,
}

-- What an event means for the request with a given identifier.
pub data Effect : Type 0 where
  asked : RequestBookmark → Effect
  answered : Effect
  unrelated : Effect

request_effect : Bytes → ℕ → Option Bytes → Option Bytes → Effect
request_effect id now (some j) (some method) =
    if same j id then asked (record { request_time = now; method = method }) else unrelated
request_effect id now _ _ = unrelated

response_effect : Bytes → Option Bytes → Option Bytes → Effect
response_effect id (some j) none = if same j id then answered else unrelated
response_effect id _ _ = unrelated

pub effect : Bytes → Event → Effect
unfolding request_effect response_effect
effect id (from_client now (message m raw)) = request_effect id now m.id m.method
effect id (from_server now stamp (message m raw)) = response_effect id m.id m.method
effect id _ = unrelated

abbrev after_effect : Effect → Option RequestBookmark → Option RequestBookmark
after_effect (asked b) before = some b
after_effect answered before = none
after_effect unrelated before = before

-- The request that waits for a response after a history, newest event first: the last one with the
-- identifier, unless it was answered.
pub pending : Bytes → List Event → Option RequestBookmark
pending id [] = none
pending id (e ∷ es) = after_effect (effect id e) (pending id es)

module _ {V X : Type 0} (exporter : MetricsExporter V X) (seconds : ℕ → V) (B : OrderedMap) where
  open B use {get_key, get-set, get-delete}

  respond_buffer :
      (now stamp : ℕ) (j id : Bytes) (s : Session exporter seconds B)
      → get_key id (respond exporter seconds B now stamp j s).handler.request_buffer
        ≡ (if same j id then none else get_key id s.handler.request_buffer)
  unfolding respond
  respond_buffer now stamp j id s =
      ground (arith, get-delete j id s.handler.request_buffer, same_iff j id)

  match_response_buffer :
      (now stamp : ℕ) (j method : Option Bytes) (id : Bytes) (s : Session exporter seconds B)
      → get_key id (match_response exporter seconds B now stamp j method s).handler.request_buffer
        ≡ after_effect (response_effect id j method) (get_key id s.handler.request_buffer)
  unfolding match_response response_effect
  match_response_buffer now stamp (some j) none id s =
      respond_buffer now stamp j id s ∙ ground arith
  match_response_buffer now stamp none method id s = refl
  match_response_buffer now stamp (some j) (some method) id s = refl

  note_request_buffer :
      (now : ℕ) (j method : Option Bytes) (id : Bytes) (s : Session exporter seconds B)
      → get_key id (note_request exporter seconds B now j method s).0.handler.request_buffer
        ≡ after_effect (request_effect id now j method) (get_key id s.handler.request_buffer)
  unfolding note_request request_effect
  note_request_buffer now (some j) (some method) id s =
      get-set j id _ s.handler.request_buffer ∙ ground arith
  note_request_buffer now none none id s = refl
  note_request_buffer now none (some method) id s = refl
  note_request_buffer now (some j) none id s = refl

  dispose_handler :
      (raw : Bytes) (p : Session exporter seconds B × Disposition)
      → (dispose exporter seconds B raw p).handler ≡ p.0.handler
  unfolding dispose
  dispose_handler raw (s, forwarded) = refl
  dispose_handler raw (s, withheld) = refl

  -- One event changes what the buffer says of an identifier by its effect.
  step_buffer :
      (e : Event) (id : Bytes) (s : Session exporter seconds B)
      → get_key id (step exporter seconds B e s).handler.request_buffer
        ≡ after_effect (effect id e) (get_key id s.handler.request_buffer)
  unfolding step effect
  step_buffer (from_client now (message m raw)) id s =
      ap (λ (h : ProxyHandler B). get_key id h.request_buffer)
        (dispose_handler raw (note_request exporter seconds B now m.id m.method s))
      ∙ note_request_buffer now m.id m.method id s
  step_buffer (from_client now stream_end) id s = refl
  step_buffer (from_client now read_error) id s = refl
  step_buffer (from_server now stamp (message m raw)) id s =
      match_response_buffer now stamp m.id m.method id s
  step_buffer (from_server now stamp stream_end) id s = refl
  step_buffer (from_server now stamp read_error) id s = refl
  step_buffer client_shutdown id s = refl
  step_buffer server_shutdown id s = refl

  -- The request buffer is the history's: at any moment it holds, under an identifier, the last
  -- request with that identifier that no response has followed, with the time at which it came; and
  -- under no other. Events of client and server may interleave in any way.
  pub Trace-pending :
      {s t : Session exporter seconds B} {es : List Event} (id : Bytes)
      → ((k : Bytes) → get_key k s.handler.request_buffer ≡ none)
      → Trace exporter seconds B s es t
      → get_key id t.handler.request_buffer ≡ pending id es
  unfolding pending
  Trace-pending id fresh start = fresh id
  Trace-pending id fresh (taken {t = u} e tr listening) =
      step_buffer e id u ∙ ap (after_effect (effect id e)) (Trace-pending id fresh tr)
