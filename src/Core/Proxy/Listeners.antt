-- ===== src/Core/Proxy/Listeners.antt =====
-- The bodies of the two `select` loops of internal/core/proxy.go, `listenClient` and
-- `listenServer`, as one step for each event that a loop takes. What blocks (the mode switch, the
-- shutdown channel's capacity) is left out here. A write that fails is only logged, so an output is
-- the list of writes.
use lspwatch.Common.{
  ℕ, suc, ◌-◌, ◌≡◌, Bool, true, false, ◌&&◌, Option, none, some, List, [], ◌∷◌, ◌++◌, if◌then◌else◌,
  is_some, Bytes, codes, same,
}
use lspwatch.Common.Dict.{get}
use lspwatch.Telemetry.{
  request_duration, MetricRecording, MetricsExporter, new_tag, new_metric_recording,
  is_metric_enabled, emit_metric,
}
use lspwatch.Io.Reader.{Read, ReadError, eof}
use lspwatch.Core.Buffer.{RequestBookmark, OrderedMap}
use lspwatch.Core.Proxy.{LspClientMessage, LspServerMessage, ProxyHandler}

-- What a listener makes of a result of `Read`: a message with its raw bytes, the end of the
-- input, or an error that it only logs.
pub data ReadEvent (M : Type 0) : Type 0 where
  message : M → (raw : Bytes) → ReadEvent M
  stream_end : ReadEvent M
  read_error : ReadEvent M

unfoldable pub classify_parts :
    {M : Type 0} → Option ReadError → Option M → Option Bytes → ReadEvent M
classify_parts (some eof) m raw = stream_end
classify_parts (some e) m raw = read_error
classify_parts none (some m) (some raw) = message m raw
classify_parts none m raw = read_error

unfoldable pub classify : {M : Type 0} → Read M → ReadEvent M
unfolding classify_parts
classify r = classify_parts r.result.error r.message r.result.raw_body

-- What a listener takes from its `select`. Times are in nanoseconds, `stamp` in seconds since 1970.
pub data Event : Type 0 where
  from_client : (now : ℕ) → ReadEvent LspClientMessage → Event
  from_server : (now stamp : ℕ) → ReadEvent LspServerMessage → Event
  client_shutdown : Event
  server_shutdown : Event

pub data Disposition : Type 0 where
  forwarded withheld : Disposition

abbrev pub written : Option Bytes → List Bytes
written none = []
written (some raw) = raw ∷ []

module _ {V X : Type 0} (exporter : MetricsExporter V X) (seconds : ℕ → V) (B : OrderedMap) where
  open B use {get_key, set_key, delete_key}

  -- The state that the two listeners share, with their outputs.
  pub record Session : Type 0 where
    pub handler : ProxyHandler B
    pub exporter_state : X
    pub to_server : List Bytes
    pub to_client : List Bytes
    pub shutdown_message : Option Bytes
    pub shutdown_requests : ℕ
    pub client_listening : Bool
    pub server_listening : Bool

  -- The recording for a response that comes `now` to the request that `b` remembers.
  unfoldable pub duration_recording : (now stamp : ℕ) → RequestBookmark → MetricRecording V
  unfolding new_metric_recording new_tag
  duration_recording now stamp b =
      new_metric_recording request_duration stamp (seconds (now - b.request_time))
        (new_tag (codes "method") b.method ∷ [])

  -- the two tests before a duration is metered
  unfoldable pub is_metered : RequestBookmark → ProxyHandler B → Bool
  unfolding get is_metric_enabled
  is_metered b h =
      is_some (get b.method h.metered_requests)
      && is_metric_enabled request_duration h.metrics_registry

  -- A response: its request is taken out of the buffer and, if it is one to meter, measured.
  unfoldable pub respond : (now stamp : ℕ) → Bytes → Session → Session
  respond now stamp id s =
      let h = s.handler in
      elim (get_key id h.request_buffer) [
        | none ↦ s
        | some b ↦ record s {
          handler = record h { request_buffer = (delete_key id h.request_buffer).0 };
          exporter_state =
              if is_metered b h
              then (emit_metric exporter (duration_recording now stamp b) h.metrics_registry
                  s.exporter_state).0
              else s.exporter_state;
        }
      ]

  -- `serverMessage.Id != nil && serverMessage.Method == nil`
  unfoldable pub match_response : (now stamp : ℕ) → Option Bytes → Option Bytes → Session → Session
  unfolding respond
  match_response now stamp (some id) none s = respond now stamp id s
  match_response now stamp id method s = s

  unfoldable pub forward_to_client : Bytes → Session → Session
  forward_to_client raw s = record s { to_client = s.to_client ++ raw ∷ [] }

  unfoldable pub on_server_event : (now stamp : ℕ) → ReadEvent LspServerMessage → Session → Session
  unfolding match_response forward_to_client
  on_server_event now stamp (message m raw) s =
      forward_to_client raw (match_response now stamp m.id m.method s)
  on_server_event now stamp stream_end s = record s {
    shutdown_requests = suc s.shutdown_requests;
    server_listening = false;
  }
  on_server_event now stamp read_error s = s

  -- A request is remembered; an `exit` notification is withheld; all else is forwarded.
  unfoldable pub note_request :
      (now : ℕ) → Option Bytes → Option Bytes → Session → Session × Disposition
  unfolding same
  note_request now (some id) (some method) s =
      let h = s.handler in
      let b : RequestBookmark = record { request_time = now; method = method } in
      (
        record s { handler = record h { request_buffer = (set_key id b h.request_buffer).0 } },
        forwarded,
      )
  note_request now none (some method) s =
      (s, if same method (codes "exit") then withheld else forwarded)
  note_request now id none s = (s, forwarded)

  unfoldable pub dispose : Bytes → Session × Disposition → Session
  dispose raw (s, forwarded) = record s { to_server = s.to_server ++ raw ∷ [] }
  dispose raw (s, withheld) = record s {
    shutdown_message = some raw;
    shutdown_requests = suc s.shutdown_requests;
  }

  unfoldable pub on_client_event : (now : ℕ) → ReadEvent LspClientMessage → Session → Session
  unfolding note_request dispose
  on_client_event now (message m raw) s = dispose raw (note_request now m.id m.method s)
  on_client_event now stream_end s = record s { client_listening = false }
  on_client_event now read_error s = s

  -- One round of a listener.
  unfoldable pub step : Event → Session → Session
  unfolding on_client_event on_server_event
  step (from_client now e) s = on_client_event now e s
  step (from_server now stamp e) s = on_server_event now stamp e s
  step client_shutdown s = record s {
    to_server = s.to_server ++ written s.shutdown_message;
    client_listening = false;
  }
  step server_shutdown s = record s { server_listening = false }

  -- A listener takes events until it returns.
  abbrev pub IsListening : Event → Session → Type 0
  IsListening (from_client now e) s = s.client_listening ≡ true
  IsListening (from_server now stamp e) s = s.server_listening ≡ true
  IsListening client_shutdown s = s.client_listening ≡ true
  IsListening server_shutdown s = s.server_listening ≡ true

  -- The events that the listeners have taken since `s`, in any interleaving, the newest first.
  pub data Trace (s : Session) : List Event → Session → Type 0 where
    start : Trace s [] s
    taken :
        {es : List Event} {t : Session} (e : Event)
        → Trace s es t
        → IsListening e t
        → Trace s (e ∷ es) (step e t)
