-- ===== src/Core/Proxy/Forwarding.antt =====
-- What internal/core/proxy.go forwards between client and server, and what becomes of `exit`.
use lspwatch.Common.{
  ℕ, ◌≡◌, refl, sym, ap, ap₂, ◌∙◌, Bool, true, false, Option, none, some, List, [], ◌∷◌, ◌++◌,
  append-nil, append_assoc, if◌then◌else◌, Bytes, codes, same, arith,
}
use lspwatch.Telemetry.{MetricsExporter}
use lspwatch.Core.Buffer.{OrderedMap}
use lspwatch.Core.Proxy.{LspClientMessage}
use lspwatch.Core.Proxy.Listeners.{
  message, stream_end, read_error, Event, from_client, from_server, client_shutdown,
  server_shutdown, Session, respond, match_response, note_request, dispose, step, written,
  IsListening, Trace, start, taken,
}

-- An `exit` notification: a message with that method and no identifier.
unfoldable pub is_exit : LspClientMessage → Bool
is_exit m = elim m.id [
  | none ↦ elim m.method [ none ↦ false | some method ↦ same method (codes "exit") ]
  | some id ↦ false
]

-- The raw bytes of the server's messages, in order of time; a history has its newest event first.
unfoldable pub server_messages : List Event → List Bytes
server_messages [] = []
server_messages (from_server now stamp (message m raw) ∷ es) = server_messages es ++ raw ∷ []
server_messages (_ ∷ es) = server_messages es

-- The last `exit` notification of a history.
unfoldable pub last_exit : List Event → Option Bytes
last_exit [] = none
last_exit (from_client now (message m raw) ∷ es) =
    let before = last_exit es in if is_exit m then some raw else before
last_exit (_ ∷ es) = last_exit es

-- What the server is to get: the client's messages in order, each `exit` withheld, and the last
-- of these when the shutdown is confirmed.
unfoldable pub client_messages : List Event → List Bytes
unfolding last_exit
client_messages [] = []
client_messages (from_client now (message m raw) ∷ es) =
    let before = client_messages es in if is_exit m then before else before ++ raw ∷ []
client_messages (client_shutdown ∷ es) = client_messages es ++ written (last_exit es)
client_messages (_ ∷ es) = client_messages es

module _ {V X : Type 0} (exporter : MetricsExporter V X) (seconds : ℕ → V) (B : OrderedMap) where
  -- What the listeners have written to either side, and what is withheld.
  abbrev pub HasForwarded :
      Session exporter seconds B → List Event → Session exporter seconds B → Type 0
  HasForwarded s es t =
      (t.to_client ≡ s.to_client ++ server_messages es)
      × (t.to_server ≡ s.to_server ++ client_messages es)
      × (t.shutdown_message ≡ last_exit es)

  match_response_outputs :
      (now stamp : ℕ) (id method : Option Bytes) (s : Session exporter seconds B)
      → let t = match_response exporter seconds B now stamp id method s in
        (t.to_client ≡ s.to_client)
        × (t.to_server ≡ s.to_server)
        × (t.shutdown_message ≡ s.shutdown_message)
  unfolding match_response respond
  match_response_outputs now stamp id method s = ground arith

  dispose_outputs :
      (now : ℕ) (m : LspClientMessage) (raw : Bytes) (s : Session exporter seconds B)
      → let t =
          dispose exporter seconds B raw (note_request exporter seconds B now m.id m.method s) in
        (t.to_client ≡ s.to_client)
        × (t.to_server ≡ (if is_exit m then s.to_server else s.to_server ++ raw ∷ []))
        × (t.shutdown_message ≡ (if is_exit m then some raw else s.shutdown_message))
  unfolding dispose note_request is_exit
  dispose_outputs now m raw s = ground arith

  append_unless :
      (exit : Bool) (xs ys zs : List Bytes) (raw : Bytes)
      → xs ≡ ys ++ zs
      → (if exit then xs else xs ++ raw ∷ []) ≡ ys ++ (if exit then zs else zs ++ raw ∷ [])
  append_unless true xs ys zs raw e = e
  append_unless false xs ys zs raw e = ap (λ l. l ++ raw ∷ []) e ∙ append_assoc ys zs (raw ∷ [])

  HasForwarded-step :
      (e : Event) (s u : Session exporter seconds B) (es : List Event)
      → HasForwarded s es u
      → HasForwarded s (e ∷ es) (step exporter seconds B e u)
  unfolding step server_messages client_messages last_exit
  HasForwarded-step (from_client now (message m raw)) s u es (c, d, e) =
      let (c', d', e') = dispose_outputs now m raw u in
      (
        c' ∙ c,
        d' ∙ append_unless (is_exit m) u.to_server s.to_server (client_messages es) raw d,
        e' ∙ ground (arith, e),
      )
  HasForwarded-step (from_client now stream_end) s u es f = f
  HasForwarded-step (from_client now read_error) s u es f = f
  HasForwarded-step (from_server now stamp (message m raw)) s u es (c, d, e) =
      let (c', d', e') = match_response_outputs now stamp m.id m.method u in
      (
        ap (λ xs. xs ++ raw ∷ []) (c' ∙ c) ∙ append_assoc s.to_client (server_messages es) _,
        d' ∙ d,
        e' ∙ e,
      )
  HasForwarded-step (from_server now stamp stream_end) s u es f = f
  HasForwarded-step (from_server now stamp read_error) s u es f = f
  HasForwarded-step client_shutdown s u es (c, d, e) =
      (c, ap₂ (λ xs o. xs ++ written o) d e ∙ append_assoc s.to_server (client_messages es) _, e)
  HasForwarded-step server_shutdown s u es f = f

  -- Whatever the interleaving, the client has got every message of the server, unchanged and in
  -- order, and the server every message of the client but the `exit` notifications; of
  -- these the last is held back, and it is written when the client's listener is told to shut down.
  pub Trace-HasForwarded :
      {s t : Session exporter seconds B} {es : List Event}
      → s.shutdown_message ≡ none
      → Trace exporter seconds B s es t
      → HasForwarded s es t
  Trace-HasForwarded {s} clean start =
      unfold server_messages client_messages last_exit in
      (sym (append-nil s.to_client), sym (append-nil s.to_server), clean)
  Trace-HasForwarded {s} clean (taken {es} {t = u} e tr listening) =
      HasForwarded-step e s u es (Trace-HasForwarded clean tr)

  step_silent :
      (e : Event) (s : Session exporter seconds B)
      → s.client_listening ≡ false
      → IsListening exporter seconds B e s
      → let t = step exporter seconds B e s in
        (t.client_listening ≡ false) × (t.to_server ≡ s.to_server)
  unfolding step
  step_silent (from_client now e) s quiet listening = cc
  step_silent (from_server now stamp (message m raw)) s quiet listening =
      unfold match_response respond in ground arith
  step_silent (from_server now stamp stream_end) s quiet listening = (quiet, refl)
  step_silent (from_server now stamp read_error) s quiet listening = (quiet, refl)
  step_silent client_shutdown s quiet listening = cc
  step_silent server_shutdown s quiet listening = (quiet, refl)

  -- Nothing reaches the server once the client's listener has returned.
  Trace-silent :
      {s t : Session exporter seconds B} {es : List Event}
      → s.client_listening ≡ false
      → Trace exporter seconds B s es t
      → (t.client_listening ≡ false) × (t.to_server ≡ s.to_server)
  Trace-silent quiet start = (quiet, refl)
  Trace-silent quiet (taken {t = u} e tr listening) =
      let (q, kept) = Trace-silent quiet tr in
      let (q', kept') = step_silent e u q listening in (q', kept' ∙ kept)

  -- An `exit` after which the client closes its end before the shutdown is confirmed never reaches
  -- the server, whatever happens next: it is withheld, and the listener that would write it has
  -- returned.
  pub exit_lost :
      (now later : ℕ) (m : LspClientMessage) (raw : Bytes) (s : Session exporter seconds B)
      {t : Session exporter seconds B} {es : List Event}
      → is_exit m ≡ true
      → Trace exporter seconds B
          (step exporter seconds B
            (from_client later stream_end)
            (step exporter seconds B (from_client now (message m raw)) s))
          es
          t
      → t.to_server ≡ s.to_server
  unfolding step
  exit_lost now later m raw s exit tr =
      (Trace-silent refl tr).1 ∙ (dispose_outputs now m raw s).1 ∙ (rw exit)
