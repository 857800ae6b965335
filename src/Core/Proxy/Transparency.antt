-- ===== src/Core/Proxy/Transparency.antt =====
-- What the peers of internal/core/proxy.go see of each other: from the bytes of one to those of the
-- other.
use lspwatch.Common.{
  ℕ, Bool, ◌≤◌, ◌≡◌, refl, sym, ap, subst, ◌∙◌, false, none, some, Option, List, [], ◌∷◌, ◌++◌, map,
  append-nil, Bytes, length, All, concat, IsWithin, IsWithin-append, arith,
}
use lspwatch.Telemetry.{MetricsExporter}
use lspwatch.Io.Text.{Stream, at_eof}
use lspwatch.Core.Buffer.{OrderedMap}
use lspwatch.Core.Proxy.{LspClientMessage, LspServerMessage}
use lspwatch.Core.Proxy.Listeners.{
  ReadEvent, message, stream_end, read_error, Event, from_client, from_server, client_shutdown,
  server_shutdown, Session, Trace, written,
}
use lspwatch.Core.Proxy.Forwarding.{
  is_exit, server_messages, client_messages, last_exit, Trace-HasForwarded,
}
use lspwatch.Core.Proxy.Reading.{Turn, rounds, raw_bodies, read_events, raw_bodies-read_events}
use lspwatch.Core.Proxy.Reading.Framing.{Wire, on_wire, IsWellFramed, read_events-on_wire}

-- What the listener for the server took of its reader in a history, in order of time.
unfoldable pub server_reads : List Event → List (ReadEvent LspServerMessage)
server_reads [] = []
server_reads (from_server now stamp e ∷ es) = server_reads es ++ e ∷ []
server_reads (_ ∷ es) = server_reads es

unfoldable pub client_reads : List Event → List (ReadEvent LspClientMessage)
client_reads [] = []
client_reads (from_client now e ∷ es) = client_reads es ++ e ∷ []
client_reads (_ ∷ es) = client_reads es

module _ {M : Type 0} where
  raw_bodies-append :
      (es fs : List (ReadEvent M)) → raw_bodies (es ++ fs) ≡ raw_bodies es ++ raw_bodies fs
  unfolding raw_bodies
  raw_bodies-append [] fs = refl
  raw_bodies-append (message m raw ∷ es) fs = ap (λ l. raw ∷ l) (raw_bodies-append es fs)
  raw_bodies-append (stream_end ∷ es) fs = raw_bodies-append es fs
  raw_bodies-append (read_error ∷ es) fs = raw_bodies-append es fs

raw_bodies-server_reads : (es : List Event) → raw_bodies (server_reads es) ≡ server_messages es
unfolding server_reads server_messages raw_bodies
raw_bodies-server_reads [] = refl
raw_bodies-server_reads (from_server now stamp (message m raw) ∷ es) =
    raw_bodies-append (server_reads es) (message m raw ∷ [])
    ∙ ap (λ l. l ++ raw ∷ []) (raw_bodies-server_reads es)
raw_bodies-server_reads (from_server now stamp stream_end ∷ es) =
    raw_bodies-append (server_reads es) (stream_end ∷ [])
    ∙ append-nil _
    ∙ raw_bodies-server_reads es
raw_bodies-server_reads (from_server now stamp read_error ∷ es) =
    raw_bodies-append (server_reads es) (read_error ∷ [])
    ∙ append-nil _
    ∙ raw_bodies-server_reads es
raw_bodies-server_reads (from_client now e ∷ es) = raw_bodies-server_reads es
raw_bodies-server_reads (client_shutdown ∷ es) = raw_bodies-server_reads es
raw_bodies-server_reads (server_shutdown ∷ es) = raw_bodies-server_reads es

-- No message among some reads is an `exit` notification.
abbrev pub HasNoExit : List (ReadEvent LspClientMessage) → Type 0
HasNoExit [] = Unit
HasNoExit (message m raw ∷ es) = (is_exit m ≡ false) × HasNoExit es
HasNoExit (stream_end ∷ es) = HasNoExit es
HasNoExit (read_error ∷ es) = HasNoExit es

HasNoExit-append :
    (es : List (ReadEvent LspClientMessage)) (e : ReadEvent LspClientMessage)
    → HasNoExit (es ++ e ∷ [])
    → HasNoExit es × HasNoExit (e ∷ [])
HasNoExit-append [] e h = (tt, h)
HasNoExit-append (message m raw ∷ es) e (one, h) =
    let (all, last) = HasNoExit-append es e h in ((one, all), last)
HasNoExit-append (stream_end ∷ es) e h = HasNoExit-append es e h
HasNoExit-append (read_error ∷ es) e h = HasNoExit-append es e h

raw_bodies-client_reads :
    (es : List Event)
    → HasNoExit (client_reads es)
    → (client_messages es ≡ raw_bodies (client_reads es)) × (last_exit es ≡ none)
unfolding client_reads client_messages last_exit raw_bodies
raw_bodies-client_reads [] h = (refl, refl)
raw_bodies-client_reads (from_client now (message m raw) ∷ es) h =
    let (all, last) = HasNoExit-append (client_reads es) (message m raw) h in
    let (bodies, none_yet) = raw_bodies-client_reads es all in
    rw last.0 (
      ap (λ l. l ++ raw ∷ []) bodies
          ∙ sym (raw_bodies-append (client_reads es) (message m raw ∷ [])),
      none_yet,
    )
raw_bodies-client_reads (from_client now stream_end ∷ es) h =
    let (bodies, none_yet) =
      raw_bodies-client_reads es (HasNoExit-append (client_reads es) stream_end h).0 in
    (
      bodies ∙ sym (append-nil _) ∙ sym (raw_bodies-append (client_reads es) (stream_end ∷ [])),
      none_yet,
    )
raw_bodies-client_reads (from_client now read_error ∷ es) h =
    let (bodies, none_yet) =
      raw_bodies-client_reads es (HasNoExit-append (client_reads es) read_error h).0 in
    (
      bodies ∙ sym (append-nil _) ∙ sym (raw_bodies-append (client_reads es) (read_error ∷ [])),
      none_yet,
    )
raw_bodies-client_reads (from_server now stamp e ∷ es) h = raw_bodies-client_reads es h
raw_bodies-client_reads (client_shutdown ∷ es) h =
    let (bodies, none_yet) = raw_bodies-client_reads es h in
    (ap (λ o. client_messages es ++ written o) none_yet ∙ append-nil _ ∙ bodies, none_yet)
raw_bodies-client_reads (server_shutdown ∷ es) h = raw_bodies-client_reads es h

module _ {V X : Type 0} (exporter : MetricsExporter V X) (seconds : ℕ → V) (B : OrderedMap)
    {s t : Session exporter seconds B} {es : List Event} (clean : s.shutdown_message ≡ none)
    (run : Trace exporter seconds B s es t) where
  to_client_reads : s.to_client ≡ [] → t.to_client ≡ raw_bodies (server_reads es)
  to_client_reads fresh =
      (Trace-HasForwarded exporter seconds B clean run).0
      ∙ ap (λ l. l ++ server_messages es) fresh
      ∙ sym (raw_bodies-server_reads es)

  -- Whatever the server's bytes, and however they end: what the client has got stands in them, in
  -- this order and without overlaps, no matter how many results were handed over to the listener,
  -- and how far it has come in them.
  pub to_client-IsWithin :
      (decode : Bytes → Option LspServerMessage) (stream : Stream) (turns : List Turn)
      (finished : Bool) (later : List (ReadEvent LspServerMessage))
      → s.to_client ≡ []
      → read_events decode turns stream ≡ some (server_reads es ++ later, finished)
      → IsWithin t.to_client stream.bytes
  to_client-IsWithin decode stream turns finished later fresh q =
      let (fs, q', within) = raw_bodies-read_events decode turns stream in
      let same_events : fs ≡ server_reads es ++ later = ground (arith, q, q') in
      IsWithin-append t.to_client (raw_bodies later) stream.bytes (
        subst (λ l. IsWithin l stream.bytes)
          (ap raw_bodies same_events
            ∙ raw_bodies-append (server_reads es) later
            ∙ ap (λ l. l ++ raw_bodies later) (sym (to_client_reads fresh)))
          within)

  -- To the client the listener is transparent: when well-framed messages have come from the server,
  -- and the listener has taken all messages that its reader made of them, the client has got
  -- exactly their bytes.
  pub to_client_transparent :
      (decode : Bytes → Option LspServerMessage) (ws : List Wire) (turns : List Turn)
      (finished : Bool) (later : List (ReadEvent LspServerMessage))
      → s.to_client ≡ []
      → All (IsWellFramed decode) ws
      → length ws ≤ rounds turns
      → read_events decode turns (record { bytes = concat (map on_wire ws); ending = at_eof })
        ≡ some (server_reads es ++ later, finished)
      → raw_bodies later ≡ []
      → concat t.to_client ≡ concat (map on_wire ws)
  to_client_transparent decode ws turns finished later fresh good enough q rest =
      let (fs, q', bodies) = read_events-on_wire decode ws turns good enough in
      let same_events : fs ≡ server_reads es ++ later = ground (arith, q, q') in
      ap concat (
        to_client_reads fresh
        ∙ sym (append-nil (raw_bodies (server_reads es)))
        ∙ ap (λ l. raw_bodies (server_reads es) ++ l) (sym rest)
        ∙ sym (raw_bodies-append (server_reads es) later)
        ∙ ap raw_bodies (sym same_events)
        ∙ bodies)

  -- To the server it is transparent as long as the client sends no `exit` notification: under the
  -- like conditions on the client's bytes, the server has got exactly these.
  pub to_server_transparent :
      (decode : Bytes → Option LspClientMessage) (ws : List Wire) (turns : List Turn)
      (finished : Bool)
      → s.to_server ≡ []
      → All (IsWellFramed decode) ws
      → length ws ≤ rounds turns
      → read_events decode turns (record { bytes = concat (map on_wire ws); ending = at_eof })
        ≡ some (client_reads es, finished)
      → HasNoExit (client_reads es)
      → concat t.to_server ≡ concat (map on_wire ws)
  to_server_transparent decode ws turns finished empty good enough q no_exit =
      let (fs, q', bodies) = read_events-on_wire decode ws turns good enough in
      let same_events : fs ≡ client_reads es = ground (arith, q, q') in
      let forwarded : t.to_server ≡ s.to_server ++ client_messages es =
        (Trace-HasForwarded exporter seconds B clean run).1 in
      ap concat (
        forwarded
        ∙ ap (λ l. l ++ client_messages es) empty
        ∙ (raw_bodies-client_reads es no_exit).0
        ∙ ap raw_bodies (sym same_events)
        ∙ bodies)
