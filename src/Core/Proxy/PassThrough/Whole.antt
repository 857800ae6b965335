-- ===== src/Core/Proxy/PassThrough/Whole.antt =====
-- The server's bytes on the whole way to the client in internal/core/proxy.go: in command mode, and
-- across the switch.
use lspwatch.Common.{
  ℕ, Bool, ◌≤◌, ◌≡◌, refl, sym, ap, ◌∙◌, false, some, Option, List, [], ◌∷◌, ◌++◌, map, append-nil,
  append_assoc, subst, Bytes, codes, same, length, All, concat, concat-append, none, arith,
}
use lspwatch.Telemetry.{MetricsExporter}
use lspwatch.Io.Text.{at_eof}
use lspwatch.Io.Diverter.{SingleUseDiverterPipe}
use lspwatch.Io.Diverter.Switch.{held_chunk}
use lspwatch.Core.Buffer.{OrderedMap}
use lspwatch.Core.Proxy.{LspServerMessage}
use lspwatch.Core.Proxy.Listeners.{ReadEvent, Event, Session, Trace}
use lspwatch.Core.Proxy.Reading.{Turn, rounds, raw_bodies, read_events}
use lspwatch.Core.Proxy.Reading.Framing.{Wire, on_wire, IsWellFramed}
use lspwatch.Core.Proxy.Transparency.{server_reads, to_client_transparent}
use lspwatch.Core.Proxy.PassThrough.{Relay, RelayEvent, Stage, new_relay, relay_step, run_relay}
use lspwatch.Core.Proxy.PassThrough.Fits.{in_hand, IsRelaying, StageFits, relay_step-IsRelaying}
use lspwatch.Core.Proxy.PassThrough.Order.{
  InTime, FreeHand, Arranged, placed, new_relay-IsRelaying, new_relay-Arranged, run_relay-Arranged,
  run_relay_order,
}

stage_silent :
    (s : Stage) (p : SingleUseDiverterPipe)
    → StageFits s p
    → s ≡ Stage.not_yet
    → (p.first_closed ≡ false) × (p.switched ≡ false)
stage_silent s p f e = ground arith

-- Without listeners nothing is closed and nothing switched.
silent :
    (r : Relay)
    → IsRelaying r
    → r.listens ≡ false
    → (r.pipe.lost ≡ []) × (r.pipe.second ≡ []) × (r.pipe.dropped ≡ []) × (r.unwritten ≡ [])
silent r v off =
    let (stage, opened) = v.switch_fits.1 off in
    let (first, unswitched) = stage_silent r.stage r.pipe v.switch_fits.0 stage in
    let (second, dropped) = v.phased.no_second unswitched in
    (v.phased.no_lost first, second, dropped, v.pass_fits.1 opened)

relay_step-listens : (e : RelayEvent) (r : Relay) → (relay_step e r).listens ≡ r.listens
unfolding relay_step
relay_step-listens e r = ground arith

FreeHand-silent : (e : RelayEvent) (r : Relay) → r.pipe.second ≡ [] → FreeHand e r
FreeHand-silent e r empty = ground (arith, empty)

-- Where no listener runs, none forwards too early, and none at all.
run_silent :
    (es : List RelayEvent) (r : Relay)
    → IsRelaying r
    → r.listens ≡ false
    → InTime es r × ((run_relay es r).0.listens ≡ false)
unfolding InTime run_relay
run_silent [] r v off = (tt, off)
run_silent (e ∷ es) r v off =
    let (o, off') =
      run_silent es (relay_step e r) (relay_step-IsRelaying e r v) (relay_step-listens e r ∙ off) in
    ((FreeHand-silent e r (silent r v off).1, o), off')

silent_forwards : (r : Relay) → IsRelaying r → Arranged r → r.listens ≡ false → r.forwarded ≡ []
silent_forwards r v a off =
    let (stage, opened) = v.switch_fits.1 off in
    let first = (stage_silent r.stage r.pipe v.switch_fits.0 stage).0 in ground (arith, a.0, first)

placed_silent :
    (r : Relay)
    → r.pipe.lost ≡ []
    → r.pipe.second ≡ []
    → r.pipe.dropped ≡ []
    → r.unwritten ≡ []
    → placed r ≡ (r.passed ++ in_hand r.passing) ++ held_chunk r.pipe.held
placed_silent r lost second dropped unwritten = rw (lost, second, dropped, unwritten) refl

-- In command mode, whatever happens, the client has got the chunks that were taken from the server
-- in order, but for at most two on the way: one in the hands of the pass-through, and one in those
-- of the diverter pipe.
pub command_transparent :
    (es : List RelayEvent)
    → let t = (run_relay es (new_relay (codes "command"))).0 in
      t.to_client ++ (in_hand t.passing ++ held_chunk t.pipe.held)
      ≡ (run_relay es (new_relay (codes "command"))).1
command_transparent es =
    let start = new_relay (codes "command") in
    let fits = new_relay-IsRelaying (codes "command") in
    let (o, off) = run_silent es start fits (unfold new_relay same in refl) in
    let t = (run_relay es start).0 in
    let (v, a) = run_relay-Arranged es start o fits (new_relay-Arranged (codes "command")) in
    let (lost, second, dropped, unwritten) = silent t v off in
    let (order, whole) = run_relay_order (codes "command") es o in
    ap (λ l. l ++ (in_hand t.passing ++ held_chunk t.pipe.held))
      (order ∙ ap (λ l. t.passed ++ l) (silent_forwards t v a off) ∙ append-nil t.passed)
    ∙ sym (append_assoc t.passed (in_hand t.passing) (held_chunk t.pipe.held))
    ∙ sym (placed_silent t lost second dropped unwritten)
    ∙ whole

-- Nothing was lost, and nothing is on the way to either destination.
abbrev pub IsDelivered : Relay → Type 0
IsDelivered r =
    (r.unwritten ≡ [])
    × (r.pipe.lost ≡ [])
    × (r.pipe.dropped ≡ [])
    × (held_chunk r.pipe.held ≡ [])
    × (in_hand r.passing ≡ [])

delivered :
    (r : Relay) (taken : List Bytes)
    → IsDelivered r
    → r.to_client ≡ r.passed ++ r.forwarded
    → placed r ≡ taken
    → concat r.forwarded ≡ concat r.pipe.second
    → concat r.to_client ≡ concat taken
delivered r taken (unwritten, lost, dropped, held, hand) order whole same =
    ap concat order
    ∙ concat-append r.passed r.forwarded
    ∙ ap (λ l. concat r.passed ++ l) same
    ∙ sym (concat-append r.passed r.pipe.second)
    ∙ ap concat (all_written ∙ whole)
  where
    all_written : r.passed ++ r.pipe.second ≡ placed r
    all_written = rw (unwritten, lost, dropped, held, hand) (simp append-nil)

module _ {V X : Type 0} (exporter : MetricsExporter V X) (seconds : ℕ → V) (B : OrderedMap)
    {s t : Session exporter seconds B} {es : List Event} (clean : s.shutdown_message ≡ none)
    (run : Trace exporter seconds B s es t) where
  -- To the client the proxy is transparent across its switch of mode: when nothing was lost at the
  -- closing of a pipe and nothing is on the way, the pass-through was never behind a message that
  -- the listener forwarded, what came behind the switch is well-framed messages, and the listener
  -- has taken all of them, then the client has got exactly the bytes that were taken from the
  -- server.
  pub whole_transparent :
      (mode : Bytes) (rs : List RelayEvent) (r : Relay) (taken : List Bytes)
      (decode : Bytes → Option LspServerMessage) (ws : List Wire) (turns : List Turn)
      (finished : Bool) (later : List (ReadEvent LspServerMessage))
      → InTime rs (new_relay mode)
      → run_relay rs (new_relay mode) ≡ (r, taken)
      → IsDelivered r
      → r.forwarded ≡ t.to_client
      → concat r.pipe.second ≡ concat (map on_wire ws)
      → s.to_client ≡ []
      → All (IsWellFramed decode) ws
      → length ws ≤ rounds turns
      → read_events decode turns (record { bytes = concat (map on_wire ws); ending = at_eof })
        ≡ some (server_reads es ++ later, finished)
      → raw_bodies later ≡ []
      → concat r.to_client ≡ concat taken
  whole_transparent mode rs r taken decode ws turns finished later o q quiet same bytes fresh good
        enough read rest =
      let (order, whole) = run_relay_order mode rs o in
      delivered r taken quiet
        (subst (λ (p : Relay × List Bytes). p.0.to_client ≡ p.0.passed ++ p.0.forwarded) q order)
        (subst (λ (p : Relay × List Bytes). placed p.0 ≡ p.1) q whole)
        (ap concat same
          ∙ to_client_transparent exporter seconds B clean run decode ws turns finished later fresh
              good enough read rest
          ∙ sym bytes)
