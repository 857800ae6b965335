-- ===== src/Core/Proxy/PassThrough.antt =====
-- The way of the server's bytes to the client in internal/core/proxy.go: `passThroughServerBytes`
-- up to the switch of mode, the listener behind it, and `switchToProxyModeOnce` between them, with
-- the diverter pipe. A step is one step of one goroutine, or a rendezvous of two; what is not
-- possible now is no step. The deferred function of `listenServer` is one step.
pub mod Fits
pub mod Alone
pub mod Order
pub mod Whole
pub mod Unseen
use lspwatch.Common.{
  Bool, true, false, not, ◌&&◌, List, [], ◌∷◌, ◌++◌, if◌then◌else◌, Bytes, codes, same,
}
use lspwatch.Io.Diverter.{
  SingleUseDiverterPipe, Held, offering_first, PipeEvent, chunk, source_error, look, first_takes,
  second_takes, give_up, close_first, close_second, switch, new_single_use_diverter_pipe, pipe_step,
  run_pipe, taken_from,
}

-- Where the goroutine of `passThroughServerBytes` is. It is `stopped` where there is none.
pub data Passing : Type 0 where
  reading : Passing
  writing : Bytes → Passing
  stopped : Passing

-- How far `switchToProxyModeOnce` has come.
pub data Stage : Type 0 where
  not_yet : Stage
  shaken : Stage  -- the handshake was sent
  closed : Stage  -- and the pass-through pipe closed
  over : Stage  -- and the diverter pipe switched

pub record Relay : Type 0 where
  pub pipe : SingleUseDiverterPipe
  pub listens : Bool  -- the listeners were started
  pub passing : Passing
  pub stage : Stage
  pub client_closed : Bool  -- the listener for the server has returned, and closed the client's end
  pub passed : List Bytes  -- what was written by the pass-through
  pub unwritten : List Bytes  -- what it could not write, as the client's end was closed
  pub forwarded : List Bytes  -- what was written by the listener
  pub to_client : List Bytes  -- both, in the order of the writes

pub data RelayEvent : Type 0 where
  source_chunk : Bytes → RelayEvent
  source_end diverter_looks diverter_gives_up : RelayEvent
  pass_reads pass_writes pass_ends : RelayEvent
  shake_hands close_pass_through switch_pipe : RelayEvent
  lsp_reads lsp_returns : RelayEvent
  forwards : Bytes → RelayEvent

-- `Start`
unfoldable pub new_relay : Bytes → Relay
unfolding same
new_relay mode = record {
  pipe = new_single_use_diverter_pipe;
  listens = not (same mode (codes "command"));
  passing = if same mode (codes "proxy") then stopped else reading;
  stage = not_yet;
  client_closed = false;
  passed = [];
  unwritten = [];
  forwarded = [];
  to_client = [];
}

-- `serverPassThroughReader.Read`
unfoldable pub read_offered : Passing → Held → Relay → Relay
read_offered reading (offering_first b) r =
    if r.pipe.first_closed
    then r
    else record r { pipe = pipe_step first_takes r.pipe; passing = writing b }
read_offered _ _ r = r

-- `os.Stdout.Write`
unfoldable pub write_passed : Passing → Relay → Relay
write_passed (writing b) r =
    if r.client_closed
    then record r { passing = reading; unwritten = r.unwritten ++ b ∷ [] }
    else record r {
      passing = reading;
      passed = r.passed ++ b ∷ [];
      to_client = r.to_client ++ b ∷ [];
    }
write_passed _ r = r

-- the `break` on the error of a closed pipe
unfoldable pub end_passing : Passing → Relay → Relay
end_passing reading r = if r.pipe.first_closed then record r { passing = stopped } else r
end_passing _ r = r

-- the steps of `switchToProxyModeOnce`
unfoldable pub shake : Stage → Relay → Relay
shake not_yet r = if r.listens then record r { stage = shaken } else r
shake _ r = r

unfoldable pub close_passing : Stage → Relay → Relay
close_passing shaken r = record r { pipe = pipe_step close_first r.pipe; stage = closed }
close_passing _ r = r

unfoldable pub switch_over : Stage → Relay → Relay
switch_over closed r = record r { pipe = pipe_step switch r.pipe; stage = over }
switch_over _ r = r

-- The listener for the server forwards a message; it has none before its reader has taken a chunk,
-- and none once it has returned.
unfoldable pub forward : Bytes → List Bytes → Relay → Relay
forward raw [] r = r
forward raw (b ∷ bs) r =
    if r.client_closed
    then r
    else record r { forwarded = r.forwarded ++ raw ∷ []; to_client = r.to_client ++ raw ∷ [] }

-- the deferred function: it closes the server's output, so that the source has an error, the
-- client's end, and both ends of the pipe that its reader reads
unfoldable pub return_listener : Relay → Relay
return_listener r =
    if r.listens then record r { pipe = pipe_step close_second r.pipe; client_closed = true } else r

-- A chunk of the server, whose output is not closed.
unfoldable pub take_chunk : Bytes → Relay → Relay
take_chunk b r = if r.client_closed then r else record r { pipe = pipe_step (chunk b) r.pipe }

unfoldable pub relay_step : RelayEvent → Relay → Relay
unfolding read_offered write_passed end_passing shake close_passing switch_over forward
    return_listener take_chunk
relay_step (source_chunk b) r = take_chunk b r
relay_step source_end r = record r { pipe = pipe_step source_error r.pipe }
relay_step diverter_looks r = record r { pipe = pipe_step look r.pipe }
relay_step diverter_gives_up r = record r { pipe = pipe_step give_up r.pipe }
relay_step pass_reads r = read_offered r.passing r.pipe.held r
relay_step pass_writes r = write_passed r.passing r
relay_step pass_ends r = end_passing r.passing r
relay_step shake_hands r = shake r.stage r
relay_step close_pass_through r = close_passing r.stage r
relay_step switch_pipe r = switch_over r.stage r
relay_step lsp_reads r = record r { pipe = pipe_step second_takes r.pipe }
relay_step lsp_returns r = return_listener r
relay_step (forwards raw) r = forward raw r.pipe.second r

-- What of an event is taken from the server.
unfoldable pub relay_taken : RelayEvent → Relay → List Bytes
relay_taken (source_chunk b) r = if r.client_closed then [] else taken_from (chunk b) r.pipe.held
relay_taken _ r = []

-- A run, with the chunks that it took.
unfoldable pub run_relay : List RelayEvent → Relay → Relay × List Bytes
run_relay [] r = (r, [])
run_relay (e ∷ es) r = let (t, bs) = run_relay es (relay_step e r) in (t, relay_taken e r ++ bs)
