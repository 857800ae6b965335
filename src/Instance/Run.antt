-- ===== src/Instance/Run.antt =====
-- `Run` and `shutdownAndWait` of internal/lspwatch.go with the goroutines that they wait for: the
-- two listeners of internal/core/proxy.go, with the mode switch handshake and the channel of
-- shutdown requests (capacity 1), and the watcher's polling. A move is one step of one goroutine,
-- or a rendezvous of two on a channel without a buffer; a move that is not possible is `none`.
pub mod Order
pub mod Stuck
pub mod Calls
pub mod Submitting
pub mod Recording
use lspwatch.Common.{
  ◌≡◌, Bool, true, false, not, ◌&&◌, ◌||◌, Option, none, some, List, [], ◌∷◌, ◌++◌, if◌then◌else◌,
  Bytes, codes, same,
}

-- Where the goroutine of `Run` is.
pub data Main : Type 0 where
  looping : Main  -- in the `select` of `Run`
  starting : Main  -- has received the handshake, calls `exporter.Start`
  confirming : Main  -- in `ConfirmProxyMode`
  waiting_proxy : Main  -- in `proxyHandler.Wait`
  waiting_watcher : Main  -- in `serverWatcher.Wait`
  waiting_exporter : Main  -- in `exporter.Wait`
  finished : Main  -- behind it; what is left is `Release`, whose errors are only logged
  aborted : Main  -- os.Exit(1)

-- Where `listenClient` is.
pub data Client : Type 0 where
  selecting : Client
  offering : Client  -- at the first send of the handshake
  switching : Client  -- at the receive that ends the handshake
  handling : Client  -- behind the handshake, with a message
  raising : Client  -- in `raiseShutdownRequest`
  returned : Client

-- Where `listenServer` is.
pub data Server : Type 0 where
  serving : Server
  ending : Server  -- in `raiseShutdownRequest`
  gone : Server

pub data Exporter : Type 0 where
  idle started stopped : Exporter

-- A call of the exporter: by the loop, by `listenServer` with a duration, by the watcher with a
-- sample.
pub data ExporterCall : Type 0 where
  start_call proxy_emit watcher_emit shutdown_call : ExporterCall

pub record System : Type 0 where
  pub main : Main
  pub client : Client
  pub server : Server
  pub watching : Bool
  pub exporter : Exporter
  pub switched : Bool  -- `switchOnce` is done
  pub noted : Bool  -- a request was put into the buffer
  pub requested : Bool  -- `outgoingShutdown` is full
  pub shut_down : Bool  -- `incomingShutdown` of the proxy handler is closed
  pub exited : Bool  -- the process has exited
  pub calls : List ExporterCall  -- of the exporter, in order

pub data Move : Type 0 where
  client_message client_handles client_forwards client_exit client_raises client_end
        client_shutdown :
      Move
  server_emits server_end server_raises server_shutdown : Move
  process_exits watcher_samples watcher_returns : Move
  main_accepts exporter_starts exporter_fails main_confirms main_shutdown main_exit main_proxy_done
        main_watcher_done main_exporter_done :
      Move

-- `Start`: only the modes other than "command" have listeners.
unfoldable pub begin : Bytes → System
unfolding same
begin mode =
    let listens = not (same mode (codes "command")) in
    record {
      main = looping;
      client = if listens then selecting else returned;
      server = if listens then serving else gone;
      watching = true;
      exporter = idle;
      switched = false;
      noted = false;
      requested = false;
      shut_down = false;
      exited = false;
      calls = [];
    }

-- `listenClient`: a message, which the handshake precedes if it is the first
unfoldable pub take_message : Client → System → Option System
take_message selecting s = some (record s { client = if s.switched then handling else offering })
take_message _ s = none

-- the message is a request, which is remembered
unfoldable pub note : Client → System → Option System
note handling s = some (record s { client = selecting; noted = true })
note _ s = none

-- the message is neither a request nor `exit`
unfoldable pub pass_on : Client → System → Option System
pass_on handling s = some (record s { client = selecting })
pass_on _ s = none

-- the message is `exit`
unfoldable pub note_exit : Client → System → Option System
note_exit handling s = some (record s { client = raising })
note_exit _ s = none

unfoldable pub raise_client : Client → System → Option System
raise_client raising s =
    if s.requested then none else some (record s { client = selecting; requested = true })
raise_client _ s = none

-- the end of the input, or the shutdown
unfoldable pub leave_client : Bool → Client → System → Option System
leave_client true selecting s = some (record s { client = returned })
leave_client _ _ s = none

-- `listenServer`: a duration is emitted only for a request that was noted
unfoldable pub emit : Server → System → Option System
emit serving s = if s.noted then some (record s { calls = s.calls ++ proxy_emit ∷ [] }) else none
emit _ s = none

unfoldable pub end_server : Server → System → Option System
end_server serving s = some (record s { server = ending })
end_server _ s = none

unfoldable pub raise_server : Server → System → Option System
raise_server ending s =
    if s.requested then none else some (record s { server = gone; requested = true })
raise_server _ s = none

unfoldable pub leave_server : Bool → Server → System → Option System
leave_server true serving s = some (record s { server = gone })
leave_server _ _ s = none

-- the rendezvous on `modeSwitchHandshake`, there and back
unfoldable pub accept : Main → Client → System → Option System
accept looping offering s = some (record s { main = starting; client = switching })
accept _ _ s = none

unfoldable pub confirm : Main → Client → System → Option System
confirm confirming switching s =
    some (record s { main = looping; client = handling; switched = true })
confirm _ _ s = none

unfoldable pub start_exporter : Bool → Main → System → Option System
start_exporter true starting s =
    some (record s { main = confirming; exporter = started; calls = s.calls ++ start_call ∷ [] })
start_exporter false starting s = some (record s { main = aborted })
start_exporter _ _ s = none

-- a shutdown request is taken, and the proxy handler is told to shut down
unfoldable pub take_request : Main → System → Option System
take_request looping s =
    if s.requested then some (record s { requested = false; shut_down = true }) else none
take_request _ s = none

-- the process has exited: `shutdownAndWait` up to its first wait
unfoldable pub leave_loop : Main → System → Option System
leave_loop looping s =
    if s.exited then some (record s { main = waiting_proxy; shut_down = true }) else none
leave_loop _ s = none

unfoldable pub proxy_done : Main → Client → Server → System → Option System
proxy_done waiting_proxy returned gone s = some (record s { main = waiting_watcher })
proxy_done _ _ _ s = none

-- `Shutdown` of an exporter that does not run leaves it as it is.
abbrev pub after_shutdown : Exporter → Exporter
after_shutdown idle = idle
after_shutdown _ = stopped

-- the watcher has returned: `exporter.Shutdown`
unfoldable pub watcher_done : Main → System → Option System
watcher_done waiting_watcher s =
    if s.watching
    then none
    else some (record s {
      main = waiting_exporter;
      exporter = after_shutdown s.exporter;
      calls = s.calls ++ shutdown_call ∷ [];
    })
watcher_done _ s = none

-- `exporter.Wait` returns, when it does so: nothing here says that it must
unfoldable pub exporter_done : Main → System → Option System
exporter_done waiting_exporter s = some (record s { main = finished })
exporter_done _ s = none

-- the polling returns once the process has exited, or the watcher was shut down, which follows it
-- (it does so after `Run` has taken the exit, as the watcher holds its lock till then; here it may
-- be earlier)
unfoldable pub leave_watcher : System → Option System
leave_watcher s = if s.exited then some (record s { watching = false }) else none

-- a tick of the watcher, with a sample that it could take
unfoldable pub sample_server : System → Option System
sample_server s =
    if s.watching then some (record s { calls = s.calls ++ watcher_emit ∷ [] }) else none

unfoldable pub move : Move → System → Option System
unfolding sample_server take_message note pass_on note_exit raise_client leave_client emit
    end_server raise_server leave_server accept confirm start_exporter take_request leave_loop
    proxy_done watcher_done exporter_done leave_watcher
move client_message s = take_message s.client s
move client_handles s = note s.client s
move client_forwards s = pass_on s.client s
move client_exit s = note_exit s.client s
move client_raises s = raise_client s.client s
move client_end s = leave_client true s.client s
move client_shutdown s = leave_client s.shut_down s.client s
move server_emits s = emit s.server s
move server_end s = end_server s.server s
move server_raises s = raise_server s.server s
move server_shutdown s = leave_server s.shut_down s.server s
move process_exits s = some (record s { exited = true })
move watcher_samples s = sample_server s
move watcher_returns s = leave_watcher s
move main_accepts s = accept s.main s.client s
move exporter_starts s = start_exporter true s.main s
move exporter_fails s = start_exporter false s.main s
move main_confirms s = confirm s.main s.client s
move main_shutdown s = take_request s.main s
move main_exit s = leave_loop s.main s
move main_proxy_done s = proxy_done s.main s.client s.server s
move main_watcher_done s = watcher_done s.main s
move main_exporter_done s = exporter_done s.main s

-- Everything reachable by moves.
pub data Reached (s : System) : System → Type 0 where
  here : Reached s s
  moved : {t u : System} (m : Move) → Reached s t → move m t ≡ some u → Reached s u
