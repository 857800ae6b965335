-- ===== src/Tests/Streams.antt =====
-- Instances for the proxy on whole streams of bytes.
use lspwatch.Common.{
  ℕ, zero, suc, ◌≤◌, true, ◌≡◌, refl, none, some, Option, List, [], ◌∷◌, map, Bytes, codes, same,
  length, concat, IsWithin, arith,
}
use lspwatch.Io.Text.{Stream, at_eof, broken}
use lspwatch.Io.Ids.{decimal, digits_onto}
use lspwatch.Io.Ids.Decimal.{decimal-IsDecimal}
use lspwatch.Io.Reader.{read}
use lspwatch.Core.Buffer.{dict_buffer}
use lspwatch.Core.Proxy.{LspClientMessage, LspServerMessage}
use lspwatch.Core.Proxy.Listeners.{
  ReadEvent, message, stream_end, read_error, Event, from_client, from_server, Session, step, Trace,
  start, taken, classify,
}
use lspwatch.Core.Proxy.Forwarding.{is_exit}
use lspwatch.Core.Proxy.Reading.{
  Turn, handed, cancelled, rounds, is_cancelled, HasEnd, raw_bodies, read_events,
  read_events-IsWithin, read_events_broken,
}
use lspwatch.Core.Proxy.Reading.Framing.{Wire, on_wire, IsWellFramed}
use lspwatch.Core.Proxy.Transparency.{
  server_reads, client_reads, to_client-IsWithin, to_server_transparent,
}
use lspwatch.Tests.Sessions.{keeping, whole_seconds, fresh}

abbrev pub notification : LspServerMessage
notification = record { id = none; method = some (codes "m"); result = none; error = none }

abbrev pub opened : LspClientMessage
opened = record { id = none; method = some (codes "m"); params = none }

abbrev pub from_the_server : Bytes → Option LspServerMessage
from_the_server payload = some notification

abbrev pub from_the_client : Bytes → Option LspClientMessage
from_the_client payload = some opened

abbrev pub wire : Wire
wire = record { digits = codes "2"; payload = codes "{}" }

abbrev pub bytes : Bytes
bytes = concat (map on_wire (wire ∷ []))

abbrev stream : Stream
stream = record { bytes = bytes; ending = at_eof }

pub wire-IsWellFramed : IsWellFramed from_the_server wire
wire-IsWellFramed = record {
  decimal = unfold decimal digits_onto in decimal-IsDecimal 2;
  filled = λ e. cc;
  small = omega arith;
  body = notification;
  decodes = refl;
}

client_wire-IsWellFramed : IsWellFramed from_the_client wire
client_wire-IsWellFramed = record {
  decimal = unfold decimal digits_onto in decimal-IsDecimal 2;
  filled = λ e. cc;
  small = omega arith;
  body = opened;
  decodes = refl;
}

-- Two results are handed over, and the goroutine is cancelled with a third.
abbrev pub two_results : List Turn
two_results = handed ∷ handed ∷ cancelled ∷ []

pub server_run :
    read_events from_the_server two_results stream
    ≡ some (message notification bytes ∷ stream_end ∷ [], true)
unfolding read_events read classify
server_run = refl

client_run :
    read_events from_the_client two_results stream
    ≡ some (message opened bytes ∷ stream_end ∷ [], true)
unfolding read_events read classify
client_run = refl

abbrev pub history : List Event
history =
    from_server 4 1 stream_end
    ∷ from_client 3 stream_end
    ∷ from_server 2 1 (message notification bytes)
    ∷ from_client 1 (message opened bytes)
    ∷ []

abbrev pub ended : Session keeping whole_seconds dict_buffer
ended = step keeping whole_seconds dict_buffer (from_server 4 1 stream_end) (
    step keeping whole_seconds dict_buffer (from_client 3 stream_end) (
      step keeping whole_seconds dict_buffer (from_server 2 1 (message notification bytes))
        (step keeping whole_seconds dict_buffer (from_client 1 (message opened bytes)) fresh)))

pub session : Trace keeping whole_seconds dict_buffer fresh history ended
unfolding step same
session =
    taken (from_server 4 1 stream_end)
      (taken (from_client 3 stream_end)
        (taken (from_server 2 1 (message notification bytes))
          (taken (from_client 1 (message opened bytes)) start refl) refl)
        refl)
      refl

-- The end comes again and again.
abbrev many_results : ℕ → List Turn
many_results zero = cancelled ∷ []
many_results (suc n) = handed ∷ many_results n

read_events-IsWithin_example :
    (es : List (ReadEvent LspServerMessage)) × (read_events from_the_server (many_results 40) stream
      ≡ some (es, is_cancelled (many_results 40)))
    × (length es ≡ rounds (many_results 40))
    × HasEnd es
    × IsWithin (raw_bodies es) bytes
read_events-IsWithin_example =
    read_events-IsWithin from_the_server (many_results 40) stream refl
      (unfold rounds in omega arith)

abbrev broken_stream : Stream
broken_stream = record { bytes = bytes; ending = broken 5 }

broken_run :
    read_events from_the_server (many_results 3) broken_stream
    ≡ some (message notification bytes ∷ read_error ∷ read_error ∷ [], true)
unfolding read_events read classify
broken_run = refl

read_events_broken_example :
    (es : List (ReadEvent LspServerMessage)) × (read_events from_the_server
        (many_results 3)
        broken_stream
      ≡ some (es, is_cancelled (many_results 3)))
    × (length es ≡ rounds (many_results 3))
    × (¬ HasEnd es)
    × (length (raw_bodies es) ≤ length bytes)
read_events_broken_example =
    read_events_broken from_the_server (many_results 3) 5 broken_stream refl

to_client-IsWithin_example : IsWithin ended.to_client bytes
to_client-IsWithin_example =
    to_client-IsWithin keeping whole_seconds dict_buffer refl session from_the_server stream
      two_results true [] refl (unfold server_reads in server_run)

to_server_transparent_example : concat ended.to_server ≡ bytes
to_server_transparent_example =
    to_server_transparent keeping whole_seconds dict_buffer refl session from_the_client (wire ∷ [])
      two_results true refl (client_wire-IsWellFramed, tt) (unfold rounds in omega arith)
      (unfold client_reads in client_run) (unfold client_reads is_exit same in (refl, tt))
