-- ===== src/Tests/Pipes.antt =====
-- Instances for the diverter pipe, and for the way of the server's bytes to the client around it.
use lspwatch.Common.{◌≡◌, refl, inr, true, List, [], ◌∷◌, ◌++◌, codes, concat, same, arith}
use lspwatch.Io.Diverter.{
  PipeEvent, chunk, look, first_takes, second_takes, give_up, close_first, switch,
  new_single_use_diverter_pipe, pipe_step, run_pipe, taken_from,
}
use lspwatch.Io.Diverter.Switch.{held_chunk}
use lspwatch.Core.Buffer.{dict_buffer}
use lspwatch.Core.Proxy.PassThrough.{
  Relay, RelayEvent, source_chunk, source_end, diverter_looks, diverter_gives_up, pass_reads,
  pass_writes, shake_hands, close_pass_through, switch_pipe, lsp_reads, forwards, new_relay,
  relay_step, relay_taken, run_relay,
}
use lspwatch.Core.Proxy.PassThrough.Fits.{in_hand}
use lspwatch.Core.Proxy.PassThrough.Order.{InTime}
use lspwatch.Core.Proxy.PassThrough.Whole.{IsDelivered, command_transparent, whole_transparent}
use lspwatch.Core.Proxy.PassThrough.Alone.{run_relay_alone}
use lspwatch.Core.Proxy.Listeners.{step}
use lspwatch.Core.Proxy.Reading.{rounds, raw_bodies}
use lspwatch.Core.Proxy.Transparency.{server_reads}
use lspwatch.Tests.Sessions.{keeping, whole_seconds}
use lspwatch.Tests.Streams.{
  two_results, from_the_server, wire, bytes, wire-IsWellFramed, server_run, session, ended,
}

abbrev events : List PipeEvent
events =
    chunk (codes "a")
    ∷ look
    ∷ first_takes
    ∷ chunk (codes "b")
    ∷ look
    ∷ close_first
    ∷ switch
    ∷ give_up
    ∷ chunk (codes "c")
    ∷ look
    ∷ second_takes
    ∷ []

second_chunk_lost : (run_pipe events new_single_use_diverter_pipe).0.lost ≡ codes "b" ∷ []
unfolding run_pipe pipe_step new_single_use_diverter_pipe
second_chunk_lost = refl

-- One chunk is passed through, and another is on the way.
abbrev output : List RelayEvent
output =
    source_chunk (codes "a")
    ∷ diverter_looks
    ∷ pass_reads
    ∷ pass_writes
    ∷ source_chunk (codes "b")
    ∷ diverter_looks
    ∷ []

output_run : (run_relay output (new_relay (codes "command"))).0.to_client ≡ codes "a" ∷ []
unfolding run_relay relay_step new_relay new_single_use_diverter_pipe pipe_step same
output_run = refl

command_transparent_example :
    (run_relay output (new_relay (codes "command"))).0.to_client
      ++ (in_hand (run_relay output (new_relay (codes "command"))).0.passing
          ++ held_chunk (run_relay output (new_relay (codes "command"))).0.pipe.held)
    ≡ (run_relay output (new_relay (codes "command"))).1
command_transparent_example = command_transparent output

-- A chunk before the switch, and a message behind it.
abbrev across : List RelayEvent
across =
    source_chunk (codes "a")
    ∷ diverter_looks
    ∷ pass_reads
    ∷ pass_writes
    ∷ shake_hands
    ∷ close_pass_through
    ∷ switch_pipe
    ∷ source_chunk bytes
    ∷ diverter_looks
    ∷ lsp_reads
    ∷ forwards bytes
    ∷ []

abbrev crossed : Relay
crossed = (run_relay across (new_relay [])).0

crossing : run_relay across (new_relay []) ≡ (crossed, codes "a" ∷ bytes ∷ [])
unfolding run_relay relay_step relay_taken taken_from new_relay new_single_use_diverter_pipe
    pipe_step same
crossing = refl

in_time : InTime across (new_relay [])
unfolding InTime relay_step new_relay new_single_use_diverter_pipe pipe_step in_hand same
in_time = (tt, (tt, (tt, (tt, (tt, (tt, (tt, (tt, (tt, (tt, (inr refl, tt)))))))))))

crossed-IsDelivered : IsDelivered crossed
unfolding run_relay relay_step new_relay new_single_use_diverter_pipe pipe_step in_hand held_chunk
    same
crossed-IsDelivered = (refl, refl, refl, refl, refl)

same_messages : crossed.forwarded ≡ ended.to_client
unfolding run_relay relay_step new_relay new_single_use_diverter_pipe pipe_step same step
same_messages = refl

same_bytes : concat crossed.pipe.second ≡ bytes
unfolding run_relay relay_step new_relay new_single_use_diverter_pipe pipe_step same
same_bytes = refl

whole_transparent_example : concat crossed.to_client ≡ codes "a" ++ bytes
whole_transparent_example =
    whole_transparent keeping whole_seconds dict_buffer refl session [] across crossed
      (codes "a" ∷ bytes ∷ []) from_the_server (wire ∷ []) two_results true [] in_time crossing
      crossed-IsDelivered same_messages same_bytes refl (wire-IsWellFramed, tt)
      (unfold rounds in omega arith) (unfold server_reads in server_run) (unfold raw_bodies in refl)

-- A notification of the server comes before the client's first message, and is lost at the switch.
abbrev early : List RelayEvent
early =
    source_chunk (codes "a")
    ∷ diverter_looks
    ∷ shake_hands
    ∷ close_pass_through
    ∷ diverter_gives_up
    ∷ switch_pipe
    ∷ source_chunk bytes
    ∷ diverter_looks
    ∷ lsp_reads
    ∷ forwards bytes
    ∷ []

early_lost : (run_relay early (new_relay (codes "proxy"))).0.pipe.lost ≡ codes "a" ∷ []
unfolding run_relay relay_step new_relay new_single_use_diverter_pipe pipe_step same
early_lost = refl

run_relay_alone_example :
    ((run_relay early (new_relay (codes "proxy"))).0.to_client
      ≡ (run_relay early (new_relay (codes "proxy"))).0.forwarded)
    × ((run_relay early (new_relay (codes "proxy"))).0.pipe.lost
          ++ ((run_relay early (new_relay (codes "proxy"))).0.pipe.second
              ++ ((run_relay early (new_relay (codes "proxy"))).0.pipe.dropped
                  ++ held_chunk (run_relay early (new_relay (codes "proxy"))).0.pipe.held))
        ≡ (run_relay early (new_relay (codes "proxy"))).1)
run_relay_alone_example = run_relay_alone early

-- The pipe behind its source's end, with a switch still to come.
abbrev over_there : Relay
over_there = (run_relay (source_end ∷ []) (new_relay [])).0
