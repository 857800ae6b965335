-- ===== src/Io/Diverter.antt =====
-- `SingleUseDiverterPipe` of internal/io/io.go, between a source and two destinations that are
-- pipes of Go's `io.Pipe`: a write waits until the reader of the pipe has taken all of it, and
-- fails once the pipe is closed, which the diverter pipe does not look at. A reader with a small
-- buffer takes a chunk in parts: here it takes it when it takes the last of them, and a chunk of
-- which a part is left when the pipe is closed counts as one that was not written. The first chunk
-- of the second destination is taken whole, by the empty buffer of `bufio.NewReader`.
pub mod Switch
use lspwatch.Common.{Bool, true, false, not, List, [], ◌∷◌, ◌++◌, if◌then◌else◌, Bytes}

-- Where the goroutine of `Start` is.
pub data Held : Type 0 where
  nothing : Held  -- in a read
  got : Bytes → Held  -- before the `select`
  offering_first : Bytes → Held  -- in a write
  offering_second : Bytes → Held
  ended : Held  -- behind the loop

pub record SingleUseDiverterPipe : Type 0 where
  pub held : Held
  pub first_closed : Bool
  pub second_closed : Bool
  pub switched : Bool
  pub first : List Bytes  -- what the reader of the first destination has taken
  pub second : List Bytes
  pub lost : List Bytes  -- what failed writes to the first destination had
  pub dropped : List Bytes  -- the same of the second

-- The source delivers a chunk or an error, the goroutine looks at the switch, a reader takes what
-- is offered to it, a write to a closed pipe fails, others close the pipes, and `Switch` is called.
pub data PipeEvent : Type 0 where
  chunk : Bytes → PipeEvent
  source_error look first_takes second_takes give_up close_first close_second switch : PipeEvent

unfoldable pub new_single_use_diverter_pipe : SingleUseDiverterPipe
new_single_use_diverter_pipe = record {
  held = nothing;
  first_closed = false;
  second_closed = false;
  switched = false;
  first = [];
  second = [];
  lost = [];
  dropped = [];
}

unfoldable pub read_chunk : Bytes → Held → SingleUseDiverterPipe → SingleUseDiverterPipe
read_chunk b nothing p = record p { held = got b }
read_chunk b _ p = p

-- the `break` on an error of the source
unfoldable pub stop_reading : Held → SingleUseDiverterPipe → SingleUseDiverterPipe
stop_reading nothing p = record p { held = ended }
stop_reading _ p = p

-- the `select` behind a read
unfoldable pub divert : Held → SingleUseDiverterPipe → SingleUseDiverterPipe
divert (got b) p = record p { held = if p.switched then offering_second b else offering_first b }
divert _ p = p

unfoldable pub write_first : Held → SingleUseDiverterPipe → SingleUseDiverterPipe
write_first (offering_first b) p =
    if p.first_closed then p else record p { held = nothing; first = p.first ++ b ∷ [] }
write_first _ p = p

unfoldable pub write_second : Held → SingleUseDiverterPipe → SingleUseDiverterPipe
write_second (offering_second b) p =
    if p.second_closed then p else record p { held = nothing; second = p.second ++ b ∷ [] }
write_second _ p = p

unfoldable pub fail_write : Held → SingleUseDiverterPipe → SingleUseDiverterPipe
fail_write (offering_first b) p =
    if p.first_closed then record p { held = nothing; lost = p.lost ++ b ∷ [] } else p
fail_write (offering_second b) p =
    if p.second_closed then record p { held = nothing; dropped = p.dropped ++ b ∷ [] } else p
fail_write _ p = p

unfoldable pub pipe_step : PipeEvent → SingleUseDiverterPipe → SingleUseDiverterPipe
unfolding read_chunk stop_reading divert write_first write_second fail_write
pipe_step (chunk b) p = read_chunk b p.held p
pipe_step source_error p = stop_reading p.held p
pipe_step look p = divert p.held p
pipe_step first_takes p = write_first p.held p
pipe_step second_takes p = write_second p.held p
pipe_step give_up p = fail_write p.held p
pipe_step close_first p = record p { first_closed = true }
pipe_step close_second p = record p { second_closed = true }
pipe_step switch p = record p { switched = true }

-- What of an event is taken from the source.
unfoldable pub taken_from : PipeEvent → Held → List Bytes
taken_from (chunk b) nothing = b ∷ []
taken_from _ _ = []

-- A run, with the chunks that it took.
unfoldable pub run_pipe :
    List PipeEvent → SingleUseDiverterPipe → SingleUseDiverterPipe × List Bytes
run_pipe [] p = (p, [])
run_pipe (e ∷ es) p = let (q, bs) = run_pipe es (pipe_step e p) in (q, taken_from e p.held ++ bs)
