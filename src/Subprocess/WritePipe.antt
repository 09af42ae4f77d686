-- ===== src/Subprocess/WritePipe.antt =====
-- `_WritePipeTransport` of `subprocess_exec`, talyn/loop.py, and the drain helper that flushes it
-- in a thread of its own while the loop goes on.
use talyn.Base.{take, ℕ, Bool, true, false, ◌||◌, List, [], ◌∷◌, ◌++◌, if◌then◌else◌}
use talyn.Base.Exec.{Result, ok, raised}
use talyn.Subprocess.ReadPipe.{Bytes}

pub data Exn : Type 0 where
  broken_pipe : Exn

pub record WritePipe : Type 0 where
  pub buffer : Bytes
  pub closing : Bool
  pub closed : Bool
  -- The child's stdin: what it was given, whether it was closed, and whether the child has been
  -- found not to read it any more.
  pub written : Bytes
  pub stdin_closed : Bool
  pub stdin_broken : Bool

-- What the child's end of the pipe does with a write: it takes all, or breaks after so many bytes.
pub data Answer : Type 0 where
  takes : Answer
  breaks : ℕ → Answer

abbrev pub empty : WritePipe
empty = record {
  buffer = [];
  closing = false;
  closed = false;
  written = [];
  stdin_closed = false;
  stdin_broken = false;
}

abbrev pub is_empty : Bytes → Bool
is_empty [] = true
is_empty (_ ∷ _) = false

abbrev pub is_closing : WritePipe → Bool
is_closing s = s.closing || s.closed

-- `self._popen.stdin.close()` under `try`
abbrev pub close_stdin : WritePipe → WritePipe
close_stdin s = record s { stdin_closed = true }

unfoldable pub close : WritePipe → WritePipe
close s = if s.closed then s else close_stdin (record s { closing = true; closed = true })

unfoldable pub write : Bytes → WritePipe → WritePipe
write bytes s = if s.closed then s else record s { buffer = s.buffer ++ bytes }

abbrev pub stdin_answer : Answer → Bytes → WritePipe → Result Exn (Unit {0}) × WritePipe
stdin_answer takes bytes s = (ok tt, record s { written = s.written ++ bytes })
stdin_answer (breaks n) bytes s =
    (raised broken_pipe, record s { written = s.written ++ take n bytes; stdin_broken = true })

-- `stdin.write(...)` and `stdin.flush()`: they raise if the file is closed, or if the child does not
-- read it; by then they may have given it a first part. A pipe that is broken stays so.
unfoldable pub write_out : Answer → Bytes → WritePipe → Result Exn (Unit {0}) × WritePipe
write_out answer bytes s =
    if s.stdin_closed || s.stdin_broken
    then (raised broken_pipe, s)
    else stdin_answer answer bytes s

-- `flush`. `meanwhile` is what the loop does between the moment when the thread has taken
-- `bytes(self._buffer)` and the moment when it clears the buffer; it is the identity where `flush`
-- runs alone.
unfoldable pub flush_during :
    (WritePipe → WritePipe) → Answer → WritePipe → Result Exn (Unit {0}) × WritePipe
flush_during meanwhile answer s =
    if s.closed || is_empty s.buffer
    then (ok tt, s)
    else (let (r, s') = write_out answer s.buffer s in
        let t = meanwhile s' in
        elim r [ ok _ ↦ (ok tt, record t { buffer = [] }) | raised e ↦ (raised e, t) ])

unfoldable pub flush : Answer → WritePipe → Result Exn (Unit {0}) × WritePipe
flush answer s = flush_during (λ t. t) answer s

-- `_patched_drain_helper`: it starts the thread only if there is something to flush, and raises
-- what `flush` raised.
unfoldable pub drain : Answer → WritePipe → Result Exn (Unit {0}) × WritePipe
unfolding flush
drain answer s = if s.closed || is_empty s.buffer then (ok tt, s) else flush answer s

pub data Event : Type 0 where
  writes : Bytes → Event
  drains : Answer → Event
  closes : Event

unfoldable pub step : WritePipe → Event → WritePipe
unfolding drain
step s (Event.writes d) = write d s
step s (Event.drains answer) = (drain answer s).1
step s Event.closes = close s

unfoldable pub run : WritePipe → List Event → WritePipe
run s [] = s
run s (e ∷ es) = run (step s e) es
