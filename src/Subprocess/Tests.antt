-- ===== src/Subprocess/Tests.antt =====
-- Runs of the pipe transports of `subprocess_exec`, talyn/loop.py.
mod Bridges
mod Starting
use talyn.Subprocess.Pipes.{connection_lost_wakes}
use talyn.Subprocess.Reading.{reads, content, received}
use talyn.Subprocess.Arming.{ended_for_good}
use talyn.Subprocess.Writing.{write_during_loses, run-stream, accepted, stream}
use talyn.Subprocess.Delivery.{run-delivers}
use talyn.Base.{
  ◌≤◌, ◌≢◌, Bool, ℕ, none, some, get_elem?, ◌≡◌, refl, ◌++◌, true, false, List, [], ◌∷◌,
  if◌then◌else◌, map,
}
use talyn.Subprocess.Wrapper.{new_child, connection_lost, Child, pending, cancelled, returned}
use talyn.Subprocess.Spawn
use talyn.Subprocess.Spawn.{
  put_down, connect_pipe, connect_pipes, pre_pipes, subprocess_exec, Spawn, not_implemented,
  failure,
}
use talyn.Subprocess.Command.{streams, ShellArgs}
use talyn.Base.Int.{pos, negsuc}
use talyn.Base.Exec.{ok, raised}
use talyn.Subprocess.ReadPipe
use talyn.Subprocess.ReadPipe.{
  request_all, at_end, tell, disarm, arm, after_read, request, opened, on_readable, Bytes, ReadPipe,
  Env, ReadResult, pause, chunk, would_block, pipe_data_received, pipe_connection_lost,
}
use talyn.Subprocess.WritePipe
use talyn.Subprocess.Writing.{Keeps}
use talyn.Subprocess.WritePipe.{takes, breaks, flush_during, WritePipe, empty}

-- A protocol that pauses reading whenever it is called.
abbrev pausing : Env
pausing = record {
  add_fails = false;
  remove_fails = false;
  reaction = λ told. pause ∷ [];
  raises = λ told. false;
}

abbrev two_chunks : List ReadResult
two_chunks = chunk (1 ∷ 2 ∷ []) ∷ would_block ∷ chunk (3 ∷ []) ∷ chunk [] ∷ []

abbrev four_reads : List ReadPipe.Event
four_reads =
    ReadPipe.Event.readable ∷ ReadPipe.Event.readable ∷ ReadPipe.Event.readable
    ∷ ReadPipe.Event.readable ∷ []

run_four :
    (ReadPipe.run pausing (opened two_chunks) four_reads).told
    ≡ pipe_data_received (1 ∷ 2 ∷ []) ∷ pipe_data_received (3 ∷ []) ∷ pipe_connection_lost ∷ []
unfolding ReadPipe.run ReadPipe.step on_readable after_read arm disarm tell at_end request_all
    request
run_four = refl

ended_for_good_example : (ReadPipe.run pausing (opened two_chunks) four_reads).armed ≡ false
unfolding ReadPipe.run ReadPipe.step on_readable after_read arm disarm tell at_end request_all
    request
ended_for_good_example = ended_for_good pausing refl two_chunks four_reads refl

run-delivers_example :
    let s = ReadPipe.run pausing (opened two_chunks) four_reads in
    (received s.told ++ (if s.eof then [] else content s.source) ≡ content two_chunks)
    × ((ds : List Bytes) × (s.told
          ≡ map pipe_data_received ds ++ (if s.eof then pipe_connection_lost ∷ [] else []))
        × (ds ++ (if s.eof then [] else reads s.source) ≡ reads two_chunks))
run-delivers_example = run-delivers pausing two_chunks four_reads

abbrev filled : WritePipe
filled = record empty { buffer = 7 ∷ 8 ∷ [] }

-- The pipe breaks in the middle of the second drain.
abbrev breaking : List WritePipe.Event
breaking =
    WritePipe.Event.writes (7 ∷ [])
    ∷ WritePipe.Event.drains takes
    ∷ WritePipe.Event.writes (8 ∷ 9 ∷ [])
    ∷ WritePipe.Event.drains (breaks 1)
    ∷ WritePipe.Event.closes
    ∷ []

run-stream_example : Keeps (WritePipe.run empty breaking) (accepted false breaking)
run-stream_example = run-stream breaking

write_during_loses_example :
    let (r, t) =
      flush_during
        (λ u. WritePipe.run u (map WritePipe.Event.writes ((9 ∷ []) ∷ [])))
        takes
        filled in
    (r ≡ ok tt)
    × Keeps
        (WritePipe.run t (WritePipe.Event.drains takes ∷ []))
        (stream filled ++ accepted false (WritePipe.Event.drains takes ∷ []))
write_during_loses_example =
    write_during_loses filled ((9 ∷ []) ∷ []) (WritePipe.Event.drains takes ∷ []) refl refl refl
      (λ e. cc)

abbrev all_open : ℕ → Bool
all_open _ = true

abbrev sound_args : ShellArgs
sound_args = record {
  is_text = true;
  universal_newlines = false;
  shell = true;
  bufsize = pos 0;
  text = false;
  encoding = none;
  errors = none;
}

abbrev waited : Child
waited = record (new_child [] 0) { exit_waiters = cancelled ∷ pending ∷ [] }

connection_lost_wakes_example :
    let (r, t) = connection_lost (raised 5) (ok none) waited in
    (r ≡ raised 5)
    × (get_elem? t.exit_waiters 1 ≢ some pending)
    × (get_elem? waited.exit_waiters 1 ≡ some pending
        → get_elem? t.exit_waiters 1 ≡ some (returned (negsuc 0)))
connection_lost_wakes_example = connection_lost_wakes (raised 5) (ok none) waited 1

-- A child whose pipes cannot be connected, and that the loop fails to watch.
abbrev failing : Spawn.Env
failing = record {
  pid = 7;
  is_over = false;
  is_open = all_open;
  connect = λ fd. raised not_implemented;
  native = λ pipes. raised (failure 2);
}

abbrev no_children : Spawn
no_children = record { registry = 3 ∷ []; killed = false; waited = false }

spawn_fails :
    subprocess_exec failing streams no_children
    ≡ (raised (failure 2), record { registry = 3 ∷ []; killed = true; waited = true })
unfolding subprocess_exec pre_pipes connect_pipes connect_pipe put_down
spawn_fails = refl
