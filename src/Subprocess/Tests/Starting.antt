-- ===== src/Subprocess/Tests/Starting.antt =====
-- The start of a child that the loop fails to watch, with a factory that makes one protocol.
use talyn.Base.Exec.{raised, ok}
use talyn.Base.{zero, ◌≡◌, ◌∷◌, ℕ, [], refl, none, some, true, false}
use talyn.Base.Text.{codes}
use talyn.Subprocess.Command.{stderr_arg, devnull, pipe, plain}
use talyn.Subprocess.Spawn
use talyn.Subprocess.Spawn.{failure, put_down, pre_pipes}
use talyn.Subprocess.Start
use talyn.Subprocess.Start.{Answer, Start, Child, Options, makes, makes_none, popen_args}
use talyn.Subprocess.Starting.{subprocess_exec-Ends, Ends}

abbrev child : Child
child = record { pid = 7; is_over = false }

abbrev first_answer : ℕ → Answer
first_answer zero = makes (record { name = 1; has_stdin = false })
first_answer _ = makes_none

abbrev unwatched : Start.Env
unwatched = record {
  factory = first_answer;
  popen = λ a. ok child;
  connect = λ fd. raised (failure 4);
  native = λ pipes made. raised (failure 2);
}

abbrev plain_options : Options
plain_options = record {
  files = record { stdin = none; stdout = some devnull; stderr = none };
  cwd = none;
  environ = none;
  pass_fds = none;
  kwargs = [];
}

abbrev before : Start
before = record {
  calls = 0;
  holder = none;
  popen_calls = [];
  spawn = record { registry = 3 ∷ []; killed = false; waited = false };
}

subprocess_exec-Ends_example :
    Ends
      (first_answer 0)
      (popen_args plain (codes "true" ∷ []) plain_options)
      child
      before
      (Start.subprocess_exec unwatched (codes "true" ∷ []) plain_options before)
subprocess_exec-Ends_example =
    subprocess_exec-Ends unwatched (codes "true" ∷ []) plain_options before child (λ e h. cc) refl
      refl

-- Popen opens a pipe for stderr only, and the child is killed.
unwatched_killed :
    let (r, t) = Start.subprocess_exec unwatched (codes "true" ∷ []) plain_options before in
    (t.calls ≡ 1)
    × (t.spawn.killed ≡ true)
    × ((popen_args plain (codes "true" ∷ []) plain_options).stderr ≡ pipe)
unfolding Start.subprocess_exec Start.take_sample Start.call_popen Start.run_child
    Start.wrapped_factory popen_args Spawn.subprocess_exec put_down pre_pipes stderr_arg
unwatched_killed = (refl, refl, refl)
