-- ===== src/Subprocess/Start.antt =====
-- The whole of `subprocess_exec` and `subprocess_shell` of talyn/loop.py: the calls of the protocol
-- factory, the call of Popen, and then the frame of Subprocess/Spawn. The factory, Popen and the
-- native method are arguments.
use talyn.Base.Exec.{raise, ◌>>=◌, raised, ok, Result, Exec}
use talyn.Base.{
  zero, true, false, ◌∷◌, ◌++◌, some, none, [], Bool, ℕ, suc, if◌then◌else◌, Option, List,
}
use talyn.Base.Text.{Text, codes}
use talyn.Subprocess.Spawn
use talyn.Subprocess.Spawn.{Spawn, pre_pipes, failure}
use talyn.Subprocess.Wrapper.{Pipes}
use talyn.Subprocess.Command.{
  Sample, no_sample, streams, plain, Stdio, Files, stdin_arg, stdout_arg, stderr_arg, is_pipe,
  ShellArgs, shell_error, ValueError,
}

pub record Protocol : Type 0 where
  pub name : ℕ
  pub has_stdin : Bool

-- What a call of the factory comes to: a protocol, None, an `Exception`, or a `BaseException` that is
-- none.
pub data Answer : Type 0 where
  makes : Protocol → Answer
  makes_none : Answer
  fails dies : ℕ → Answer

-- The arguments of Popen that the code writes.
pub record PopenArgs : Type 0 where
  pub cmd : List Text
  pub stdin : Stdio
  pub stdout : Stdio
  pub stderr : Stdio
  pub cwd : Option ℕ
  pub environ : Option ℕ
  pub pass_fds : List ℕ
  pub kwargs : List (Text × ℕ)

-- The arguments of `subprocess_exec` after the command.
pub record Options : Type 0 where
  pub files : Files
  pub cwd : Option ℕ
  pub environ : Option ℕ
  pub pass_fds : Option (List ℕ)
  pub kwargs : List (Text × ℕ)

-- A child: its number, and whether it is over when `poll` asks.
pub record Child : Type 0 where
  pub pid : ℕ
  pub is_over : Bool

pub data Exn : Type 0 where
  refused : ValueError → Exn
  by_factory : ℕ → Exn
  by_child : Spawn.Exn → Exn

-- The n-th call of the factory, Popen, the pipe methods of the loop, and the native
-- `subprocess_exec`, which calls the factory that it is given once.
pub record Env : Type 0 where
  pub factory : ℕ → Answer
  pub popen : PopenArgs → Result Exn Child
  pub connect : ℕ → Result Spawn.Exn (ℕ × ℕ)
  pub native : Pipes → Result Spawn.Exn Protocol → Result Spawn.Exn ℕ

-- `sample_holder`, the number of calls of the factory, what Popen was called with, and the state of
-- the frame.
pub record Start : Type 0 where
  pub calls : ℕ
  pub holder : Option Protocol
  pub popen_calls : List PopenArgs
  pub spawn : Spawn

abbrev pub kind_of : Protocol → Sample
kind_of p = if p.has_stdin then streams else plain

-- `()` for `pass_fds=None`
abbrev pub or_none : Option (List ℕ) → List ℕ
or_none none = []
or_none (some l) = l

unfoldable pub popen_args : Sample → List Text → Options → PopenArgs
unfolding stdin_arg stdout_arg stderr_arg
popen_args kind cmd o = record {
  cmd = cmd;
  stdin = stdin_arg kind o.files;
  stdout = stdout_arg kind o.files;
  stderr = stderr_arg kind o.files;
  cwd = o.cwd;
  environ = o.environ;
  pass_fds = or_none o.pass_fds;
  kwargs = o.kwargs;
}

-- Which of the files of `popen` are pipes.
abbrev pub is_open_in : PopenArgs → ℕ → Bool
is_open_in a zero = is_pipe a.stdin
is_open_in a (suc zero) = is_pipe a.stdout
is_open_in a (suc (suc zero)) = is_pipe a.stderr
is_open_in a _ = false

abbrev pub Action : Type 0 → Type 0
Action A = Exec Start Exn A

abbrev pub after_sample : Answer → Action Sample
after_sample (makes p) s = (ok (kind_of p), record s { holder = some p })
after_sample makes_none s = (ok no_sample, s)
after_sample (fails e) s = (ok no_sample, s)
after_sample (dies e) s = (raised (by_factory e), s)

-- `None.connection_made` is an AttributeError; exception 0 stands for it.
abbrev made_by : Answer → Result Spawn.Exn Protocol
made_by (makes p) = ok p
made_by makes_none = raised (failure 0)
made_by (fails e) = raised (failure e)
made_by (dies e) = raised (failure e)

module _ (env : Env) where
  -- The `try` around the first call of the factory.
  unfoldable pub take_sample : Action Sample
  take_sample s =
      after_sample (env.factory s.calls) (record s { calls = suc s.calls; holder = none })

  abbrev factory_or_holder : Option Protocol → Start → Result Spawn.Exn Protocol × Start
  factory_or_holder (some p) s = (ok p, record s { holder = none })
  factory_or_holder none s = (made_by (env.factory s.calls), record s { calls = suc s.calls })

  -- `_wrapped_factory`: the sample, if there is one, and otherwise another call of the factory.
  unfoldable pub wrapped_factory : Start → Result Spawn.Exn Protocol × Start
  wrapped_factory s = factory_or_holder s.holder s

  -- The arguments of the frame, for a child that Popen has made.
  abbrev pub spawn_env : PopenArgs → Child → Result Spawn.Exn Protocol → Spawn.Env
  spawn_env a child made = record {
    pid = child.pid;
    is_over = child.is_over;
    is_open = is_open_in a;
    connect = env.connect;
    native = λ pipes. env.native pipes made;
  }

  abbrev pub child_result : Result Spawn.Exn ℕ → Result Exn ℕ
  child_result (ok w) = ok w
  child_result (raised e) = raised (by_child e)

  abbrev pub reaches : {A : Type 0} → Result Spawn.Exn A → Bool
  reaches (ok _) = true
  reaches (raised _) = false

  -- The frame; the factory is asked if the pipes are connected.
  unfoldable pub run_child : Sample → PopenArgs → Child → Action ℕ
  unfolding wrapped_factory
  run_child kind a child s =
      let (made, s') = wrapped_factory s in
      let frame = spawn_env a child made in
      let asked = reaches (pre_pipes frame kind s.spawn).0 in
      let (r, spawn') = Spawn.subprocess_exec frame kind s.spawn in
      (child_result r, record (if asked then s' else s) { spawn = spawn' })

  abbrev with_child : Sample → PopenArgs → Result Exn Child → Action ℕ
  with_child kind a (ok child) = run_child kind a child
  with_child kind a (raised e) = raise e

  unfoldable pub call_popen : Sample → PopenArgs → Action ℕ
  unfolding run_child
  call_popen kind a s =
      with_child kind a (env.popen a) (record s { popen_calls = s.popen_calls ++ a ∷ [] })

  unfoldable pub subprocess_exec : List Text → Options → Action ℕ
  unfolding take_sample call_popen
  subprocess_exec cmd o = do kind ← take_sample; call_popen kind (popen_args kind cmd o)

  abbrev unless_refused : Option ValueError → Action ℕ → Action ℕ
  unless_refused none m = m
  unless_refused (some e) m = raise (refused e)

  -- `subprocess_shell`, with the command as a text
  unfoldable pub subprocess_shell : ShellArgs → Text → Options → Action ℕ
  unfolding subprocess_exec
  subprocess_shell args cmd o =
      unless_refused (shell_error args)
        (subprocess_exec (codes "/bin/sh" ∷ codes "-c" ∷ cmd ∷ []) o)
