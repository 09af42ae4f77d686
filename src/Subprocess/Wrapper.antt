-- ===== src/Subprocess/Wrapper.antt =====
-- `_TransportWrapper` and `_ProtocolWrapper` of `subprocess_exec`, talyn/loop.py: the pipe
-- transports of a child, and the futures that wait for its exit. Transports are numbers.
use talyn.Base.{
  ℕ, suc, zero, ◌==◌, Bool, true, false, Option, none, some, if◌then◌else◌, List, [], ◌∷◌, ◌++◌,
  length,
}
use talyn.Base.Exec.{Result, ok}
use talyn.Base.Int.{ℤ, negsuc}

-- A dict from file descriptors of the child to transports.
abbrev pub Pipes : Type 0
Pipes = List (ℕ × ℕ)

abbrev pub lookup : ℕ → Pipes → Option ℕ
lookup fd [] = none
lookup fd ((k, t) ∷ ps) = if fd == k then some t else lookup fd ps

-- A waiter of `_wait`.
pub data Waiter : Type 0 where
  pending cancelled : Waiter
  returned : ℤ → Waiter

pub record Child : Type 0 where
  -- `_pipes`, made before the child's transport
  pub pipes : Pipes
  -- `_pipe_transports`, made on demand
  pub cached : Pipes
  -- `_proto_pipe_transports`
  pub own : List ℕ
  -- The number of pipe transports that exist.
  pub made : ℕ
  -- The transports that were closed; the child's own transport.
  pub closed : List ℕ
  pub transport_closed : Bool
  pub exit_waiters : List Waiter

-- Which of the files of `popen` are pipes: stdin, stdout and stderr.
abbrev pub Open : Type 0
Open = ℕ → Bool

abbrev pub new_child : Pipes → ℕ → Child
new_child pipes made = record {
  pipes = pipes;
  cached = [];
  own = [];
  made = made;
  closed = [];
  transport_closed = false;
  exit_waiters = [];
}

module _ (is_open : Open) where
  -- `fd == 0 and popen.stdin is not None`, and the branches for 1 and 2
  abbrev pub has_file : ℕ → Bool
  has_file zero = is_open 0
  has_file (suc zero) = is_open 1
  has_file (suc (suc zero)) = is_open 2
  has_file _ = false

  -- The part of `get_pipe_transport` that makes a transport.
  unfoldable pub make_pipe : ℕ → Child → Option ℕ × Child
  make_pipe fd s =
      if has_file fd
      then (some s.made, record s { cached = (fd, s.made) ∷ s.cached; made = suc s.made })
      else (none, s)

  unfoldable pub get_pipe_transport : ℕ → Child → Option ℕ × Child
  get_pipe_transport fd s = elim (lookup fd s.pipes) [
    | some t ↦ (some t, s)
    | none ↦ elim (lookup fd s.cached) [ some t ↦ (some t, s) | none ↦ make_pipe fd s ]
  ]

  -- The loop over `pipe_specs`: stdout, stderr, stdin.
  unfoldable pub make_own : List ℕ → Child → Child
  make_own [] s = s
  make_own (fd ∷ fds) s =
      make_own fds
        (if is_open fd then record s { own = s.own ++ s.made ∷ []; made = suc s.made } else s)

  -- `connection_made`. `asks` are the descriptors for which the user's own `connection_made` calls
  -- `get_pipe_transport`.
  unfoldable pub ask_all : List ℕ → Child → Child
  ask_all [] s = s
  ask_all (fd ∷ fds) s = ask_all fds (get_pipe_transport fd s).1

  unfoldable pub connection_made : Bool → List ℕ → Child → Child
  connection_made has_stdin asks s =
      let s' = ask_all asks s in if has_stdin then s' else make_own (1 ∷ 2 ∷ 0 ∷ []) s'

-- `close`; the calls on the own pipe transports are under `try`.
unfoldable pub close : Child → Child
close s = record s { closed = s.closed ++ s.own; transport_closed = true }

-- `if not waiter.done(): waiter.set_result(rc)` for all of them
unfoldable pub resolve_all : ℤ → List Waiter → List Waiter
resolve_all rc [] = []
resolve_all rc (pending ∷ ws) = returned rc ∷ resolve_all rc ws
resolve_all rc (w ∷ ws) = w ∷ resolve_all rc ws

-- `held.get_returncode()` under `try`, with -1 for none.
abbrev pub exit_code : Result ℕ (Option ℤ) → ℤ
exit_code (ok (some rc)) = rc
exit_code _ = negsuc 0

-- `connection_lost`: the user's own method may raise, which goes on after the waiters are woken.
unfoldable pub connection_lost :
    Result ℕ (Unit {0}) → Result ℕ (Option ℤ) → Child → Result ℕ (Unit {0}) × Child
connection_lost user returncode s =
    (user, record s { exit_waiters = resolve_all (exit_code returncode) s.exit_waiters })

-- `_wait` up to its `await`: the exit code, or the number of a new waiter.
pub data Waited : Type 0 where
  at_once : ℤ → Waited
  parked : ℕ → Waited

unfoldable pub wait : Option ℤ → Child → Waited × Child
wait (some rc) s = (at_once rc, s)
wait none s =
    (parked (length s.exit_waiters), record s { exit_waiters = s.exit_waiters ++ pending ∷ [] })
