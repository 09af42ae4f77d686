-- ===== src/Loop/Executor.antt =====
-- The default executor of `class Loop`, talyn/loop.py: `run_in_executor`, `set_default_executor`,
-- `shutdown_default_executor` with the thread that it starts, and `close`. Executors and jobs are
-- numbers; every call on an executor is kept in `calls`.
use talyn.Base.{
  is_some, ℕ, suc, Bool, true, false, Option, none, some, List, [], ◌∷◌, ◌++◌, if◌then◌else◌,
}
use talyn.Base.Exec.{Result, ok, raised, Exec, modify, ◌>>=◌, ◌>>◌}
use talyn.Base.Int.{ℤ, negsuc}

pub data Exn : Type 0 where
  loop_closed loop_running shut_down not_a_pool invalid_timeout no_executor timed_out : Exn
  submit_failed shutdown_failed : Exn

pub data Call : Type 0 where
  submit : (executor job : ℕ) → Call
  shutdown : (executor : ℕ) (wait : Bool) → Call

-- The future that `shutdown_default_executor` awaits.
pub data FutureState : Type 0 where
  pending finished cancelled : FutureState
  failed : Exn → FutureState

pub record Loop : Type 0 where
  pub default_executor : Option ℕ
  pub shutdown_executor_called : Bool
  pub closed : Bool
  pub running : Bool
  -- The number of thread pools that the loop made.
  pub made : ℕ
  pub calls : List Call

abbrev pub fresh : Loop
fresh = record {
  default_executor = none;
  shutdown_executor_called = false;
  closed = false;
  running = false;
  made = 0;
  calls = [];
}

abbrev pub Action : Type 0 → Type 0
Action A = Exec Loop Exn A

-- What the executors do: which calls raise.
pub record Executors : Type 0 where
  pub fails : Call → Bool

-- `_Loop.close`, native: it refuses a running loop, and closes the loop once.
abbrev pub native_close : Action (Unit {0})
native_close s = if s.running then (raised loop_running, s) else (ok tt, record s { closed = true })

-- `if executor is None: executor = self._default_executor`
abbrev pub or_default : Option ℕ → Option ℕ → Option ℕ
or_default none default = default
or_default (some x) _ = some x

module _ (env : Executors) where
  unfoldable pub call : Exn → Call → Action (Unit {0})
  call e c s = (if env.fails c then raised e else ok tt, record s { calls = s.calls ++ c ∷ [] })

  unfoldable pub close : Action (Unit {0})
  unfolding call
  close s = elim s.default_executor [
    | none ↦ native_close s
    | some x ↦
        (do
          call shutdown_failed (shutdown x false)
          modify (λ t. record t { default_executor = none; shutdown_executor_called = true })
          native_close)
          s
  ]

  -- `ThreadPoolExecutor(...)`, kept as the default.
  abbrev pub make_default : Action ℕ
  make_default s = (ok s.made, record s { default_executor = some s.made; made = suc s.made })

  -- The executor that `run_in_executor` uses.
  unfoldable pub choose : Option ℕ → Action ℕ
  choose (some x) s = (ok x, s)
  choose none s = elim s.default_executor [
    | some x ↦ (ok x, s)
    | none ↦ if s.shutdown_executor_called then (raised shut_down, s) else make_default s
  ]

  unfoldable pub run_in_executor : Option ℕ → ℕ → Action (Unit {0})
  unfolding choose call
  run_in_executor executor job s =
      if s.closed
      then (raised loop_closed, s)
      else (choose executor >>= λ x. call submit_failed (submit x job)) s

  -- `isinstance(executor, ThreadPoolExecutor)` is an argument.
  unfoldable pub set_default_executor : Bool → ℕ → Action (Unit {0})
  set_default_executor is_pool x s =
      if is_pool then (ok tt, record s { default_executor = some x }) else (raised not_a_pool, s)

  -- `shutdown_default_executor` up to its `await`: the executor that the new thread shuts down.
  -- The timeout is given by whether it is negative.
  unfoldable pub begin_shutdown : Option ℤ → Action (Option ℕ)
  begin_shutdown (some (negsuc n)) s = (raised invalid_timeout, s)
  begin_shutdown _ s =
      (ok s.default_executor, record s { shutdown_executor_called = true; default_executor = none })

  -- `_do_shutdown`, in the thread: what becomes of the future.
  unfoldable pub do_shutdown : Option ℕ → FutureState → Loop → Result Exn FutureState × Loop
  unfolding call
  do_shutdown executor future s = elim (or_default executor s.default_executor) [
    | none ↦ (raised no_executor, s)
    | some x ↦
        let (r, t) = call shutdown_failed (shutdown x true) s in
        elim r [
          | ok _ ↦ (ok (if t.closed then future else elim future [ pending ↦ finished | f ↦ f ]), t)
          | raised e ↦ (
            ok (if t.closed then future else elim future [ cancelled ↦ cancelled | f ↦ failed e ]),
            t,
          )
        ]
  ]

  -- What `await future` under the timeout comes to: false where the future stays pending and there is
  -- no timeout, so that the coroutine never goes on. A timeout is not raised again.
  abbrev pub await_future : Option ℤ → FutureState → Result Exn Bool
  await_future timeout (failed e) = raised e
  await_future timeout pending = ok (is_some timeout)
  await_future timeout _ = ok true

  -- `shutdown_default_executor`, with `between` what the loop does until the thread is done.
  unfoldable pub shutdown_default_executor : (Loop → Loop) → Option ℤ → Action Bool
  unfolding begin_shutdown do_shutdown
  shutdown_default_executor between timeout s =
      let (r, s') = begin_shutdown timeout s in
      elim r [
        | raised e ↦ (raised e, s')
        | ok none ↦ (ok true, s')
        | ok (some x) ↦
            let (f, t) = do_shutdown (some x) pending (between s') in
            elim f [ ok future ↦ (await_future timeout future, t) | raised e ↦ (raised e, t) ]
      ]

-- What happens to a loop: the methods, the two parts of a shutdown, and `run_forever`.
pub data Event : Type 0 where
  runs : Option ℕ → ℕ → Event
  sets : Bool → ℕ → Event
  begins_shutdown : Option ℤ → Event
  thread_shuts_down : Option ℕ → FutureState → Event
  closes starts stops : Event

module _ (env : Executors) where
  unfoldable pub step : Loop → Event → Loop
  step s (Event.runs x job) = (run_in_executor env x job s).1
  step s (Event.sets is_pool x) = (set_default_executor env is_pool x s).1
  step s (Event.begins_shutdown timeout) = (begin_shutdown env timeout s).1
  step s (Event.thread_shuts_down x f) = (do_shutdown env x f s).1
  step s Event.closes = (close env s).1
  step s Event.starts = if s.closed then s else record s { running = true }
  step s Event.stops = record s { running = false }

  unfoldable pub run : Loop → List Event → Loop
  run s [] = s
  run s (e ∷ es) = run (step s e) es
