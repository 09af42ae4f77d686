-- ===== src/Loop/Context.antt =====
-- `class Runner` of talyn/runner.py in a `with` statement: `__init__`, `__enter__`, `run`, `__exit__`.
use talyn.Base.Exec.{ok, raised, Exec, Result}
use talyn.Base.{arith, refl, ap, ◌↔◌, true, [], false, ◌≡◌, ℕ, List, Bool}
use talyn.Loop.Running.{Exn, Future, value, run_until_complete, run_until_complete-returns}
use talyn.Loop.Runner.{close-ends, is_sound, Runner, Call, close_loop, close}

-- A new runner, with what `loop_factory` has made: a loop that is open, and its tasks.
unfoldable pub initial : List ℕ → Runner
initial tasks = record { closed = false; loop_closed = false; tasks = tasks; calls = [] }

-- What `run` returns or raises. The task is what the native `create_task` makes of the coroutine;
-- whether the loop runs already is an argument, and so is what `run_forever` does to the task.
unfoldable pub run :
    (running : Bool) → (Future → Result Exn (Unit {0}) × Future) → Future → Exec Runner Exn ℕ
unfolding run_until_complete
run running run_forever task s =
    ((run_until_complete s.loop_closed running false run_forever task).0, s)

-- What leaves a `with` statement: an exception of its body, or one of `close`.
pub data Raised (E : Type 0) : Type 0 where
  by_body : E → Raised E
  by_close : Call → Raised E

abbrev pub unless_closing_raises :
    {E A : Type 0} → Result E A → Result Call (Unit {0}) → Result (Raised E) A
unless_closing_raises r (raised c) = raised (by_close c)
unless_closing_raises (ok a) (ok _) = ok a
unless_closing_raises (raised e) (ok _) = raised (by_body e)

-- `with runner: body`. `__exit__` closes, whatever it is told, and returns None, so that an exception
-- of the body goes on.
unfoldable pub with_runner :
    {E A : Type 0} → (Call → Bool) → Exec Runner E A → Exec Runner (Raised E) A
unfolding close
with_runner fails body s =
    let (r, t) = body s in let (c, u) = close fails t in (unless_closing_raises r c, u)

module _ {E A : Type 0} (fails : Call → Bool) (body : Exec Runner E A) where
  -- Of a `with` statement over a runner: if `loop.close` does not raise, and a runner that the body
  -- leaves closed has closed its loop, then the loop is closed afterwards, whatever the body and the
  -- teardown raise, and the statement returns or raises what its body does.
  pub with_runner_closes :
      (s : Runner)
      → fails close_loop ≡ false
      → is_sound (body s).1 ≡ true
      → let (r, u) = with_runner fails body s in
        (r ≡ unless_closing_raises (body s).0 (ok tt)) × (u.closed ≡ true) × (u.loop_closed ≡ true)
  unfolding with_runner
  with_runner_closes s f h =
      let (r, c, l) = close-ends fails (body s).1 f h in
      (ap (unless_closing_raises (body s).0) r, c, l)

-- `with Runner() as runner: runner.run(...)`, if `loop.close` does not raise: the loop is closed
-- afterwards, whatever happened to the task, and the statement returns a value exactly if
-- `run_forever` returns and leaves the task with that value.
pub with_run_iff :
    (fails : Call → Bool) (run_forever : Future → Result Exn (Unit {0}) × Future) (tasks : List ℕ)
    (task : Future) (v : ℕ)
    → fails close_loop ≡ false
    → let (r, u) = with_runner fails (run false run_forever task) (initial tasks) in
      let (f, t) = run_forever (record task { has_callback = true }) in
      (u.loop_closed ≡ true) × ((r ≡ ok v) ↔ ((f ≡ ok tt) × (t.outcome ≡ value v)))
unfolding run initial
with_run_iff fails run_forever tasks task v f =
    let (r, c, l) = with_runner_closes fails (run false run_forever task) (initial tasks) f refl in
    (l, ground (arith, r, run_until_complete-returns false false false run_forever task v))
