-- ===== src/Loop/Tests/Context.antt =====
-- `class Runner` in a `with` statement, at a concrete task.
use talyn.Loop.Executor.{call}
use talyn.Loop.PseudoSocket.{close}
use talyn.Base.Exec.{ok, Result}
use talyn.Base.{◌↔◌, ◌≡◌, [], ◌∷◌, refl, true, false, Bool}
use talyn.Loop.Runner.{close_its_loop, teardown, all_tasks, Call}
use talyn.Loop.Running.{value, run_until_complete, Exn, Future, pending}
use talyn.Loop.Context.{initial, run, with_runner, with_run_iff}

-- The teardown raises at once.
abbrev fails_at_once : Call → Bool
fails_at_once all_tasks = true
fails_at_once _ = false

abbrev new_task : Future
new_task = record { outcome = pending; has_callback = false; retrieved = false }

-- The loop runs until the task has returned 7.
abbrev returns_seven : Future → Result Exn (Unit {0}) × Future
returns_seven f = (ok tt, record f { outcome = value 7 })

with_run_iff_example :
    let (r, u) = with_runner fails_at_once (run false returns_seven new_task) (initial (4 ∷ [])) in
    let (f, t) = returns_seven (record new_task { has_callback = true }) in
    (u.loop_closed ≡ true) × ((r ≡ ok 7) ↔ ((f ≡ ok tt) × (t.outcome ≡ value 7)))
with_run_iff_example = with_run_iff fails_at_once returns_seven (4 ∷ []) new_task 7 refl

-- The statement returns 7, although the teardown has raised.
with_run_seven :
    (with_runner fails_at_once (run false returns_seven new_task) (initial (4 ∷ []))).0 ≡ ok 7
unfolding with_runner run initial run_until_complete close teardown close_its_loop call
with_run_seven = refl
