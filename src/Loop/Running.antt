-- ===== src/Loop/Running.antt =====
-- `run_until_complete` of `class Loop`, talyn/loop.py. What `run_forever` does to the future, and how
-- it ends, is an argument.
use talyn.Base.{ℕ, Bool, true, false, not, ◌&&◌, ◌||◌, ◌≡◌, ◌↔◌, arith, if◌then◌else◌}
use talyn.Base.Exec.{Result, ok, raised}

pub data Exn : Type 0 where
  closed_or_running stopped_early cancelled_error : Exn
  other : ℕ → Exn

pub data Outcome : Type 0 where
  pending cancelled : Outcome
  value : ℕ → Outcome
  failure : Exn → Outcome

pub record Future : Type 0 where
  pub outcome : Outcome
  -- `__run_until_complete_cb` is among the callbacks.
  pub has_callback : Bool
  -- `exception()` or `result()` was called, so that nothing is logged when the future goes away.
  pub retrieved : Bool

abbrev pub is_done : Outcome → Bool
is_done pending = false
is_done _ = true

abbrev pub is_cancelled : Outcome → Bool
is_cancelled cancelled = true
is_cancelled _ = false

-- `future.result()` of a future that is done
abbrev pub result : Future → Result Exn ℕ × Future
result f = elim f.outcome [
  | pending ↦ (raised stopped_early, f)
  | cancelled ↦ (raised cancelled_error, f)
  | value v ↦ (ok v, record f { retrieved = true })
  | failure e ↦ (raised e, record f { retrieved = true })
]

abbrev pub remove_callback : Future → Future
remove_callback f = record f { has_callback = false }

-- The `except BaseException` branch, before it raises again.
abbrev pub consume : Bool → Future → Future
consume new_task f =
    if new_task && is_done f.outcome && not (is_cancelled f.outcome)
    then record f { retrieved = true }
    else f

-- `new_task`: the argument was no future, so a task was made of it.
unfoldable pub run_until_complete :
    (closed running new_task : Bool)
    → (Future → Result Exn (Unit {0}) × Future)
    → Future
    → Result Exn ℕ × Future
run_until_complete closed running new_task run_forever future =
    if closed || running
    then (raised closed_or_running, future)
    else (let (r, f) = run_forever (record future { has_callback = true }) in
        elim r [
          | raised e ↦ (raised e, remove_callback (consume new_task f))
          | ok _ ↦
              let f' = remove_callback f in
              if not (is_done f'.outcome) then (raised stopped_early, f') else result f'
        ])

module _ (closed running new_task : Bool)
    (run_forever : Future → Result Exn (Unit {0}) × Future) where
  -- `run_until_complete` of an open loop that is not running takes its callback off the future
  -- however `run_forever` ends.
  pub run_until_complete-removes :
      (future : Future)
      → closed ≡ false
      → running ≡ false
      → (run_until_complete closed running new_task run_forever future).1.has_callback ≡ false
  unfolding run_until_complete
  run_until_complete-removes future c r = ground arith

  -- It returns a value exactly if the loop is open and not running, `run_forever` returns, and
  -- leaves the future with that value.
  pub run_until_complete-returns :
      (future : Future) (v : ℕ)
      → ((run_until_complete closed running new_task run_forever future).0 ≡ ok v) ↔ (
          (closed ≡ false)
          × (running ≡ false)
          × ((run_forever (record future { has_callback = true })).0 ≡ ok tt)
          × ((run_forever (record future { has_callback = true })).1.outcome ≡ value v))
  unfolding run_until_complete
  run_until_complete-returns future v = ground arith
