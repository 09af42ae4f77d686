-- ===== src/Loop/Objects.antt =====
-- `__init__` of `class Task` and of `class Future`, talyn/task.py and talyn/future.py, and
-- `class EventLoopPolicy` of talyn/loop.py. Loops, coroutines and contexts are numbers.
use talyn.Base.{arith, false, ◌≡◌, ℕ, Bool, Option, none, some, if◌then◌else◌}
use talyn.Base.Exec.{Result, ok, raised}

pub data Exn : Type 0 where
  eager_start_unsupported no_running_loop : Exn
  native_error : ℕ → Exn

-- The arguments of the native `__init__` of a task, in their order.
pub record TaskCall : Type 0 where
  pub coro : ℕ
  pub loop : ℕ
  pub name : Option ℕ
  pub context : Option ℕ

-- `asyncio.get_running_loop()`
abbrev pub get_running_loop : Option ℕ → Result Exn ℕ
get_running_loop none = raised no_running_loop
get_running_loop (some l) = ok l

-- `if loop is None: loop = asyncio.get_running_loop()`, where `running` is the loop that runs.
unfoldable pub loop_or_running : Option ℕ → Option ℕ → Result Exn ℕ
loop_or_running running (some l) = ok l
loop_or_running running none = get_running_loop running

abbrev pub chain : {A B : Type 0} → Result Exn A → (A → Result Exn B) → Result Exn B
chain (ok a) f = f a
chain (raised e) f = raised e

-- What the native `__init__` makes of its arguments is an argument.
unfoldable pub new_task :
    {T : Type 0}
    → (TaskCall → Result Exn T)
    → (running loop name context : Option ℕ) → (coro : ℕ) → (eager_start : Bool) → Result Exn T
unfolding loop_or_running
new_task native running loop name context coro eager_start =
    if eager_start
    then raised eager_start_unsupported
    else chain (loop_or_running running loop)
        (λ l. native (record { coro = coro; loop = l; name = name; context = context }))

unfoldable pub new_future :
    {F : Type 0} → (ℕ → Result Exn F) → (running loop : Option ℕ) → Result Exn F
unfolding loop_or_running
new_future native running loop = chain (loop_or_running running loop) native

-- If a loop is given, or one runs where none is given, a task without an eager start and a future
-- both belong to that loop; the task is made with the name and the context that were given.
pub made_on :
    (running loop name context : Option ℕ) (coro : ℕ) (l : ℕ)
    → loop_or_running running loop ≡ ok l
    → (new_task ok running loop name context coro false
        ≡ ok (record { coro = coro; loop = l; name = name; context = context }))
      × (new_future ok running loop ≡ ok l)
unfolding new_task new_future
made_on running loop name context coro l h = ground (arith, h)

-- `EventLoopPolicy`: the loop that it makes is the argument `make_loop`.
unfoldable pub new_event_loop : {Loop : Type 0} → (Unit {0} → Loop) → Loop
new_event_loop make_loop = make_loop tt
