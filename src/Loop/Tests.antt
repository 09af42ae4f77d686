-- ===== src/Loop/Tests.antt =====
-- Runs of the methods of `class Loop`, talyn/loop.py, and of `class Runner`, talyn/runner.py.
mod Context
mod Sockets
mod Serving
use talyn.Loop.Reporting.{call_exception_handler-Ends, Ends}
use talyn.Loop.Asyncgens.{
  Generators, shutdown_asyncgens-reports, shutdown_asyncgens, reports, failures,
}
use talyn.Loop.Pools.{shut_down_for_good, SetsNone}
use talyn.Loop.Handlers
use talyn.Loop.Handlers.{
  call_exception_handler, Handlers, wrong_arguments, other_exception, user, message_key, text,
}
use talyn.Loop.Running
use talyn.Loop.Running.{Future, value}
use talyn.Loop.Runner
use talyn.Loop.Runner.{close_in_order, Runner, orderly}
use talyn.Loop.Keywords
use talyn.Base.{
  ◌↔◌, ◌==◌, ℕ, Option, ◌≡◌, refl, ◌++◌, true, false, none, some, List, [], ◌∷◌, if◌then◌else◌,
}
use talyn.Base.Exec.{Result, ok, raised}
use talyn.Base.Int.{pos}
use talyn.Loop.Executor.{
  run_in_executor, begin_shutdown, Loop, Executors, Event, loop_closed, shut_down, fresh, close,
  run,
}

abbrev sound : Executors
sound = record { fails = λ c. false }

abbrev work : List Event
work =
    Event.runs none 4 ∷ Event.begins_shutdown (some (pos 3)) ∷ Event.runs none 5 ∷ Event.closes ∷ []

abbrev busy : Loop
busy = record fresh { default_executor = some 7; running = true }

shut_down_for_good_example :
    let t = run sound (begin_shutdown sound none busy).1 work in
    run_in_executor sound none 6 t ≡ (raised (if t.closed then loop_closed else shut_down), t)
unfolding begin_shutdown SetsNone
shut_down_for_good_example =
    shut_down_for_good sound busy none work 6 (some 7, refl) (refl, (refl, (refl, (refl, tt))))

-- A handler with the parameters (loop, context): it takes no call with the context alone.
abbrev two_parameters : Handlers.Env
two_parameters = record {
  handle_with_loop = λ h c. none;
  handle_alone = λ h c. some wrong_arguments;
  unhandled = 85 ∷ [];
  dispatch_text = λ n. n ∷ [];
  closing_text = λ n. n ∷ [];
  is_falsy = λ n. false;
  repr_raises = λ v. none;
}

abbrev handled : Handlers
handled = record Handlers.fresh {
  exception_handler = user 3;
  user_exception_handler = some (user 3);
}

abbrev no_keywords : Handlers.Keywords
no_keywords = record {
  message = none;
  callback = none;
  future = none;
  task = none;
  handle = none;
  protocol = none;
  transport = none;
  socket = none;
  asyncgenerator = none;
}

call_exception_handler-Ends_example :
    Ends two_parameters
      ((message_key, text (1 ∷ [])) ∷ [])
      handled
      (call_exception_handler two_parameters ((message_key, text (1 ∷ [])) ∷ []) handled)
call_exception_handler-Ends_example =
    call_exception_handler-Ends two_parameters ((message_key, text (1 ∷ [])) ∷ []) handled

-- Of the generators 1 to 3, the first and the last cannot be closed; 9 is started meanwhile.
abbrev closing : ℕ → Option Handlers.Exn
closing g =
    if g == 1 then some (other_exception 5) else (if g == 3 then some wrong_arguments else none)

abbrev started : Generators
started = record { handlers = Handlers.fresh; asyncgens = 1 ∷ 2 ∷ 3 ∷ [] }

shutdown_asyncgens-reports_example :
    shutdown_asyncgens two_parameters closing (λ t. record t { asyncgens = 9 ∷ [] }) started ≡ (
      ok tt,
      record {
        handlers = record Handlers.fresh {
          entries = reports two_parameters Handlers.default (failures closing (1 ∷ 2 ∷ 3 ∷ []));
        };
        asyncgens = 9 ∷ [];
      },
    )
shutdown_asyncgens-reports_example =
    shutdown_asyncgens-reports two_parameters closing (λ t. record t { asyncgens = 9 ∷ [] }) started
      tt

-- A loop that runs until the future has the value 6.
abbrev finishes : Future → Result Running.Exn (Unit {0}) × Future
finishes f = (ok tt, record f { outcome = value 6 })

abbrev new_future : Future
new_future = record { outcome = Running.pending; has_callback = false; retrieved = false }

abbrev two_tasks : Runner
two_tasks = record { closed = false; loop_closed = false; tasks = 1 ∷ 2 ∷ []; calls = [] }

close_in_order_example :
    (Runner.close (λ c. false) two_tasks).1.calls ≡ [] ++ orderly two_tasks.tasks
close_in_order_example = close_in_order (λ c. false) (λ c. refl) two_tasks refl refl
