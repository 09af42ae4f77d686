-- ===== src/Loop/Runner.antt =====
-- `class Runner` of talyn/runner.py. The calls on the loop are kept in `calls`; which of them raise
-- is an argument.
use talyn.Base.{
  not, ◌||◌, ap, ◌∙◌, append_assoc, append-nil, map, ℕ, Bool, true, false, refl, ◌≡◌, arith,
  if◌then◌else◌, List, [], ◌∷◌, ◌++◌,
}
use talyn.Base.Exec.{ok, raised, Exec, pure, modify, ◌>>◌, catch}

pub data Call : Type 0 where
  all_tasks : Call
  cancel : ℕ → Call
  run_wait_cancelled run_shutdown_asyncgens run_shutdown_default_executor close_loop : Call
  log_teardown_failed : Call

pub record Runner : Type 0 where
  pub closed : Bool
  pub loop_closed : Bool
  -- `asyncio.all_tasks(loop)`
  pub tasks : List ℕ
  pub calls : List Call

abbrev pub Action : Type 0 → Type 0
Action A = Exec Runner Call A

module _ (fails : Call → Bool) where
  unfoldable pub call : Call → Action (Unit {0})
  call c s = (if fails c then raised c else ok tt, record s { calls = s.calls ++ c ∷ [] })

  unfoldable pub cancel_all : List ℕ → Action (Unit {0})
  unfolding call
  cancel_all [] = pure tt
  cancel_all (t ∷ ts) = do call (cancel t); cancel_all ts

  -- `if to_cancel`
  unfoldable pub cancel_tasks : List ℕ → Action (Unit {0})
  unfolding call cancel_all
  cancel_tasks [] = pure tt
  cancel_tasks (t ∷ ts) = do cancel_all (t ∷ ts); call run_wait_cancelled

  abbrev pub shut_down : Action (Unit {0})
  shut_down = do call run_shutdown_asyncgens; call run_shutdown_default_executor

  abbrev pub stop_tasks : Action (Unit {0})
  stop_tasks s = (do cancel_tasks s.tasks; shut_down) s

  -- The body of the `try` of `close`.
  unfoldable pub teardown : Action (Unit {0})
  unfolding call cancel_tasks
  teardown = do call all_tasks; stop_tasks

  abbrev pub log : Call → Action (Unit {0})
  log _ = modify (λ s. record s { calls = s.calls ++ log_teardown_failed ∷ [] })

  -- `loop.close()` in the `finally`
  unfoldable pub close_its_loop : Action (Unit {0})
  unfolding call
  close_its_loop = do call close_loop; modify (λ s. record s { loop_closed = true })

  unfoldable pub close : Action (Unit {0})
  unfolding teardown close_its_loop
  close s =
      if s.closed
      then (ok tt, s)
      else (let s' = record s { closed = true } in
          if s.loop_closed then (ok tt, s') else (do catch teardown log; close_its_loop) s')

-- A closed runner has closed its loop.
abbrev pub is_sound : Runner → Bool
is_sound s = not s.closed || s.loop_closed

-- A run of calls that all go through.
module _ (fails : Call → Bool) where
  Keeps : Runner → Runner → Type 0
  Keeps s t = (t.closed ≡ s.closed) × (t.loop_closed ≡ s.loop_closed)

  bind-Keeps :
      (m k : Action (Unit {0})) (s : Runner)
      → Keeps s (m s).1
      → ((t : Runner) → Keeps t (k t).1)
      → Keeps s ((do m; k) s).1
  unfolding Keeps
  bind-Keeps m k s h g = ground (arith, g (m s).1)

  call-Keeps : (c : Call) (s : Runner) → Keeps s (call fails c s).1
  unfolding call Keeps
  call-Keeps c s = (refl, refl)

  cancel_all-Keeps : (ts : List ℕ) (s : Runner) → Keeps s (cancel_all fails ts s).1
  unfolding cancel_all Keeps
  cancel_all-Keeps [] s = (refl, refl)
  cancel_all-Keeps (t ∷ ts) s =
      bind-Keeps (call fails (cancel t)) (cancel_all fails ts) s (call-Keeps (cancel t) s)
        (cancel_all-Keeps ts)

  cancel_tasks-Keeps : (ts : List ℕ) (s : Runner) → Keeps s (cancel_tasks fails ts s).1
  unfolding cancel_tasks Keeps
  cancel_tasks-Keeps [] s = (refl, refl)
  cancel_tasks-Keeps (t ∷ ts) s =
      bind-Keeps (cancel_all fails (t ∷ ts)) (call fails run_wait_cancelled) s
        (cancel_all-Keeps (t ∷ ts) s) (call-Keeps run_wait_cancelled)

  shut_down-Keeps : (s : Runner) → Keeps s (shut_down fails s).1
  shut_down-Keeps s =
      bind-Keeps (call fails run_shutdown_asyncgens) (call fails run_shutdown_default_executor) s
        (call-Keeps run_shutdown_asyncgens s) (call-Keeps run_shutdown_default_executor)

  stop_tasks-Keeps : (s : Runner) → Keeps s (stop_tasks fails s).1
  stop_tasks-Keeps s =
      bind-Keeps (cancel_tasks fails s.tasks) (shut_down fails) s (cancel_tasks-Keeps s.tasks s)
        shut_down-Keeps

  teardown-Keeps : (s : Runner) → Keeps s (teardown fails s).1
  unfolding teardown
  teardown-Keeps s =
      bind-Keeps (call fails all_tasks) (stop_tasks fails) s (call-Keeps all_tasks s)
        stop_tasks-Keeps

  pub close-ends :
      (s : Runner)
      → fails close_loop ≡ false
      → is_sound s ≡ true
      → let (r, t) = close fails s in (r ≡ ok tt) × (t.closed ≡ true) × (t.loop_closed ≡ true)
  unfolding close close_its_loop call Keeps
  close-ends s f h = ground (arith, teardown-Keeps (record s { closed = true }))

  -- `close` of a runner closes its loop if `loop.close` does not raise, whatever raises in the
  -- teardown, and a second `close` does nothing.
  pub close_closes :
      (s : Runner)
      → fails close_loop ≡ false
      → s.closed ≡ false
      → let (r, t) = close fails s in
        (r ≡ ok tt) × (t.loop_closed ≡ true) × (close fails t ≡ (ok tt, t))
  unfolding close close_its_loop call Keeps
  close_closes s f c = ground (arith, teardown-Keeps (record s { closed = true }))

-- The calls that cancel the tasks and wait for them, if there are any.
waited : List ℕ → List Call
waited [] = []
waited (t ∷ ts) = map cancel (t ∷ ts) ++ run_wait_cancelled ∷ []

-- The calls of a `close` that goes well.
pub orderly : List ℕ → List Call
orderly ts =
    (all_tasks ∷ waited ts)
    ++ run_shutdown_asyncgens ∷ run_shutdown_default_executor ∷ close_loop ∷ []

module _ (fails : Call → Bool) (sound : (c : Call) → fails c ≡ false) where
  -- A call that goes through, then the rest.
  then_lem : (m k : Action (Unit {0})) (s t : Runner) → m s ≡ (ok tt, t) → (do m; k) s ≡ k t
  then_lem m k s t e = ap (λ p. (do (λ _. p); k) s) e

  abbrev after : List Call → Runner → Runner
  after cs s = record s { calls = s.calls ++ cs }

  call_lem : (c : Call) (s : Runner) → call fails c s ≡ (ok tt, after (c ∷ []) s)
  unfolding call
  call_lem c s = ground (arith, sound c)

  after-after : (cs ds : List Call) (s : Runner) → after ds (after cs s) ≡ after (cs ++ ds) s
  after-after cs ds s = rw append_assoc refl

  cancel_all_lem :
      (ts : List ℕ) (s : Runner) → cancel_all fails ts s ≡ (ok tt, after (map cancel ts) s)
  unfolding cancel_all
  cancel_all_lem [] s = rw append-nil refl
  cancel_all_lem (t ∷ ts) s =
      then_lem (call fails (cancel t)) (cancel_all fails ts) s _ (call_lem (cancel t) s)
      ∙ cancel_all_lem ts (after (cancel t ∷ []) s)
      ∙ ap (λ u. (ok tt, u)) (after-after (cancel t ∷ []) (map cancel ts) s)

  cancel_tasks_lem :
      (ts : List ℕ) (s : Runner) → cancel_tasks fails ts s ≡ (ok tt, after (waited ts) s)
  unfolding cancel_tasks waited
  cancel_tasks_lem [] s = rw append-nil refl
  cancel_tasks_lem (t ∷ ts) s =
      then_lem (cancel_all fails (t ∷ ts)) (call fails run_wait_cancelled) s _
        (cancel_all_lem (t ∷ ts) s)
      ∙ call_lem run_wait_cancelled (after (map cancel (t ∷ ts)) s)
      ∙ ap (λ u. (ok tt, u)) (after-after (map cancel (t ∷ ts)) (run_wait_cancelled ∷ []) s)

  shut_down_lem :
      (s : Runner)
      → shut_down fails s
        ≡ (ok tt, after (run_shutdown_asyncgens ∷ run_shutdown_default_executor ∷ []) s)
  shut_down_lem s =
      then_lem (call fails run_shutdown_asyncgens) (call fails run_shutdown_default_executor) s _
        (call_lem run_shutdown_asyncgens s)
      ∙ call_lem run_shutdown_default_executor (after (run_shutdown_asyncgens ∷ []) s)
      ∙ ap (λ u. (ok tt, u))
          (after-after (run_shutdown_asyncgens ∷ []) (run_shutdown_default_executor ∷ []) s)

  teardown_lem :
      (s : Runner)
      → teardown fails s ≡ (
        ok tt,
        after
            (run_shutdown_asyncgens ∷ run_shutdown_default_executor ∷ [])
            (after (waited s.tasks) (after (all_tasks ∷ []) s)),
      )
  unfolding teardown
  teardown_lem s =
      then_lem (call fails all_tasks) (stop_tasks fails) s _ (call_lem all_tasks s)
      ∙ then_lem (cancel_tasks fails s.tasks) (shut_down fails) (after (all_tasks ∷ []) s) _
          (cancel_tasks_lem s.tasks (after (all_tasks ∷ []) s))
      ∙ shut_down_lem (after (waited s.tasks) (after (all_tasks ∷ []) s))

  close_calls :
      (s : Runner)
      → s.closed ≡ false
      → s.loop_closed ≡ false
      → (close fails s).1.calls
        ≡ (((s.calls ++ all_tasks ∷ []) ++ waited s.tasks)
            ++ run_shutdown_asyncgens ∷ run_shutdown_default_executor ∷ [])
          ++ close_loop ∷ []
  unfolding close close_its_loop call
  close_calls s c o = ground (arith, teardown_lem (record s { closed = true }), sound close_loop)

  -- Where nothing raises, the first `close` of a runner with an open loop looks for the tasks, cancels
  -- every one, waits for them if there are any, shuts down the asynchronous generators and the
  -- default executor, and closes the loop, in this order.
  pub close_in_order :
      (s : Runner)
      → s.closed ≡ false
      → s.loop_closed ≡ false
      → (close fails s).1.calls ≡ s.calls ++ orderly s.tasks
  unfolding orderly
  close_in_order s c o = close_calls s c o ∙ rw (append_assoc, append_assoc, append_assoc) refl
