-- ===== src/Loop/Pools.antt =====
-- The thread pools of a loop: how many it makes, when it refuses work, and what a shutdown does.
use talyn.Base.{
  Bool-cases, is_some, if◌then◌else◌, Option-cases, ◌≡◌, refl, ◌⊎◌, inl, arith, ℕ, Bool, true,
  false, Option, none, some, List, [], ◌∷◌, ◌++◌, ◌≤◌,
}
use talyn.Base.Exec.{ok, raised}
use talyn.Base.Int.{ℤ, pos, negsuc}
use talyn.Loop.Executor.{
  shutdown_default_executor, do_shutdown, begin_shutdown, set_default_executor, call, choose,
  run_in_executor, Loop, Executors, Event, loop_running, loop_closed, shut_down, shutdown, fresh,
  close, step, run,
}

-- While no pool is the default one, none was made or a shutdown was asked for.
abbrev IsFrugal : Loop → Type 0
IsFrugal s =
    (s.made ≤ 1)
    × (s.made ≡ 0 ⊎ is_some s.default_executor ≡ true ⊎ s.shutdown_executor_called ≡ true)

module _ (env : Executors) where
  step-IsFrugal : (s : Loop) (e : Event) → IsFrugal s → IsFrugal (step env s e)
  unfolding step run_in_executor choose call set_default_executor begin_shutdown do_shutdown close
  step-IsFrugal s (Event.runs none job) h = ground (
    arith,
    Option-cases s.default_executor,
    Bool-cases s.shutdown_executor_called,
    Bool-cases s.closed,
  )
  step-IsFrugal s (Event.runs (some x) job) h = ground arith
  step-IsFrugal s (Event.sets b x) h = ground arith
  step-IsFrugal s (Event.begins_shutdown none) h = ground arith
  step-IsFrugal s (Event.begins_shutdown (some (pos n))) h = ground arith
  step-IsFrugal s (Event.begins_shutdown (some (negsuc n))) h = h
  step-IsFrugal s (Event.thread_shuts_down x f) h =
      ground (arith, Option-cases x, Option-cases s.default_executor)
  step-IsFrugal s Event.closes h = ground (arith, Option-cases s.default_executor)
  step-IsFrugal s Event.starts h = ground arith
  step-IsFrugal s Event.stops h = h

  run-IsFrugal : (s : Loop) (es : List Event) → IsFrugal s → IsFrugal (run env s es)
  unfolding run
  run-IsFrugal s [] h = h
  run-IsFrugal s (e ∷ es) h = run-IsFrugal (step env s e) es (step-IsFrugal s e h)

  -- Whatever is done with a new loop, and whatever raises, it makes at most one thread pool.
  pub one_pool : (es : List Event) → (run env fresh es).made ≤ 1
  one_pool es = (run-IsFrugal fresh es (omega arith, inl refl)).0

-- No default executor is set from outside.
abbrev pub is_set : Event → Bool
is_set (Event.sets _ _) = true
is_set _ = false

unfoldable pub SetsNone : List Event → Type 0
SetsNone [] = Unit
SetsNone (e ∷ es) = (is_set e ≡ false) × SetsNone es

-- The loop has given up its default executor.
abbrev pub IsRetired : Loop → Type 0
IsRetired s = (s.default_executor ≡ none) × (s.shutdown_executor_called ≡ true)

module _ (env : Executors) where
  step-IsRetired :
      (s : Loop) (e : Event) → is_set e ≡ false → IsRetired s → IsRetired (step env s e)
  unfolding step run_in_executor choose call set_default_executor begin_shutdown do_shutdown close
  step-IsRetired s (Event.runs none job) n h = ground arith
  step-IsRetired s (Event.runs (some x) job) n h = ground arith
  step-IsRetired s (Event.sets b x) n h = absurd cc
  step-IsRetired s (Event.begins_shutdown none) n h = ground arith
  step-IsRetired s (Event.begins_shutdown (some (pos k))) n h = ground arith
  step-IsRetired s (Event.begins_shutdown (some (negsuc k))) n h = h
  step-IsRetired s (Event.thread_shuts_down x f) n h = ground (arith, Option-cases x)
  step-IsRetired s Event.closes n h = ground arith
  step-IsRetired s Event.starts n h = ground arith
  step-IsRetired s Event.stops n h = h

  run-IsRetired :
      (s : Loop) (es : List Event) → SetsNone es → IsRetired s → IsRetired (run env s es)
  unfolding run SetsNone
  run-IsRetired s [] n h = h
  run-IsRetired s (e ∷ es) (n, ns) h = run-IsRetired (step env s e) es ns (step-IsRetired s e n h)

  begin-IsRetired :
      (s : Loop) (timeout : Option ℤ) (x : Option ℕ)
      → (begin_shutdown env timeout s).0 ≡ ok x
      → IsRetired (begin_shutdown env timeout s).1
  unfolding begin_shutdown
  begin-IsRetired s none x h = ground arith
  begin-IsRetired s (some (pos k)) x h = ground arith
  begin-IsRetired s (some (negsuc k)) x h = absurd cc

  refused_lem :
      (t : Loop) (job : ℕ)
      → IsRetired t
      → run_in_executor env none job t ≡ (raised (if t.closed then loop_closed else shut_down), t)
  unfolding run_in_executor choose
  refused_lem t job h = ground arith

  -- After a call of `shutdown_default_executor` with a valid timeout, and any later history in which
  -- no default executor is set, `run_in_executor` without an executor raises and submits nothing.
  pub shut_down_for_good :
      (s : Loop) (timeout : Option ℤ) (es : List Event) (job : ℕ)
      → (x : Option ℕ) × ((begin_shutdown env timeout s).0 ≡ ok x)
      → SetsNone es
      → let t = run env (begin_shutdown env timeout s).1 es in
        run_in_executor env none job t ≡ (raised (if t.closed then loop_closed else shut_down), t)
  shut_down_for_good s timeout es job valid n =
      refused_lem _ job (run-IsRetired _ es n (begin-IsRetired s timeout valid.0 valid.1))

  -- A shutdown that meets a default executor and no failure, and whose loop is not closed meanwhile,
  -- shuts that executor down after all that the loop does meanwhile, and returns.
  pub shutdown_default_executor_lem :
      (s : Loop) (x : ℕ) (timeout : Option ℤ) (es : List Event)
      → s.default_executor ≡ some x
      → (begin_shutdown env timeout s).0 ≡ ok (some x)
      → env.fails (shutdown x true) ≡ false
      → (run env (begin_shutdown env timeout s).1 es).closed ≡ false
      → let t = run env (begin_shutdown env timeout s).1 es in
        shutdown_default_executor env (λ u. run env u es) timeout s
        ≡ (ok true, record t { calls = t.calls ++ shutdown x true ∷ [] })
  unfolding shutdown_default_executor do_shutdown call
  shutdown_default_executor_lem s x timeout es d v f c = ground arith

  -- `close` of a running loop that has a default executor shuts the executor down before it
  -- raises: the loop goes on, and `run_in_executor` without an executor raises from then on.
  pub close_running :
      (s : Loop) (x job : ℕ)
      → s.running ≡ true
      → s.closed ≡ false
      → s.default_executor ≡ some x
      → env.fails (shutdown x false) ≡ false
      → let (r, t) = close env s in
        (r ≡ raised loop_running)
        × (t.closed ≡ false)
        × (t.calls ≡ s.calls ++ shutdown x false ∷ [])
        × ((run_in_executor env none job t).0 ≡ raised shut_down)
  unfolding close call run_in_executor choose
  close_running s x job r c d f = ground arith
