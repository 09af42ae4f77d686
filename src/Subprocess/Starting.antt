-- ===== src/Subprocess/Starting.antt =====
-- The start of a child as a whole, talyn/loop.py: how often the protocol factory is called, with what
-- arguments Popen is called, and what is left of the child.
use talyn.Subprocess.Spawn.{pre_pipes, Spawn}
use talyn.Base.Exec.{◌>>=◌, raised, ok, Result}
use talyn.Base.{
  some, none, [], Option-cases, ◌≢◌, ◌∷◌, suc, ◌≤◌, ◌++◌, is_some, List, ℕ, true, if◌then◌else◌,
  false, ◌≡◌, Bool, refl, arith, elem, ◌⊎◌,
}
use talyn.Base.Text.{Text}
use talyn.Subprocess.Spawn
use talyn.Subprocess.Command.{Sample, no_sample}
use talyn.Subprocess.Start.{
  after_sample, child_result, call_popen, Protocol, take_sample, Env, Start, Options, PopenArgs,
  Child, Answer, makes, makes_none, fails, dies, kind_of, popen_args, wrapped_factory, run_child,
  reaches, spawn_env, subprocess_exec, Exn,
}

-- The first answer of the factory: what it makes the sample to be, and whether it is a protocol.
abbrev pub sample_of : Answer → Sample
sample_of (makes p) = kind_of p
sample_of _ = no_sample

abbrev pub is_protocol : Answer → Bool
is_protocol (makes p) = true
is_protocol _ = false

-- What a start leaves of its child.
abbrev pub IsClean : Child → Result Exn ℕ × Start → Type 0
IsClean child (ok wrapper, t) = (elem child.pid t.spawn.registry ≡ false) × (t.spawn.killed ≡ false)
IsClean child (raised e, t) =
    (elem child.pid t.spawn.registry ≡ false)
    × ((child.is_over ≡ true) ⊎ ((t.spawn.killed ≡ true) × (t.spawn.waited ≡ true)))

-- After the start of a child with these arguments, from a state and with a first answer of the
-- factory.
abbrev pub Ends : Answer → PopenArgs → Child → Start → Result Exn ℕ × Start → Type 0
Ends first a child s (r, t) =
    IsClean child (r, t)
    × (t.popen_calls ≡ s.popen_calls ++ a ∷ [])
    × (suc s.calls ≤ t.calls)
    × (t.calls ≤ (if is_protocol first then suc s.calls else suc (suc s.calls)))

module _ (env : Env) where
  wrapped_factory-calls :
      (s : Start)
      → let t = (wrapped_factory env s).1 in
        (t.popen_calls ≡ s.popen_calls)
        × (t.calls ≡ (if is_some s.holder then s.calls else suc s.calls))
  unfolding wrapped_factory
  wrapped_factory-calls s = ground (arith, Option-cases s.holder)

  -- The state after the frame, apart from that of the frame.
  asked-calls :
      (asked : Bool) (s : Start)
      → let t = if asked then (wrapped_factory env s).1 else s in
        (t.popen_calls ≡ s.popen_calls)
        × (s.calls ≤ t.calls)
        × (t.calls ≤ (if is_some s.holder then s.calls else suc s.calls))
  asked-calls true s = ground (arith, wrapped_factory-calls s)
  asked-calls false s = ground arith

  frame-IsClean :
      (a : PopenArgs) (child : Child) (made : Result Spawn.Exn Protocol) (t : Start)
      (r : Result Spawn.Exn ℕ) (spawn' : Spawn)
      → Spawn.IsClean (spawn_env env a child made) (r, spawn')
      → IsClean child (child_result env r, record t { spawn = spawn' })
  frame-IsClean a child made t (ok w) spawn' h = h
  frame-IsClean a child made t (raised e) spawn' h = h

  run_child-IsClean :
      (kind : Sample) (a : PopenArgs) (child : Child) (s : Start)
      → s.spawn.killed ≡ false
      → IsClean child (run_child env kind a child s)
  unfolding run_child
  run_child-IsClean kind a child s k =
      let (made, s') = wrapped_factory env s in
      let frame = spawn_env env a child made in
      let (r, spawn') = Spawn.subprocess_exec frame kind s.spawn in
      frame-IsClean a child made (if reaches env (pre_pipes frame kind s.spawn).0 then s' else s) r
        spawn' (Spawn.subprocess_exec-IsClean frame kind s.spawn k)

  call_popen-Ends :
      (kind : Sample) (a : PopenArgs) (child : Child) (s : Start)
      → env.popen a ≡ ok child
      → s.spawn.killed ≡ false
      → let (r, t) = call_popen env kind a s in
        IsClean child (r, t)
        × (t.popen_calls ≡ s.popen_calls ++ a ∷ [])
        × (s.calls ≤ t.calls)
        × (t.calls ≤ (if is_some s.holder then s.calls else suc s.calls))
  unfolding call_popen run_child
  call_popen-Ends kind a child s p k =
      let s' = record s { popen_calls = s.popen_calls ++ a ∷ [] } in
      let frame = spawn_env env a child (wrapped_factory env s').0 in
      let (popens, least, most) = asked-calls (reaches env (pre_pipes frame kind s'.spawn).0) s' in
      rw p (run_child-IsClean kind a child s' k, popens, least, most)

  sample-Ends :
      (first : Answer) (cmd : List Text) (o : Options) (s : Start) (child : Child)
      → let a = popen_args (sample_of first) cmd o in
        ((e : ℕ) → first ≢ dies e)
        → env.popen a ≡ ok child
        → s.spawn.killed ≡ false
        → Ends first a child s (
            (after_sample first >>= λ kind. call_popen env kind (popen_args kind cmd o))
              (record s { calls = suc s.calls; holder = none }))
  sample-Ends (makes q) cmd o s child alive p k =
      call_popen-Ends (kind_of q) (popen_args (kind_of q) cmd o) child
        (record s { calls = suc s.calls; holder = some q }) p k
  sample-Ends makes_none cmd o s child alive p k =
      call_popen-Ends no_sample (popen_args no_sample cmd o) child
        (record s { calls = suc s.calls; holder = none }) p k
  sample-Ends (fails e) cmd o s child alive p k =
      call_popen-Ends no_sample (popen_args no_sample cmd o) child
        (record s { calls = suc s.calls; holder = none }) p k
  sample-Ends (dies e) cmd o s child alive p k = absurd (alive e refl)

  -- If the first call of the factory does not raise a `BaseException` that is no `Exception`, and
  -- Popen makes a child when it is called with the files that are chosen for what the factory has
  -- made, and no child was killed before: Popen was called once; the factory was called once if it
  -- has made a protocol, and at most twice otherwise; and however the start ends, the child is not in
  -- the registry, and if an exception goes on, it is over or was killed and waited for, and if not,
  -- it was not killed.
  pub subprocess_exec-Ends :
      (cmd : List Text) (o : Options) (s : Start) (child : Child)
      → let first = env.factory s.calls in
        let a = popen_args (sample_of first) cmd o in
        ((e : ℕ) → first ≢ dies e)
        → env.popen a ≡ ok child
        → s.spawn.killed ≡ false
        → Ends first a child s (subprocess_exec env cmd o s)
  unfolding subprocess_exec take_sample call_popen
  subprocess_exec-Ends cmd o s child = sample-Ends (env.factory s.calls) cmd o s child
