-- ===== src/Subprocess/Spawn.antt =====
-- The frame of `subprocess_exec`, talyn/loop.py: the registry of children, the pipes that are
-- connected beforehand for a stream protocol, and what is done with the child on an error.
-- Popen, the pipe methods of the loop and the native `subprocess_exec` are arguments.
use talyn.Base.{
  ap, ◌∙◌, ◌≡◌, ◌⊎◌, refl, inl, inr, arith, ℕ, Bool, true, false, List, [], ◌∷◌, ◌++◌, add, discard,
  elem, elem-discard, ==_refl, Bool-cases, if◌then◌else◌,
}
use talyn.Base.Exec.{Result, ok, raised, Exec, pure, raise, ◌>>=◌, catch}
use talyn.Subprocess.Command.{Sample, no_sample, streams, plain}
use talyn.Subprocess.Wrapper.{Pipes}

pub data Exn : Type 0 where
  not_implemented : Exn
  failure : ℕ → Exn

pub record Spawn : Type 0 where
  -- `_subprocess_popens`
  pub registry : List ℕ
  pub killed : Bool
  pub waited : Bool

abbrev pub Action : Type 0 → Type 0
Action A = Exec Spawn Exn A

-- The child with its number, whether it is over when `poll` asks, and which of its files are pipes;
-- what `connect_write_pipe` and `connect_read_pipe` return for a descriptor, the transport and the
-- protocol; and what the native `subprocess_exec` does with the pipes.
pub record Env : Type 0 where
  pub pid : ℕ
  pub is_over : Bool
  pub is_open : ℕ → Bool
  pub connect : ℕ → Result Exn (ℕ × ℕ)
  pub native : Pipes → Result Exn ℕ

module _ (env : Env) where
  -- `_, t = await self.connect_...(...)`, `pre_pipes[fd] = t`
  abbrev pub after_connect : ℕ → Pipes → Result Exn (ℕ × ℕ) → Result Exn Pipes
  after_connect fd pipes (ok (_, t)) = ok (pipes ++ (fd, t) ∷ [])
  after_connect fd pipes (raised e) = raised e

  unfoldable pub connect_pipe : ℕ → Pipes → Action Pipes
  connect_pipe fd pipes s =
      (if env.is_open fd then after_connect fd pipes (env.connect fd) else ok pipes, s)

  unfoldable pub connect_pipes : Action Pipes
  unfolding connect_pipe
  connect_pipes = do first ← connect_pipe 0 []; second ← connect_pipe 1 first; connect_pipe 2 second

  -- `except NotImplementedError: pre_pipes = {}`
  abbrev pub without_pipes : Exn → Action Pipes
  without_pipes not_implemented = pure []
  without_pipes e = raise e

  unfoldable pub pre_pipes : Sample → Action Pipes
  unfolding connect_pipes
  pre_pipes streams = catch connect_pipes without_pipes
  pre_pipes _ = pure []

  abbrev pub run_native : Pipes → Action ℕ
  run_native pipes s = (env.native pipes, s)

  -- The `except BaseException` branch: a child that is not over is killed and waited for.
  unfoldable pub put_down : Exn → Action ℕ
  put_down e s = (raised e, if env.is_over then s else record s { killed = true; waited = true })

  -- The `finally` branch.
  abbrev pub unregister : Result Exn ℕ × Spawn → Result Exn ℕ × Spawn
  unregister (r, s) = (r, record s { registry = discard env.pid s.registry })

  -- From the registration of the child to the end.
  unfoldable pub subprocess_exec : Sample → Action ℕ
  unfolding pre_pipes put_down
  subprocess_exec kind s = unregister (
      catch (pre_pipes kind >>= run_native) put_down
        (record s { registry = add env.pid s.registry }))

  connect_pipe-same : (fd : ℕ) (pipes : Pipes) (s : Spawn) → (connect_pipe fd pipes s).1 ≡ s
  unfolding connect_pipe
  connect_pipe-same fd pipes s = refl

  bind-same :
      (p : Result Exn Pipes × Spawn) (k : Pipes → Action Pipes) (s : Spawn)
      → p.1 ≡ s
      → ((pipes : Pipes) (t : Spawn) → (k pipes t).1 ≡ t)
      → (((λ _. p) >>= k) s).1 ≡ s
  bind-same (ok pipes, t) k s e h = h pipes t ∙ e
  bind-same (raised x, t) k s e h = e

  catch-same :
      (p : Result Exn Pipes × Spawn) (s : Spawn) → p.1 ≡ s → (catch (λ _. p) without_pipes s).1 ≡ s
  catch-same (ok pipes, t) s e = e
  catch-same (raised not_implemented, t) s e = e
  catch-same (raised (failure n), t) s e = e

  connect_pipes-same : (s : Spawn) → (connect_pipes s).1 ≡ s
  unfolding connect_pipes
  connect_pipes-same s =
      bind-same (connect_pipe 0 [] s) (λ first. connect_pipe 1 first >>= connect_pipe 2) s
        (connect_pipe-same 0 [] s)
        (λ first t.
          bind-same (connect_pipe 1 first t) (connect_pipe 2) t (connect_pipe-same 1 first t)
            (connect_pipe-same 2))

  pre_pipes-same : (kind : Sample) (s : Spawn) → (pre_pipes kind s).1 ≡ s
  unfolding pre_pipes
  pre_pipes-same streams s = catch-same (connect_pipes s) s (connect_pipes-same s)
  pre_pipes-same no_sample s = refl
  pre_pipes-same plain s = refl

  -- The state after a start, and its outcome.
  abbrev pub IsClean : Result Exn ℕ × Spawn → Type 0
  IsClean (ok wrapper, t) = (elem env.pid t.registry ≡ false) × (t.killed ≡ false)
  IsClean (raised e, t) =
      (elem env.pid t.registry ≡ false)
      × ((env.is_over ≡ true) ⊎ ((t.killed ≡ true) × (t.waited ≡ true)))

  gone : (l : List ℕ) → elem env.pid (discard env.pid l) ≡ false
  gone l = ground (arith, elem-discard env.pid env.pid l, ==_refl env.pid)

  native-IsClean :
      (r : Result Exn ℕ) (s : Spawn)
      → s.killed ≡ false
      → IsClean (unregister (catch (λ u. (r, u)) put_down s))
  unfolding put_down
  native-IsClean (ok w) s k = (gone s.registry, k)
  native-IsClean (raised e) s k = elim (Bool-cases env.is_over) [
    | inl o ↦ rw o (gone s.registry, inl refl)
    | inr o ↦ rw o (gone s.registry, inr (refl, refl))
  ]

  frame-IsClean :
      (p : Result Exn Pipes × Spawn)
      → p.1.killed ≡ false
      → (s : Spawn) → IsClean (unregister (catch ((λ _. p) >>= run_native) put_down s))
  frame-IsClean (ok pipes, t) k s = native-IsClean (env.native pipes) t k
  frame-IsClean (raised e, t) k s = native-IsClean (raised e) t k

  -- However the start of a child ends, the child is not in the registry afterwards; if an exception
  -- goes on, the child is over or was killed and waited for, and if not, it was not killed.
  pub subprocess_exec-IsClean :
      (kind : Sample) (s : Spawn) → s.killed ≡ false → IsClean (subprocess_exec kind s)
  unfolding subprocess_exec
  subprocess_exec-IsClean kind s k =
      let s' = record s { registry = add env.pid s.registry } in
      frame-IsClean (pre_pipes kind s') (ap (λ u. u.killed) (pre_pipes-same kind s') ∙ k) s'
