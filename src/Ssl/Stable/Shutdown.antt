-- ===== src/Ssl/Stable/Shutdown.antt =====
-- The shutdown of a TLS connection of talyn/loop.py, and the properties that it keeps.
use talyn.Ssl.Bio.{is_empty, on_tls, emit, attempt}
use talyn.Ssl.Wrapper.{
  raw_call, timeout_or_default, start_shutdown, force_close, await_peer, arm_timer, after_unwrap,
  flush_write_buffer, flush,
}
use talyn.Base.Exec.{modify, ◌>>=◌, raised, when, ok, pure, Result, ◌>>◌}
use talyn.Ssl.State.{RawCall, want_write, want_read, Effect, Exn, Conn, Env}
use talyn.Base.{none, refl, not, is_some, ◌&&◌, if◌then◌else◌, ◌++◌, [], ◌∷◌}
use talyn.Ssl.Keeping.{Keeps, bind-Keeps, when-Keeps, if-Keeps}
use talyn.Ssl.Stable.{
  Watched, Of, Stable, emit-Keeps, on_tls-Keeps, flush-Keeps, flush_write_buffer-Keeps,
}

module _ {Obj Raw : Type 0} (env : Env Obj Raw) (Q : Watched Obj) (stable : Stable env Q) where
  abbrev P : Conn Obj Raw → Type 0
  P = Of Q

  force_close-Keeps : Keeps P (force_close env)
  unfolding force_close
  force_close-Keeps s p =
      bind-Keeps P
        (when (is_some s.timer)
          (do emit Effect.cancel_timer; modify (λ t. record t { timer = none })))
        (λ _. raw_call env RawCall.close)
        (when-Keeps P (is_some s.timer)
          (do emit Effect.cancel_timer; modify (λ t. record t { timer = none }))
          (emit-Keeps env Q stable Effect.cancel_timer refl))
        (λ _ t q. q) s p

  arm_timer-Keeps : Keeps P (arm_timer env)
  arm_timer-Keeps s p =
      emit-Keeps env Q stable (Effect.call_later (timeout_or_default env env.shutdown_timeout)) refl
        s p

  await_peer-Keeps : Keeps P (await_peer env)
  unfolding await_peer
  await_peer-Keeps =
      bind-Keeps P (flush env)
        (λ _ s.
          (if not (is_some s.timer) && env.loop_open then arm_timer env else force_close env) s)
        (flush-Keeps env Q stable)
        (λ _ s.
          if-Keeps P (not (is_some s.timer) && env.loop_open) (arm_timer env) (force_close env)
            arm_timer-Keeps force_close-Keeps s)

  flush_close-Keeps : Keeps P (do flush env; force_close env)
  flush_close-Keeps =
      bind-Keeps P (flush env) (λ _. force_close env) (flush-Keeps env Q stable)
        (λ _. force_close-Keeps)

  after_unwrap-Keeps : (r : Result Exn (Unit {0})) → Keeps P (after_unwrap env r)
  unfolding after_unwrap
  after_unwrap-Keeps (ok _) = flush_close-Keeps
  after_unwrap-Keeps (raised want_read) = await_peer-Keeps
  after_unwrap-Keeps (raised want_write) = await_peer-Keeps
  after_unwrap-Keeps (raised e) = λ s p.
      flush_close-Keeps (record s { trace = s.trace ++ Effect.logged ∷ [] })
        (emit-Keeps env Q stable Effect.logged refl s p)

  unwrap-Keeps : Keeps P (attempt (on_tls env.engine.unwrap) >>= after_unwrap env)
  unwrap-Keeps =
      bind-Keeps P (attempt (on_tls env.engine.unwrap)) (after_unwrap env)
        (on_tls-Keeps env Q stable env.engine.unwrap stable.unwrapped) after_unwrap-Keeps

  pub start_shutdown-Keeps : Keeps P (start_shutdown env)
  unfolding start_shutdown
  start_shutdown-Keeps =
      bind-Keeps P (flush_write_buffer env)
        (λ _ s.
          (if not (is_empty s.write_buffer)
              then pure tt
              else attempt (on_tls env.engine.unwrap) >>= after_unwrap env)
            s)
        (flush_write_buffer-Keeps env Q stable)
        (λ _ s.
          if-Keeps P (not (is_empty s.write_buffer)) (pure tt)
            (attempt (on_tls env.engine.unwrap) >>= after_unwrap env) (λ t q. q) unwrap-Keeps s)
