-- ===== src/Ssl/Stable/Calls.antt =====
-- The calls of the application and of the raw transport on a TLS connection of talyn/loop.py: `write`,
-- `close` and `resume_writing`, and the properties that they keep.
use talyn.Base.{refl, [], ◌∷◌, ◌++◌, drop, length, ltb, false, ℕ, true}
use talyn.Ssl.Bio.{on_tls, emit, attempt, append_buffer}
use talyn.Base.Exec.{raised, ◌>>=◌, ok, modify, Result, ◌>>◌, when, pure, catch}
use talyn.Ssl.Wrapper.{
  start_shutdown, schedule_fatal, tell, flush_write_buffer, flush, write, close, after_write,
}
use talyn.Ssl.Protocol.{resume_writing}
use talyn.Ssl.State.{
  ssl_error, ssl_eof, want_write, want_read, Effect, AppCall, Bytes, Session, Exn, Conn, Env,
}
use talyn.Ssl.Stable.Shutdown
use talyn.Ssl.Stable.{
  Watched, Of, Stable, on_tls-Keeps, flush-Keeps, flush_write_buffer-Keeps, tell_logged-Keeps,
  schedule_fatal-Keeps,
}
use talyn.Ssl.Keeping.{Keeps, bind-Keeps, when-Keeps, if-Keeps}

module _ {Obj Raw : Type 0} (env : Env Obj Raw) (Q : Watched Obj) (stable : Stable env Q) where
  abbrev P : Conn Obj Raw → Type 0
  P = Of Q

  flush_fatal-Keeps : (e : Exn) → Keeps P (do flush env; schedule_fatal env e)
  flush_fatal-Keeps e =
      bind-Keeps P (flush env) (λ _. schedule_fatal env e) (flush-Keeps env Q stable)
        (λ _. schedule_fatal-Keeps env Q stable e)

  after_write-Keeps : (d : Bytes) (r : Result Exn ℕ) → Keeps P (after_write env d r)
  unfolding after_write
  after_write-Keeps d (ok n) =
      bind-Keeps P (when (ltb n (length d)) (append_buffer (drop n d))) (λ _. flush env)
        (when-Keeps P (ltb n (length d)) (append_buffer (drop n d)) (λ s p. p))
        (λ _. flush-Keeps env Q stable)
  after_write-Keeps d (raised want_read) = λ s p.
      flush-Keeps env Q stable
        (record s { write_wants_read = true; write_buffer = s.write_buffer ++ d ∷ [] }) p
  after_write-Keeps d (raised want_write) = λ s p.
      flush-Keeps env Q stable
        (record s { write_wants_write = true; write_buffer = s.write_buffer ++ d ∷ [] }) p
  after_write-Keeps d (raised ssl_eof) = flush_fatal-Keeps ssl_eof
  after_write-Keeps d (raised ssl_error) = flush_fatal-Keeps ssl_error
  after_write-Keeps d (raised e) = λ s p. p

  pub write-Keeps : (d : Bytes) → Keeps P (write env d)
  unfolding write
  write-Keeps d s =
      if-Keeps P s.writing_paused (append_buffer d)
        (attempt (on_tls (env.engine.write d)) >>= after_write env d) (λ t p. p)
        (bind-Keeps P (attempt (on_tls (env.engine.write d))) (after_write env d)
          (on_tls-Keeps env Q stable (env.engine.write d) (stable.written d)) (after_write-Keeps d))
        s

  pub close-Keeps : Keeps P (close env)
  unfolding close
  close-Keeps s =
      if-Keeps P s.closing (pure tt)
        (do modify (λ t. record t { closing = true }); start_shutdown env) (λ t p. p)
        (λ t p. Shutdown.start_shutdown-Keeps env Q stable (record t { closing = true }) p) s

  abbrev told_resume : Session Obj Raw (Unit {0})
  told_resume = catch (tell env AppCall.resume_writing) (λ _. emit Effect.logged)

  pub resume_writing-Keeps : Keeps P (resume_writing env)
  unfolding resume_writing
  resume_writing-Keeps s p =
      bind-Keeps P (when env.has_resume_writing told_resume)
        (λ _ t. (do when t.wrapped (flush_write_buffer env); flush env) t)
        (when-Keeps P env.has_resume_writing told_resume
          (tell_logged-Keeps env Q stable AppCall.resume_writing refl))
        (λ _ t.
          bind-Keeps P (when t.wrapped (flush_write_buffer env)) (λ _. flush env)
            (when-Keeps P t.wrapped (flush_write_buffer env)
              (flush_write_buffer-Keeps env Q stable))
            (λ _. flush-Keeps env Q stable) t)
        (record s { writing_paused = false }) p
