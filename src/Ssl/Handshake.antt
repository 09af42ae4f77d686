-- ===== src/Ssl/Handshake.antt =====
-- The future that `create_connection` or `start_tls` of talyn/loop.py awaits, when the raw connection
-- is lost before the TLS handshake is over.
use talyn.Ssl.Keeping.{Keeps, bind-Keeps, catch-Keeps, when-Keeps}
use talyn.Ssl.Rounds.{flush_chunk_dead, flush_chunks_cons, flush_chunks_nil}
use talyn.Ssl.Bio.{emit}
use talyn.Ssl.Wrapper.{
  protocol_pause_writing, flush_outgoing, weight, flush_chunks, flush, flush_of, flush_plain, tell,
  flush_write_buffer, flush_client,
}
use talyn.Base.{
  true, is_some, ◌&&◌, ◌≡◌, refl, inl, inr, arith, ℕ, suc, false, Option, none, List, [], ◌∷◌, ◌++◌,
  List-cases,
}
use talyn.Base.Exec.{◌>>◌, when, catch, ok}
use talyn.Ssl.State.{
  Session, Bytes, Exn, Conn, Env, Kind, AppCall, Effect, waiting, failed, connection_lost,
}
use talyn.Ssl.Protocol.{buffer_updated, resume_writing}
use talyn.Ssl.Protocol.Client
use talyn.Ssl.Protocol.StartTls

-- The calls of the raw transport on its protocol after `connection_made`.
pub data RawEvent : Type 0 where
  receives : Bytes → RawEvent
  ends pauses resumes : RawEvent
  loses : Option Exn → RawEvent

module _ {Obj Raw : Type 0} (env : Env Obj Raw) where
  -- The application, when it is called, does not touch the SSL object or the future.
  abbrev pub LeavesTls : Type 0
  LeavesTls =
      (c : AppCall) (s : Conn Obj Raw)
      → ((env.app c s).1.tls ≡ s.tls) × ((env.app c s).1.waiter ≡ s.waiter)

  unfoldable pub step : Conn Obj Raw → RawEvent → Conn Obj Raw
  step s (RawEvent.receives d) = (Client.received env d s).1
  step s RawEvent.ends = (Client.eof env s).1
  step s RawEvent.pauses = (protocol_pause_writing env s).1
  step s RawEvent.resumes = (resume_writing env s).1
  step s (RawEvent.loses e) = (Client.lost env e s).1

  unfoldable pub run : Conn Obj Raw → List RawEvent → Conn Obj Raw
  run s [] = s
  run s (e ∷ es) = run (step s e) es

  -- The SSL object is gone, and the future is pending.
  abbrev IsStuck : Conn Obj Raw → Type 0
  IsStuck s = (s.tls ≡ none) × (s.waiter ≡ waiting)

module _ {Obj Raw : Type 0} (env : Env Obj Raw) (leaves : LeavesTls env) where
  abbrev P : Conn Obj Raw → Type 0
  P = IsStuck env

  tell-IsStuck : (c : AppCall) (s : Conn Obj Raw) → IsStuck env s → IsStuck env (tell env c s).1
  tell-IsStuck c s h =
      ground (arith, leaves c (record s { trace = s.trace ++ Effect.app_call c ∷ [] }))

  -- A call of the application under `try`, with a line in the log.
  tell_logged-IsStuck : (c : AppCall) → Keeps P (catch (tell env c) (λ _. emit Effect.logged))
  tell_logged-IsStuck c =
      catch-Keeps P (tell env c) (λ _. emit Effect.logged) (tell-IsStuck c) (λ e t g. g)

  flush-IsStuck : (k : Kind) (s : Conn Obj Raw) → IsStuck env s → IsStuck env (flush_of env k s).1
  unfolding flush_client flush_plain
  flush-IsStuck Kind.client s h = ground arith
  flush-IsStuck _ s h = ground arith

  flush_chunks-IsStuck :
      (fuel : ℕ) (s : Conn Obj Raw) → IsStuck env s → IsStuck env (flush_chunks env (suc fuel) s).1
  flush_chunks-IsStuck fuel s h = elim (List-cases s.write_buffer) [
    | inl e ↦ rw (flush_chunks_nil env fuel s e) h
    | inr (d, rest, e) ↦
        rw
          (
            flush_chunks_cons env fuel s d rest e,
            flush_chunk_dead env d (record s { write_buffer = rest }) h.0,
          )
          h
  ]

  flush_outgoing-IsStuck :
      (s : Conn Obj Raw) → IsStuck env s → IsStuck env (flush_outgoing env 2 s).1
  unfolding flush_outgoing
  flush_outgoing-IsStuck s h = ground arith

  flush_write_buffer-IsStuck : Keeps P (flush_write_buffer env)
  unfolding flush_write_buffer
  flush_write_buffer-IsStuck s =
      bind-Keeps P (flush_chunks env (suc (weight s.write_buffer)))
        (λ go_on t. when (go_on && is_some t.tls) (flush_outgoing env 2) t)
        (flush_chunks-IsStuck (weight s.write_buffer))
        (λ go_on t.
          when-Keeps P (go_on && is_some t.tls) (flush_outgoing env 2) flush_outgoing-IsStuck t)
        s

  resume-IsStuck : Keeps P (resume_writing env)
  unfolding resume_writing flush
  resume-IsStuck s =
      let told : Session Obj Raw (Unit {0}) =
        catch (tell env AppCall.resume_writing) (λ _. emit Effect.logged) in
      bind-Keeps P (when env.has_resume_writing told)
        (λ _ t. (do when t.wrapped (flush_write_buffer env); flush env) t)
        (when-Keeps P env.has_resume_writing told (tell_logged-IsStuck AppCall.resume_writing))
        (λ _ t.
          bind-Keeps P (when t.wrapped (flush_write_buffer env)) (λ _. flush env)
            (when-Keeps P t.wrapped (flush_write_buffer env) flush_write_buffer-IsStuck)
            (λ _. flush-IsStuck env.kind) t)
        (record s { writing_paused = false })

  pause-IsStuck : Keeps P (protocol_pause_writing env)
  unfolding protocol_pause_writing
  pause-IsStuck s h =
      when-Keeps P env.has_pause_writing
        (catch (tell env AppCall.pause_writing) (λ _. emit Effect.logged))
        (tell_logged-IsStuck AppCall.pause_writing) (record s { writing_paused = true }) h

  step-IsStuck : (s : Conn Obj Raw) (e : RawEvent) → IsStuck env s → IsStuck env (step env s e)
  unfolding step Client.received Client.eof Client.lost buffer_updated
  step-IsStuck s (RawEvent.receives d) h = ground arith
  step-IsStuck s RawEvent.ends h = ground (arith, tell-IsStuck AppCall.eof_received s h)
  step-IsStuck s RawEvent.pauses h = pause-IsStuck s h
  step-IsStuck s RawEvent.resumes h = resume-IsStuck s h
  step-IsStuck s (RawEvent.loses e) h =
      bind-Keeps P (catch (tell env (connection_lost e)) (λ _. emit Effect.logged))
        (λ _ t. (ok tt, record t { tls = none })) (tell_logged-IsStuck (connection_lost e))
        (λ _ t g. (refl, g.1)) s h

  run-IsStuck : (s : Conn Obj Raw) (es : List RawEvent) → IsStuck env s → IsStuck env (run env s es)
  unfolding run
  run-IsStuck s [] h = h
  run-IsStuck s (e ∷ es) h = run-IsStuck (step env s e) es (step-IsStuck s e h)

  lost-IsStuck :
      (s : Conn Obj Raw) (e : Option Exn) → s.waiter ≡ waiting → IsStuck env (Client.lost env e s).1
  unfolding Client.lost
  lost-IsStuck s e w =
      let told = s.trace ++ Effect.app_call (connection_lost e) ∷ [] in
      ground (arith, leaves (connection_lost e) (record s { trace = told }))

  -- If the raw connection of the client class is lost while the future of `create_connection` is
  -- pending, and the application, when it is called, touches neither the SSL object nor the future:
  -- no data, end of file, pause, resume or loss that the raw transport tells the class of later
  -- settles that future. The class of `start_tls` fails its future at once.
  pub lost_leaves_waiting :
      (s : Conn Obj Raw) (e : Option Exn) (es : List RawEvent)
      → s.waiter ≡ waiting
      → ((run env (Client.lost env e s).1 es).waiter ≡ waiting)
        × ((StartTls.lost env e s).1.waiter ≡ failed (StartTls.reason env e))
  unfolding Client.lost StartTls.lost
  lost_leaves_waiting s e es w =
      let told = s.trace ++ Effect.app_call (connection_lost e) ∷ [] in
      (
        (run-IsStuck _ es (lost-IsStuck s e w)).1,
        ground (arith, leaves (connection_lost e) (record s { running = false; trace = told })),
      )
