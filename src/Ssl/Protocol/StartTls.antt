-- ===== src/Ssl/Protocol/StartTls.antt =====
-- `_SP` of `Loop.start_tls` in talyn/loop.py
use talyn.Ssl.Protocol.{new_conn}
use talyn.Ssl.Protocol
use talyn.Ssl.Wrapper.{flush_plain, protocol_pause_writing, flush, raw_call, tell}
use talyn.Ssl.Bio.{is_empty, attempt, emit}
use talyn.Ssl.Protocol.{join, settle, rounds, buffer_updated, read_loop, handshake, connection_made}
use talyn.Base.{not, Option, Bool, none, some, true, false, []}
use talyn.Base.Exec.{pure, when, ◌>>=◌, ◌>>◌, modify, catch, raised, ok}
use talyn.Ssl.State.{
  waiting, Conn, done, data_received, RawCall, AppCall, failed, connection_lost, Effect,
  connection_reset, Env, Session, Bytes, Exn,
}

-- `__init__`
unfoldable pub initial : {Obj Raw : Type 0} → Obj → Raw → Conn Obj Raw
unfolding new_conn
initial = new_conn waiting

module _ {Obj Raw : Type 0} (env : Env Obj Raw) where
  abbrev stop : Session Obj Raw (Unit {0})
  stop = modify (λ s. record s { running = false })

  -- `_h`: a failure goes to the waiter and closes the raw transport.
  unfoldable pub h : Session Obj Raw (Unit {0})
  h =
      handshake env (λ e. (stop >> settle env (failed e) >> raw_call env RawCall.close))
        (do modify (λ s. record s { handshaken = true }); settle env done; flush env)

  -- `_r`: the loop runs while `_running`, and an end of file is not handed on.
  unfoldable pub r : Session Obj Raw (Unit {0})
  r s =
      (read_loop env (λ t. t.running) (rounds env s) [] >>= λ (chunks, _).
      when (not (is_empty chunks))
        (catch (tell env (data_received (join chunks))) (λ _. emit Effect.logged)))
        s

  -- `buffer_updated`: an exception closes the raw transport.
  unfoldable pub received : Bytes → Session Obj Raw (Unit {0})
  unfolding h r
  received d =
      catch (buffer_updated env h r d)
        (λ _. (emit Effect.logged >> stop >> raw_call env RawCall.close))

  unfoldable pub made : Session Obj Raw (Unit {0})
  unfolding h
  made = connection_made env h

  -- `e or ConnectionResetError()`
  abbrev pub reason : Option Exn → Exn
  reason none = connection_reset
  reason (some e) = e

  -- `connection_lost` fails a waiter that still waits.
  unfoldable pub lost : Option Exn → Session Obj Raw (Unit {0})
  lost e = do
    stop
    catch (tell env (connection_lost e)) (λ _. emit Effect.logged)
    settle env (failed (reason e))

  unfoldable pub eof : Session Obj Raw Bool
  eof = do
    answer ← attempt (tell env AppCall.eof_received)
    elim answer [ ok _ ↦ pure env.keep_open | raised _ ↦ (emit Effect.logged >> pure false) ]

  -- `_f`
  unfoldable pub f : Session Obj Raw (Unit {0})
  unfolding flush_plain
  f = flush_plain env

  unfoldable pub pause_writing : Session Obj Raw (Unit {0})
  unfolding protocol_pause_writing
  pause_writing = protocol_pause_writing env

  unfoldable pub resume_writing : Session Obj Raw (Unit {0})
  resume_writing = Protocol.resume_writing env
