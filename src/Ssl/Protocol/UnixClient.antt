-- ===== src/Ssl/Protocol/UnixClient.antt =====
-- `SP` of `Loop._create_ssl_unix_connection` in talyn/loop.py
use talyn.Ssl.Protocol.{new_conn}
use talyn.Ssl.Protocol
use talyn.Ssl.Wrapper.{flush_plain, protocol_pause_writing, flush, tell}
use talyn.Ssl.Bio.{emit, attempt}
use talyn.Ssl.Protocol.{settle, read_and_deliver, handshake, connection_made, buffer_updated}
use talyn.Base.{Option, Bool, none, true, false}
use talyn.Base.Exec.{pure, modify, catch, ◌>>◌, ◌>>=◌, raised, ok}
use talyn.Ssl.State.{
  waiting, Conn, Effect, connection_lost, AppCall, done, failed, Env, Session, Bytes, Exn,
}

-- `__init__`
unfoldable pub initial : {Obj Raw : Type 0} → Obj → Raw → Conn Obj Raw
unfolding new_conn
initial = new_conn waiting

module _ {Obj Raw : Type 0} (env : Env Obj Raw) where
  -- `_h`: a failure goes to the waiter; on success the application learns of the connection.
  unfoldable pub h : Session Obj Raw (Unit {0})
  h =
      handshake env (λ e. settle env (failed e))
        (do
          modify (λ s. record s { handshaken = true })
          settle env done
          flush env
          tell env AppCall.connection_made)

  unfoldable pub r : Session Obj Raw (Unit {0})
  r = read_and_deliver env

  unfoldable pub received : Bytes → Session Obj Raw (Unit {0})
  unfolding h r
  received = buffer_updated env h r

  unfoldable pub made : Session Obj Raw (Unit {0})
  unfolding h
  made = connection_made env h

  -- `connection_lost` drops the SSL object and its BIOs.
  unfoldable pub lost : Option Exn → Session Obj Raw (Unit {0})
  lost e = do
    catch (tell env (connection_lost e)) (λ _. emit Effect.logged)
    modify (λ s. record s { tls = none })

  unfoldable pub eof : Session Obj Raw Bool
  eof = do
    answer ← attempt (tell env AppCall.eof_received)
    elim answer [ ok _ ↦ pure env.keep_open | raised _ ↦ pure false ]

  -- `_f`
  unfoldable pub f : Session Obj Raw (Unit {0})
  unfolding flush_plain
  f = flush_plain env

  unfoldable pub pause_writing : Session Obj Raw (Unit {0})
  unfolding protocol_pause_writing
  pause_writing = protocol_pause_writing env

  unfoldable pub resume_writing : Session Obj Raw (Unit {0})
  resume_writing = Protocol.resume_writing env
