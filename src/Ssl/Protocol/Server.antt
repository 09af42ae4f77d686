-- ===== src/Ssl/Protocol/Server.antt =====
-- `SSP` of `Loop._create_ssl_server` in talyn/loop.py
use talyn.Ssl.Protocol.{new_conn}
use talyn.Ssl.Protocol
use talyn.Ssl.Wrapper.{flush_plain, protocol_pause_writing, flush, raw_call, tell}
use talyn.Ssl.Bio.{emit}
use talyn.Ssl.Protocol.{read_and_deliver, handshake, connection_made, buffer_updated}
use talyn.Base.{Option, Bool, true, false}
use talyn.Base.Exec.{modify, pure, ◌>>◌}
use talyn.Ssl.State.{
  done, Conn, RawCall, AppCall, connection_lost, Effect, Env, Session, Bytes, Exn,
}

-- `__init__`
unfoldable pub initial : {Obj Raw : Type 0} → Obj → Raw → Conn Obj Raw
unfolding new_conn
initial = new_conn done

module _ {Obj Raw : Type 0} (env : Env Obj Raw) where
  -- `_h`: a failure closes the raw transport; there is no waiter.
  unfoldable pub h : Session Obj Raw (Unit {0})
  h =
      handshake env (λ _. (emit Effect.logged >> raw_call env RawCall.close))
        (do
          modify (λ s. record s { handshaken = true })
          flush env
          tell env AppCall.connection_made)

  unfoldable pub r : Session Obj Raw (Unit {0})
  r = read_and_deliver env

  unfoldable pub received : Bytes → Session Obj Raw (Unit {0})
  unfolding h r
  received = buffer_updated env h r

  unfoldable pub made : Session Obj Raw (Unit {0})
  unfolding h
  made = connection_made env h

  unfoldable pub lost : Option Exn → Session Obj Raw (Unit {0})
  lost e = tell env (connection_lost e)

  unfoldable pub eof : Session Obj Raw Bool
  eof = do tell env AppCall.eof_received; pure false

  -- `_f`
  unfoldable pub f : Session Obj Raw (Unit {0})
  unfolding flush_plain
  f = flush_plain env

  unfoldable pub pause_writing : Session Obj Raw (Unit {0})
  unfolding protocol_pause_writing
  pause_writing = protocol_pause_writing env

  unfoldable pub resume_writing : Session Obj Raw (Unit {0})
  resume_writing = Protocol.resume_writing env
