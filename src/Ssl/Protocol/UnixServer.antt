-- ===== src/Ssl/Protocol/UnixServer.antt =====
-- `SSP` of `Loop._create_ssl_unix_server` in talyn/loop.py
use talyn.Ssl.Protocol.{new_conn}
use talyn.Ssl.Wrapper.{flush_plain, flush, raw_call, tell}
use talyn.Ssl.Bio.{is_empty, on_tls, attempt, emit}
use talyn.Ssl.Protocol.{feed, rounds, handshake, connection_made}
use talyn.Base.{zero, if◌then◌else◌, suc, Option, Bool, ℕ, true, false}
use talyn.Base.Exec.{modify, gets, ◌>>=◌, pure, ◌>>◌, raise, raised, ok}
use talyn.Ssl.State.{
  done, Conn, ssl_error, want_write, ssl_eof, want_read, data_received, RawCall, AppCall,
  connection_lost, Effect, out_of_fuel, Env, Session, Bytes, Exn,
}

-- `__init__`
unfoldable pub initial : {Obj Raw : Type 0} → Obj → Raw → Conn Obj Raw
unfolding new_conn
initial = new_conn done

module _ {Obj Raw : Type 0} (env : Env Obj Raw) where
  -- `_h`: a failure closes the raw transport; there is no waiter.
  unfoldable pub h : Session Obj Raw (Unit {0})
  h =
      handshake env (λ _. (emit Effect.logged >> raw_call env RawCall.close))
        (do
          modify (λ s. record s { handshaken = true })
          flush env
          tell env AppCall.connection_made)

  -- `_r`: each chunk goes to the application as it is read, and an end of file does not.
  unfoldable pub read_chunks : ℕ → Session Obj Raw (Unit {0})
  read_chunks zero s = raise out_of_fuel s
  read_chunks (suc fuel) s =
      (attempt (on_tls env.engine.read) >>= λ r. elim r [
        | ok d ↦ if is_empty d then pure tt else (tell env (data_received d) >> read_chunks fuel)
        | raised want_read ↦ pure tt
        | raised ssl_eof ↦ pure tt
        | raised want_write ↦ pure tt
        | raised ssl_error ↦ pure tt
        | raised e ↦ raise e
      ])
        s

  unfoldable pub r : Session Obj Raw (Unit {0})
  unfolding read_chunks
  r s = read_chunks (rounds env s) s

  -- `buffer_updated`: it does not ask whether the wrapper is closing.
  unfoldable pub received : Bytes → Session Obj Raw (Unit {0})
  unfolding h r
  received d = do feed env d; ready ← gets (λ s. s.handshaken); if ready then r else h

  unfoldable pub made : Session Obj Raw (Unit {0})
  unfolding h
  made = connection_made env h

  unfoldable pub lost : Option Exn → Session Obj Raw (Unit {0})
  lost e = tell env (connection_lost e)

  unfoldable pub eof : Session Obj Raw Bool
  eof = do tell env AppCall.eof_received; pure false

  -- `_f`
  unfoldable pub f : Session Obj Raw (Unit {0})
  unfolding flush_plain
  f = flush_plain env
