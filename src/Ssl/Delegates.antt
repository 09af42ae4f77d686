-- ===== src/Ssl/Delegates.antt =====
-- The methods of `_SSLTransportWrapper` of talyn/loop.py that hand a call on to the raw transport,
-- and `get_extra_info`. What the raw transport answers is an argument.
use talyn.Ssl.Wrapper.{raw_call}
use talyn.Base.{Option, Bool, none, some, ℕ}
use talyn.Base.Exec.{raise, ok, raised}
use talyn.Ssl.State.{Env, Conn, Session, RawCall, Exn}

-- The names that `get_extra_info` looks at.
pub data ExtraName : Type 0 where
  sslcontext ssl_object : ExtraName
  extra : ℕ → ExtraName

-- `_sslobj.context`, `_sslobj`, or what the raw transport says, which may be the default.
pub data Extra (Obj : Type 0) : Type 0 where
  context_of object : Obj → Extra Obj
  answer : Option ℕ → Extra Obj

module _ {Obj Raw : Type 0} (env : Env Obj Raw) where
  -- `_fatal_error`, which the event loop calls after a fatal SSL error
  unfoldable pub fatal_error : Exn → Session Obj Raw (Unit {0})
  fatal_error e = raise e

  unfoldable pub write_eof : Session Obj Raw (Unit {0})
  write_eof = raw_call env RawCall.write_eof

  unfoldable pub abort : Session Obj Raw (Unit {0})
  abort = raw_call env RawCall.abort

  unfoldable pub set_write_buffer_limits : Option ℕ → Option ℕ → Session Obj Raw (Unit {0})
  set_write_buffer_limits high low = raw_call env (RawCall.set_write_buffer_limits high low)

  unfoldable pub pause_reading : Session Obj Raw (Unit {0})
  pause_reading = raw_call env RawCall.pause_reading

  unfoldable pub resume_reading : Session Obj Raw (Unit {0})
  resume_reading = raw_call env RawCall.resume_reading

  unfoldable pub set_protocol : ℕ → Session Obj Raw (Unit {0})
  set_protocol p = raw_call env (RawCall.set_protocol p)

  unfoldable pub is_closing : Conn Obj Raw → Bool
  is_closing s = env.transport.is_closing s.raw

  -- After `connection_lost` of a class that drops it, there is no SSL object to ask.
  unfoldable pub get_extra_info :
      (Raw → ℕ → Option ℕ → Option ℕ) → ExtraName → Option ℕ → Session Obj Raw (Extra Obj)
  get_extra_info raw_extra (extra name) default s = (ok (answer (raw_extra s.raw name default)), s)
  get_extra_info raw_extra sslcontext default s = elim s.tls [
    | none ↦ (raised Exn.attribute_error, s)
    | some t ↦ (ok (context_of t.obj), s)
  ]
  get_extra_info raw_extra ssl_object default s = elim s.tls [
    | none ↦ (ok (answer none), s)
    | some t ↦ (ok (object t.obj), s)
  ]
