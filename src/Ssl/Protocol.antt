-- ===== src/Ssl/Protocol.antt =====
-- The methods that the protocol classes of talyn/loop.py share, for the SSL object between the raw
-- transport and the application. The classes are in the modules below; each has its own `_h`,
-- `_r`, `buffer_updated`, `connection_lost` and `eof_received`.
pub mod Client
pub mod Server
pub mod StartTls
pub mod UnixClient
pub mod UnixServer
use talyn.Ssl.Wrapper.{flush_write_buffer, tell, start_shutdown, flush}
use talyn.Ssl.Bio.{join, emit, is_empty, attempt, on_tls}
use talyn.Base.{
  ◌&&◌, not, if◌then◌else◌, Bool, none, some, true, false, [], ◌∷◌, arith, ◌≡◌, ℕ, zero, suc, List,
  ◌++◌, ◌≢◌,
}
use talyn.Base.Exec.{catch, when, gets, ◌>>◌, pure, raise, modify, ◌>>=◌, Result, raised, ok}
use talyn.Ssl.State.{
  Effect, data_received, AppCall, out_of_fuel, Waiter, Bytes, Exn, Conn, Env, Session, want_read,
  want_write, ssl_eof, ssl_error, waiting,
}

-- How a reading loop ends: the SSL object wants more ciphertext, it says that the peer has sent
-- close_notify, it meets another SSLError, it returns no data, or the loop's own test fails.
pub data ReadEnd : Type 0 where
  blocked peer_eof failed_read no_data halted : ReadEnd

-- `got_eof`
abbrev pub is_eof : ReadEnd → Bool
is_eof blocked = false
is_eof halted = false
is_eof _ = true

-- `if not waiter.done()` before a `set_result` or `set_exception`
abbrev pub settled : Waiter → Waiter → Waiter
settled w waiting = w
settled _ w = w

-- The protocol object after its `__init__`, with the SSL object and empty BIOs, and the raw transport
-- that it will be connected to; there is no wrapper yet. A class without a future has it as `done`.
unfoldable pub new_conn : {Obj Raw : Type 0} → Waiter → Obj → Raw → Conn Obj Raw
new_conn w obj raw = record {
  closing = false;
  timer = none;
  write_buffer = [];
  handshaken = false;
  writing_paused = false;
  write_wants_read = false;
  write_wants_write = false;
  running = true;
  wrapped = false;
  tls = some (record { obj = obj; incoming = []; outgoing = [] });
  raw = raw;
  waiter = w;
  trace = [];
}

module _ {Obj Raw : Type 0} (env : Env Obj Raw) where
  abbrev pub settle : Waiter → Session Obj Raw (Unit {0})
  settle w = modify (λ s. record s { waiter = settled w s.waiter })

  -- `_h`: what a class does on a failure, and on success, is given.
  unfoldable pub after_handshake :
      (Exn → Session Obj Raw (Unit {0}))
      → Session Obj Raw (Unit {0})
      → Result Exn (Unit {0})
      → Session Obj Raw (Unit {0})
  after_handshake fail succeed (ok _) = succeed
  after_handshake fail succeed (raised want_read) = flush env
  after_handshake fail succeed (raised want_write) = flush env
  after_handshake fail succeed (raised e) = fail e

  unfoldable pub handshake :
      (Exn → Session Obj Raw (Unit {0})) → Session Obj Raw (Unit {0}) → Session Obj Raw (Unit {0})
  unfolding after_handshake
  handshake fail succeed = do
    r ← attempt (on_tls env.engine.do_handshake)
    after_handshake fail succeed r

  -- The chunks that `_sslobj.read` gives until one of the ways to leave the loop.
  unfoldable pub read_loop :
      (Conn Obj Raw → Bool) → ℕ → List Bytes → Session Obj Raw (List Bytes × ReadEnd)
  read_loop keep zero acc s = raise out_of_fuel s
  read_loop keep (suc fuel) acc s =
      if keep s
      then (attempt (on_tls env.engine.read) >>= λ r. elim r [
        | ok d ↦ if is_empty d then pure (acc, no_data) else read_loop keep fuel (acc ++ d ∷ [])
        | raised want_read ↦ pure (acc, blocked)
        | raised ssl_eof ↦ pure (acc, peer_eof)
        | raised want_write ↦ pure (acc, failed_read)
        | raised ssl_error ↦ pure (acc, failed_read)
        | raised e ↦ raise e
      ])
          s
      else (ok (acc, halted), s)

  -- The rounds that a reading loop may take.
  abbrev pub rounds : Conn Obj Raw → ℕ
  rounds s = elim s.tls [ none ↦ 1 | some t ↦ suc (env.engine.backlog t) ]

  -- `_incoming.write(self._buf[:n])`
  abbrev pub feed : Bytes → Session Obj Raw (Unit {0})
  feed d = on_tls (λ t. (ok tt, record t { incoming = t.incoming ++ d }))

  -- `connection_made`: a fresh wrapper, and then the class's `_h`.
  unfoldable pub connection_made : Session Obj Raw (Unit {0}) → Session Obj Raw (Unit {0})
  connection_made h = do
    modify (λ s. record s { wrapped = true; closing = false; timer = none; write_buffer = [] })
    h

  -- `resume_writing` of every class but the unix server's.
  unfoldable pub resume_writing : Session Obj Raw (Unit {0})
  resume_writing = do
    modify (λ s. record s { writing_paused = false })
    when env.has_resume_writing (catch (tell env AppCall.resume_writing) (λ _. emit Effect.logged))
    wrapper ← gets (λ s. s.wrapped)
    when wrapper (flush_write_buffer env)
    flush env

  -- `buffer_updated` of every class but the unix server's, around the class's `_h` and `_r`.
  unfoldable pub buffer_updated :
      Session Obj Raw (Unit {0}) → Session Obj Raw (Unit {0}) → Bytes → Session Obj Raw (Unit {0})
  buffer_updated h r d = do
    feed d
    shutting ← gets (λ s. s.wrapped && s.closing)
    ready ← gets (λ s. s.handshaken)
    if shutting then start_shutdown env else if ready then r else h

  -- The end of `_r` in the classes that hand on an end of file.
  unfoldable pub deliver : List Bytes × ReadEnd → Session Obj Raw (Unit {0})
  deliver (chunks, end) = do
    when (not (is_empty chunks)) (tell env (data_received (join chunks)))
    when (is_eof end) (do
      catch (tell env AppCall.eof_received) (λ _. emit Effect.logged)
      wrapper ← gets (λ s. s.wrapped)
      when wrapper (start_shutdown env))

  -- `_r` in those classes.
  unfoldable pub read_and_deliver : Session Obj Raw (Unit {0})
  read_and_deliver s = (read_loop (λ _. true) (rounds s) [] >>= deliver) s
