-- ===== src/Ssl/Wrapper.antt =====
-- `_SSLTransportWrapper` of talyn/loop.py, with the methods of its protocol object that it calls.
use talyn.Ssl.Bio.{
  want_write_flag, want_read_flag, take_outgoing, put_outgoing, on_tls, is_empty, emit, attempt,
  append_left, append_buffer,
}
use talyn.Base.{
  is_some, ℕ, zero, suc, ◌+◌, Bool, true, false, not, ◌&&◌, Option, none, some, List, [], ◌∷◌,
  length, drop, ltb, ◌==◌, if◌then◌else◌,
}
use talyn.Base.Exec.{Result, ok, raised, pure, raise, gets, modify, ◌>>=◌, ◌>>◌, catch, when}
use talyn.Ssl.State.{
  Session, Bytes, Exn, want_read, want_write, ssl_eof, ssl_error, paused, out_of_fuel, WriteResult,
  queued, crossed, refused, RawCall, AppCall, Effect, Env, Kind,
}

pub data Round : Type 0 where
  again leave give_up : Round

-- The bytes of a buffer and its chunks: more than the rounds that a flush of it can take.
abbrev pub weight : List Bytes → ℕ
weight [] = 0
weight (d ∷ ds) = suc (length d + weight ds)

module _ {Obj Raw : Type 0} (env : Env Obj Raw) where
  -- A call on the application's protocol.
  abbrev pub tell : AppCall → Session Obj Raw (Unit {0})
  tell c = do emit (Effect.app_call c); env.app c

  abbrev pub raw_call : RawCall → Session Obj Raw (Unit {0})
  raw_call c = modify (λ s. record s { raw = env.transport.call c s.raw })

  -- `pause_writing` of the protocol object.
  unfoldable pub protocol_pause_writing : Session Obj Raw (Unit {0})
  protocol_pause_writing = do
    modify (λ s. record s { writing_paused = true })
    when env.has_pause_writing (catch (tell AppCall.pause_writing) (λ _. emit Effect.logged))

  -- The class of unix servers has no `pause_writing` of its own.
  abbrev pub on_crossed : Kind → Session Obj Raw (Unit {0})
  on_crossed Kind.unix_server = pure tt
  on_crossed _ = protocol_pause_writing

  unfoldable pub after_raw_write : WriteResult → Session Obj Raw (Unit {0})
  after_raw_write queued = pure tt
  after_raw_write crossed = on_crossed env.kind
  after_raw_write (refused e) = raise e

  -- `_raw_t.write(d)`
  unfoldable pub raw_write : Bytes → Session Obj Raw (Unit {0})
  unfolding after_raw_write
  raw_write d s =
      let (r, raw') = env.transport.write d s.raw in after_raw_write r (record s { raw = raw' })

  -- `except RuntimeError` around a raw write: the ciphertext goes back into the BIO.
  unfoldable pub put_back : Bytes → Exn → Session Obj Raw (Unit {0})
  put_back d paused = on_tls (put_outgoing d)
  put_back d e = raise e

  -- `_f` of `SP` in `_create_ssl_connection`
  unfoldable pub flush_client : Session Obj Raw (Unit {0})
  unfolding put_back
  flush_client = do
    d ← on_tls take_outgoing
    if is_empty d then pure tt else catch (raw_write d) (put_back d)

  -- `_f` of the other classes
  unfoldable pub flush_plain : Session Obj Raw (Unit {0})
  flush_plain = do d ← on_tls take_outgoing; if is_empty d then pure tt else raw_write d

  abbrev pub flush_of : Kind → Session Obj Raw (Unit {0})
  flush_of Kind.client = flush_client
  flush_of _ = flush_plain

  -- `self._ssp._f()`
  unfoldable pub flush : Session Obj Raw (Unit {0})
  flush = flush_of env.kind

  -- `self._loop.call_soon(self._fatal_error, exc)`, if there is an open loop
  abbrev pub schedule_fatal : Exn → Session Obj Raw (Unit {0})
  schedule_fatal e = when env.loop_open (emit (Effect.call_soon_fatal e))

  -- The `except` and `else` branches of `write`, and what follows them.
  unfoldable pub after_write : Bytes → Result Exn ℕ → Session Obj Raw (Unit {0})
  after_write d (ok written) = do
    when (ltb written (length d)) (append_buffer (drop written d))
    flush
  after_write d (raised want_read) = do want_read_flag; append_buffer d; flush
  after_write d (raised want_write) = do want_write_flag; append_buffer d; flush
  after_write d (raised ssl_eof) = do flush; schedule_fatal ssl_eof
  after_write d (raised ssl_error) = do flush; schedule_fatal ssl_error
  after_write d (raised e) = raise e

  unfoldable pub write : Bytes → Session Obj Raw (Unit {0})
  write d = do
    stopped ← gets (λ s. s.writing_paused)
    if stopped
        then append_buffer d
        else do r ← attempt (on_tls (env.engine.write d)); after_write d r

  -- How a round of the first loop of `_flush_write_buffer` ends: with the next round, by `break`, or
  -- by the `return` after a fatal error.
  abbrev pub after_chunk : Bytes → Result Exn ℕ → Session Obj Raw Round
  after_chunk d (ok written) =
      if ltb written (length d)
      then (do append_left (drop written d); pure (if written == 0 then leave else again))
      else pure again
  after_chunk d (raised want_read) = do want_read_flag; append_left d; pure leave
  after_chunk d (raised want_write) = do want_write_flag; append_left d; pure leave
  after_chunk d (raised ssl_eof) = do flush; schedule_fatal ssl_eof; pure give_up
  after_chunk d (raised ssl_error) = do flush; schedule_fatal ssl_error; pure give_up
  after_chunk d (raised e) = raise e

  -- The round for the chunk that `popleft` gave.
  unfoldable pub flush_chunk : Bytes → Session Obj Raw Round
  flush_chunk d = do r ← attempt (on_tls (env.engine.write d)); after_chunk d r

  -- `while self._write_buffer`; the result is false after the `return`.
  unfoldable pub flush_chunks : ℕ → Session Obj Raw Bool
  flush_chunks zero s = raise out_of_fuel s
  flush_chunks (suc fuel) s = elim s.write_buffer [
    | [] ↦ (ok true, s)
    | d ∷ rest ↦
        (flush_chunk d >>= λ round. elim round [
          | again ↦ flush_chunks fuel
          | leave ↦ pure true
          | give_up ↦ pure false
        ])
          (record s { write_buffer = rest })
  ]

  -- `while True` over the outgoing BIO. A round leaves the BIO empty unless the raw transport's
  -- callback fills it.
  unfoldable pub flush_outgoing : ℕ → Session Obj Raw (Unit {0})
  unfolding put_back
  flush_outgoing zero = raise out_of_fuel
  flush_outgoing (suc fuel) = on_tls take_outgoing >>= λ d. if is_empty d then pure tt else do
    r ← attempt (raw_write d)
    elim r [ ok _ ↦ flush_outgoing fuel | raised e ↦ put_back d e ]

  abbrev pub has_outgoing : Session Obj Raw Bool
  has_outgoing = gets (λ s. is_some s.tls)

  -- `_flush_write_buffer`. Every round of its first loop takes a chunk off the buffer or shortens one.
  unfoldable pub flush_write_buffer : Session Obj Raw (Unit {0})
  flush_write_buffer = do
    buffered ← gets (λ s. s.write_buffer)
    go_on ← flush_chunks (suc (weight buffered))
    present ← has_outgoing
    when (go_on && present) (flush_outgoing 2)

  -- `_force_close`
  unfoldable pub force_close : Session Obj Raw (Unit {0})
  force_close = do
    armed ← gets (λ s. is_some s.timer)
    when armed (do emit Effect.cancel_timer; modify (λ s. record s { timer = none }))
    raw_call RawCall.close

  -- `self._ssl_shutdown_timeout or 30.0`
  abbrev pub timeout_or_default : Option ℕ → ℕ
  timeout_or_default none = 30
  timeout_or_default (some zero) = 30
  timeout_or_default (some (suc n)) = suc n

  abbrev pub arm_timer : Session Obj Raw (Unit {0})
  arm_timer =
      let t = timeout_or_default env.shutdown_timeout in
      do emit (Effect.call_later t); modify (λ s. record s { timer = some t })

  -- The two `except` branches of `_start_shutdown` for a peer that has not answered.
  unfoldable pub await_peer : Session Obj Raw (Unit {0})
  unfolding force_close
  await_peer = do
    flush
    idle ← gets (λ s. not (is_some s.timer))
    if idle && env.loop_open then arm_timer else force_close

  unfoldable pub after_unwrap : Result Exn (Unit {0}) → Session Obj Raw (Unit {0})
  unfolding await_peer
  after_unwrap (ok _) = do flush; force_close
  after_unwrap (raised want_read) = await_peer
  after_unwrap (raised want_write) = await_peer
  after_unwrap (raised e) = do emit Effect.logged; flush; force_close

  -- `_start_shutdown`
  unfoldable pub start_shutdown : Session Obj Raw (Unit {0})
  unfolding after_unwrap
  start_shutdown = do
    flush_write_buffer
    left ← gets (λ s. s.write_buffer)
    if not (is_empty left)
        then pure tt
        else do r ← attempt (on_tls env.engine.unwrap); after_unwrap r

  unfoldable pub close : Session Obj Raw (Unit {0})
  close = do
    closed ← gets (λ s. s.closing)
    if closed then pure tt else do modify (λ s. record s { closing = true }); start_shutdown
