-- ===== src/Ssl/Shutdown.antt =====
-- Closing a TLS connection: `close`, `_start_shutdown`, `_force_close` and the shutdown timer.
use talyn.Ssl.Bio.{on_tls}
use talyn.Ssl.Rounds.{flush_chunks_nil}
use talyn.Base.Exec.{Result, raised, ok}
use talyn.Ssl.Wrapper.{
  weight, flush_of, flush_plain, flush_client, after_unwrap, flush, flush_write_buffer,
  start_shutdown, force_close, close, await_peer,
}
use talyn.Base.{
  List-cases, is_some, ◌⊎◌, refl, none, true, false, inl, inr, [], ◌∷◌, arith, ◌≡◌, ◌++◌, ◌≢◌,
}
use talyn.Ssl.State.{
  want_write, want_read, Kind, attribute_error, Effect, RawCall, Exn, Conn, Env, Transport,
}

-- A transport that was told to close is closing.
abbrev pub ClosesWhenTold : {Raw : Type 0} → Transport Raw → Type 0
ClosesWhenTold {Raw} transport =
    (r : Raw) → transport.is_closing (transport.call RawCall.close r) ≡ true

module _ {Obj Raw : Type 0} (env : Env Obj Raw) where
  -- Nothing keeps the connection open for ever: the timer runs, or the raw transport is closing.
  abbrev pub IsEnding : Conn Obj Raw → Type 0
  IsEnding s = (is_some s.timer ≡ true) ⊎ (env.transport.is_closing s.raw ≡ true)

  -- A shutdown between the two states, after the buffer was flushed: it has begun, or it was put off
  -- and has done nothing else.
  abbrev pub BeginsOrWaits : Conn Obj Raw → Conn Obj Raw → Type 0
  BeginsOrWaits s t =
      (((flush_write_buffer env s).1.write_buffer ≡ []) × IsEnding t)
      ⊎ ((t.write_buffer ≢ []) × (t ≡ (flush_write_buffer env s).1))

  module _ (closes : ClosesWhenTold env.transport) where
    force_close-closing :
        (s : Conn Obj Raw)
        → ((force_close env s).0 ≡ ok tt)
          × (env.transport.is_closing (force_close env s).1.raw ≡ true)
          × ((force_close env s).1.timer ≡ none)
    unfolding force_close
    force_close-closing s = ground (arith, closes s.raw)

    await_peer-IsEnding :
        (s : Conn Obj Raw) → (await_peer env s).0 ≡ ok tt → IsEnding (await_peer env s).1
    unfolding await_peer
    await_peer-IsEnding s h = ground (arith, closes (flush env s).1.raw)

    after_unwrap-IsEnding :
        (r : Result Exn (Unit {0})) (s : Conn Obj Raw)
        → (after_unwrap env r s).0 ≡ ok tt
        → IsEnding (after_unwrap env r s).1
    unfolding after_unwrap force_close
    after_unwrap-IsEnding (ok _) s h = ground (arith, closes (flush env s).1.raw)
    after_unwrap-IsEnding (raised want_read) s h = await_peer-IsEnding s h
    after_unwrap-IsEnding (raised want_write) s h = await_peer-IsEnding s h
    after_unwrap-IsEnding (raised e) s h =
        ground
          (arith, closes (flush env (record s { trace = s.trace ++ Effect.logged ∷ [] })).1.raw)

    -- If the raw transport, once told to close, is closing: a `_start_shutdown` that does not
    -- raise, whatever the SSL object answers to `unwrap`, has flushed the buffer, and either that
    -- has left no plaintext, and the shutdown timer runs or the raw transport is closing; or it has
    -- left some, and nothing else was done: `unwrap` was not called, no timer was started and
    -- nothing was closed.
    pub start_shutdown-IsEnding :
        (s : Conn Obj Raw)
        → (start_shutdown env s).0 ≡ ok tt
        → BeginsOrWaits s (start_shutdown env s).1
    unfolding start_shutdown
    start_shutdown-IsEnding s h =
        let t = (flush_write_buffer env s).1 in
        elim (List-cases t.write_buffer) [
          | inl sent ↦ inl (
            sent,
            ground (
              arith,
              sent,
              after_unwrap-IsEnding (on_tls env.engine.unwrap t).0 (on_tls env.engine.unwrap t).1,
            ),
          )
          | inr (d, rest, left) ↦ inr (λ e. ground (arith, left), ground (arith, left))
        ]

  flush_client_dead :
      (s : Conn Obj Raw) → s.tls ≡ none → flush_client env s ≡ (raised attribute_error, s)
  unfolding flush_client
  flush_client_dead s e = ground arith

  flush_plain_dead :
      (s : Conn Obj Raw) → s.tls ≡ none → flush_plain env s ≡ (raised attribute_error, s)
  unfolding flush_plain
  flush_plain_dead s e = ground arith

  flush_of_dead :
      (k : Kind) (s : Conn Obj Raw) → s.tls ≡ none → flush_of env k s ≡ (raised attribute_error, s)
  flush_of_dead Kind.client s e = flush_client_dead s e
  flush_of_dead _ s e = flush_plain_dead s e

  flush_dead : (s : Conn Obj Raw) → s.tls ≡ none → flush env s ≡ (raised attribute_error, s)
  unfolding flush
  flush_dead s e = flush_of_dead env.kind s e

  flush_write_buffer_dead :
      (s : Conn Obj Raw)
      → s.tls ≡ none
      → s.write_buffer ≡ []
      → flush_write_buffer env s ≡ (ok tt, s)
  unfolding flush_write_buffer
  flush_write_buffer_dead s dropped buffered =
      ground (arith, flush_chunks_nil env (weight s.write_buffer) s buffered)

  start_shutdown_dead :
      (s : Conn Obj Raw)
      → s.tls ≡ none
      → s.write_buffer ≡ []
      → start_shutdown env s
        ≡ (raised attribute_error, record s { trace = s.trace ++ Effect.logged ∷ [] })
  unfolding start_shutdown
  start_shutdown_dead s dropped buffered = ground (
    arith,
    flush_write_buffer_dead s dropped buffered,
    flush_dead (record s { trace = s.trace ++ Effect.logged ∷ [] }) dropped,
  )

  -- close of a transport that was not closed before and has no plaintext in its buffer, after
  -- `connection_lost` of a class that drops its SSL object, raises `AttributeError` and leaves the
  -- raw transport alone, and a second close does nothing.
  pub close_after_lost :
      (s : Conn Obj Raw)
      → s.tls ≡ none
      → s.closing ≡ false
      → s.write_buffer ≡ []
      → let s' = record s { closing = true; trace = s.trace ++ Effect.logged ∷ [] } in
        (close env s ≡ (raised attribute_error, s')) × (close env s' ≡ (ok tt, s'))
  unfolding close
  close_after_lost s dropped open_ buffered =
      (ground (arith, start_shutdown_dead (record s { closing = true }) dropped buffered), refl)
