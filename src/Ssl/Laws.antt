-- ===== src/Ssl/Laws.antt =====
-- What the TLS code of talyn/loop.py relies on: documented behaviour of the SSL object, of the raw
-- transport and of the application's protocol; and that a flush of the BIO touches nothing else.
use talyn.Ssl.Wrapper.{
  flush_plain, flush_of, flush_client, flush, on_crossed, raw_write, protocol_pause_writing,
}
use talyn.Base.Exec.{raised, ok}
use talyn.Base.{
  ◌≢◌, none, inr, inl, some, Option-cases, Option, take, ◌++◌, refl, true, [], ◌∷◌, arith, ◌≡◌, ℕ,
}
use talyn.Ssl.State.{
  refused, out_of_fuel, app_call, Kind, AppCall, Engine, Tls, Bytes, Exn, Conn, Env,
}

-- `SSLObject.write` returns how many bytes of its argument it has consumed, and consumes none when
-- it raises. `consumed` is the plaintext that the SSL object has taken so far.
pub record WriteLaws {Obj : Type 0} (engine : Engine Obj) (consumed : Obj → Bytes) : Type 0 where
  pub write_ok :
      (d : Bytes) (t : Tls Obj) (n : ℕ)
      → (engine.write d t).0 ≡ ok n
      → consumed (engine.write d t).1.obj ≡ consumed t.obj ++ take n d
  pub write_raised :
      (d : Bytes) (t : Tls Obj) (e : Exn)
      → (engine.write d t).0 ≡ raised e
      → consumed (engine.write d t).1.obj ≡ consumed t.obj

-- The SSL object and the transport raise only exceptions of the program.
pub record RaisesReal {Obj Raw : Type 0} (env : Env Obj Raw) : Type 0 where
  pub engine_write : (d : Bytes) (t : Tls Obj) → (env.engine.write d t).0 ≢ raised out_of_fuel
  pub transport_write : (d : Bytes) (r : Raw) → (env.transport.write d r).0 ≢ refused out_of_fuel

-- The application's `pause_writing` only takes note: it calls nothing on the connection.
abbrev pub PausesQuietly : {Obj Raw : Type 0} → Env Obj Raw → Type 0
PausesQuietly {Obj} {Raw} env = (s : Conn Obj Raw) → (env.app AppCall.pause_writing s).1 ≡ s

-- The SSL object, unless it was dropped.
abbrev pub obj_of : {Obj : Type 0} → Option (Tls Obj) → Option Obj
obj_of none = none
obj_of (some t) = some t.obj

module _ {Obj Raw : Type 0} (env : Env Obj Raw) (quiet : PausesQuietly env) where
  -- The states agree on all that a write to the raw transport may not change.
  abbrev pub SameSession : Conn Obj Raw → Conn Obj Raw → Type 0
  SameSession s t =
      (t.write_buffer ≡ s.write_buffer)
      × (t.tls ≡ s.tls)
      × (t.closing ≡ s.closing)
      × (t.timer ≡ s.timer)
      × (t.handshaken ≡ s.handshaken)
      × (t.waiter ≡ s.waiter)

  pub pause_writing-SameSession :
      (s : Conn Obj Raw) → SameSession s (protocol_pause_writing env s).1
  unfolding protocol_pause_writing
  pause_writing-SameSession s = ground (
    arith,
    quiet (record s {
      writing_paused = true;
      trace = s.trace ++ app_call AppCall.pause_writing ∷ [];
    }),
  )

  on_crossed-SameSession : (k : Kind) (s : Conn Obj Raw) → SameSession s (on_crossed env k s).1
  on_crossed-SameSession Kind.unix_server s = (refl, refl, refl, refl, refl, refl)
  on_crossed-SameSession _ s = pause_writing-SameSession s

  pub raw_write-SameSession : (d : Bytes) (s : Conn Obj Raw) → SameSession s (raw_write env d s).1
  unfolding raw_write
  raw_write-SameSession d s =
      ground (
        arith,
        on_crossed-SameSession env.kind (record s { raw = (env.transport.write d s.raw).1 }),
      )

  -- The same, but for the bytes in the outgoing BIO.
  abbrev pub SameStream : Conn Obj Raw → Conn Obj Raw → Type 0
  SameStream s t =
      (t.write_buffer ≡ s.write_buffer)
      × (obj_of t.tls ≡ obj_of s.tls)
      × (t.closing ≡ s.closing)
      × (t.timer ≡ s.timer)
      × (t.handshaken ≡ s.handshaken)
      × (t.waiter ≡ s.waiter)

  flush_client-SameStream : (s : Conn Obj Raw) → SameStream s (flush_client env s).1
  unfolding flush_client
  flush_client-SameStream s = elim (Option-cases s.tls) [
    | inl gone ↦ ground arith
    | inr (t, e) ↦ ground (
      arith,
      e,
      raw_write-SameSession t.outgoing (record s { tls = some (record t { outgoing = [] }) }),
    )
  ]

  flush_plain-SameStream : (s : Conn Obj Raw) → SameStream s (flush_plain env s).1
  unfolding flush_plain
  flush_plain-SameStream s = elim (Option-cases s.tls) [
    | inl gone ↦ ground arith
    | inr (t, e) ↦ ground (
      arith,
      e,
      raw_write-SameSession t.outgoing (record s { tls = some (record t { outgoing = [] }) }),
    )
  ]

  flush_of-SameStream : (k : Kind) (s : Conn Obj Raw) → SameStream s (flush_of env k s).1
  flush_of-SameStream Kind.client s = flush_client-SameStream s
  flush_of-SameStream _ s = flush_plain-SameStream s

  -- `_f` changes nothing but the outgoing BIO, the raw transport and the pause flag.
  pub flush-SameStream : (s : Conn Obj Raw) → SameStream s (flush env s).1
  unfolding flush
  flush-SameStream s = flush_of-SameStream env.kind s

module _ {Obj Raw : Type 0} (env : Env Obj Raw) (real : RaisesReal env) where
  pause_writing_real : (s : Conn Obj Raw) → (protocol_pause_writing env s).0 ≢ raised out_of_fuel
  unfolding protocol_pause_writing
  pause_writing_real s h = ground arith

  on_crossed_real : (k : Kind) (s : Conn Obj Raw) → (on_crossed env k s).0 ≢ raised out_of_fuel
  on_crossed_real Kind.unix_server s h = cc
  on_crossed_real _ s h = pause_writing_real s h

  pub raw_write_real : (d : Bytes) (s : Conn Obj Raw) → (raw_write env d s).0 ≢ raised out_of_fuel
  unfolding raw_write
  raw_write_real d s h = ground (
    arith,
    real.transport_write d s.raw,
    on_crossed_real env.kind (record s { raw = (env.transport.write d s.raw).1 }),
  )

  flush_client_real : (s : Conn Obj Raw) → (flush_client env s).0 ≢ raised out_of_fuel
  unfolding flush_client
  flush_client_real s h = elim (Option-cases s.tls) [
    | inl gone ↦ ground arith
    | inr (t, e) ↦
        ground (
          arith,
          e,
          raw_write_real t.outgoing (record s { tls = some (record t { outgoing = [] }) }),
        )
  ]

  flush_plain_real : (s : Conn Obj Raw) → (flush_plain env s).0 ≢ raised out_of_fuel
  unfolding flush_plain
  flush_plain_real s h = elim (Option-cases s.tls) [
    | inl gone ↦ ground arith
    | inr (t, e) ↦
        ground (
          arith,
          e,
          raw_write_real t.outgoing (record s { tls = some (record t { outgoing = [] }) }),
        )
  ]

  flush_of_real : (k : Kind) (s : Conn Obj Raw) → (flush_of env k s).0 ≢ raised out_of_fuel
  flush_of_real Kind.client s = flush_client_real s
  flush_of_real _ s = flush_plain_real s

  pub flush_real : (s : Conn Obj Raw) → (flush env s).0 ≢ raised out_of_fuel
  unfolding flush
  flush_real s = flush_of_real env.kind s
