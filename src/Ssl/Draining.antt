-- ===== src/Ssl/Draining.antt =====
-- `_flush_write_buffer` of `_SSLTransportWrapper` (talyn/loop.py) as a whole, with both of its loops.

use talyn.Ssl.Flushing.{flush_chunks-stream}
use talyn.Ssl.Plaintext.{stream}
use talyn.Ssl.Rounds.{
  flush_chunks_cons, flush_chunk-weight, flush_chunk_live, flush_chunks_nil, flush_chunk_dead,
  after_round,
}
use talyn.Ssl.Wrapper.{
  flush_write_buffer, flush_outgoing, give_up, leave, flush_chunks, again, after_chunk, weight,
  flush_chunk, Round,
}
use talyn.Ssl.Laws.{
  raw_write_real, raw_write-SameSession, SameStream, flush_real, RaisesReal, PausesQuietly,
  WriteLaws,
}
use talyn.Base.Exec.{ok, raised, Result}
use talyn.Base.{
  [], ◌+◌, length, zero, List-cases, suc, ◌<◌, Option-cases, Bool, refl, some, true, false, inl,
  inr, arith, ◌≡◌, ℕ, ◌≢◌,
}
use talyn.Ssl.State.{Tls, ssl_error, ssl_eof, out_of_fuel, Bytes, Exn, Conn, Env}

-- The exceptions after which `_flush_write_buffer` gives the connection up.
abbrev pub is_fatal : Result Exn ℕ → Bool
is_fatal (raised ssl_eof) = true
is_fatal (raised ssl_error) = true
is_fatal _ = false

module _ {Obj Raw : Type 0} (env : Env Obj Raw) (consumed : Obj → Bytes)
    (laws : WriteLaws env.engine consumed) (quiet : PausesQuietly env) where
  module _ (real : RaisesReal env) where
    after_chunk_real :
        (d : Bytes) (r : Result Exn ℕ) (s : Conn Obj Raw)
        → r ≢ raised out_of_fuel
        → (after_chunk env d r s).0 ≢ raised out_of_fuel
    after_chunk_real d (ok n) s n' h = ground arith
    after_chunk_real d (raised ssl_eof) s n h = ground (arith, flush_real env real s)
    after_chunk_real d (raised ssl_error) s n h = ground (arith, flush_real env real s)
    after_chunk_real d (raised out_of_fuel) s n h = n refl
    after_chunk_real d (raised e) s n h = cc

    flush_chunk_real : (d : Bytes) (s : Conn Obj Raw) → (flush_chunk env d s).0 ≢ raised out_of_fuel
    flush_chunk_real d s h = elim (Option-cases s.tls) [
      | inl gone ↦ cc (flush_chunk_dead env d s gone)
      | inr (t, e) ↦
          after_chunk_real d (env.engine.write d t).0
            (record s { tls = some (env.engine.write d t).1 }) (real.engine_write d t)
            (rw (flush_chunk_live env d s t e) at h)
    ]

    after_round_real :
        (fuel : ℕ) (r : Result Exn Round) (t : Conn Obj Raw)
        → r ≢ raised out_of_fuel
        → (r ≡ ok again → (flush_chunks env fuel t).0 ≢ raised out_of_fuel)
        → (after_round env fuel (r, t)).0 ≢ raised out_of_fuel
    after_round_real fuel (ok again) t n later h = later refl h
    after_round_real fuel (ok leave) t n later h = cc
    after_round_real fuel (ok give_up) t n later h = cc
    after_round_real fuel (raised e) t n later h = n (ground arith)

    -- More rounds than the weight of the buffer are enough for the first loop.
    flush_chunks_real :
        (fuel : ℕ) (s : Conn Obj Raw)
        → weight s.write_buffer < fuel
        → (flush_chunks env fuel s).0 ≢ raised out_of_fuel
    flush_chunks_real zero s w h = absurd (omega arith)
    flush_chunks_real (suc fuel) s w h = elim (List-cases s.write_buffer) [
      | inl e ↦ cc (flush_chunks_nil env fuel s e)
      | inr (d, rest, e) ↦
          let s' : Conn Obj Raw = record s { write_buffer = rest } in
          let w' : suc (length d + weight rest) < suc fuel = rw e at w in
          let (r, t) = flush_chunk env d s' in
          after_round_real fuel r t (flush_chunk_real d s')
            (λ go. flush_chunks_real fuel t (omega (arith, flush_chunk-weight env d s' go)))
            (rw (flush_chunks_cons env fuel s d rest e) at h)
    ]

  -- The second loop: one write, after which the BIO is empty, or the bytes are back in it.
  flush_outgoing-SameStream : (s : Conn Obj Raw) → SameStream env quiet s (flush_outgoing env 2 s).1
  unfolding flush_outgoing
  flush_outgoing-SameStream s = elim (Option-cases s.tls) [
    | inl gone ↦ ground arith
    | inr (t, e) ↦ ground (
      arith,
      e,
      raw_write-SameSession env quiet t.outgoing
          (record s { tls = some (record t { outgoing = [] }) }),
    )
  ]

  module _ (real : RaisesReal env) where
    flush_outgoing_real : (s : Conn Obj Raw) → (flush_outgoing env 2 s).0 ≢ raised out_of_fuel
    unfolding flush_outgoing
    flush_outgoing_real s h = elim (Option-cases s.tls) [
      | inl gone ↦ ground arith
      | inr (t, e) ↦
          let s' : Conn Obj Raw = record s { tls = some (record t { outgoing = [] }) } in
          ground (
            arith,
            e,
            raw_write_real env real t.outgoing s',
            raw_write-SameSession env quiet t.outgoing s',
          )
    ]

    -- If the SSL object keeps to the laws of a write, the application's `pause_writing` calls
    -- nothing on the connection, and neither the SSL object nor the raw transport raises the
    -- model's own `out_of_fuel`: both loops of `_flush_write_buffer` end, since the rounds given to
    -- them are enough on every branch.
    pub flush_write_buffer_ends :
        (s : Conn Obj Raw) → (flush_write_buffer env s).0 ≢ raised out_of_fuel
    unfolding flush_write_buffer
    flush_write_buffer_ends s h = ground (
      arith,
      flush_chunks_real real (suc (weight s.write_buffer)) s,
      flush_outgoing_real (flush_chunks env (suc (weight s.write_buffer)) s).1,
    )

  -- The SSL object meets no fatal error.
  abbrev pub NeverFatal : Type 0
  NeverFatal = (d : Bytes) (t : Tls Obj) → is_fatal (env.engine.write d t).0 ≡ false

  module _ (sound : NeverFatal) where
    after_chunk_sound :
        (d : Bytes) (r : Result Exn ℕ) (s : Conn Obj Raw)
        → is_fatal r ≡ false
        → (after_chunk env d r s).0 ≢ ok give_up
    after_chunk_sound d (ok n) s f h = ground arith
    after_chunk_sound d (raised ssl_eof) s f h = cc
    after_chunk_sound d (raised ssl_error) s f h = cc
    after_chunk_sound d (raised e) s f h = cc

    flush_chunk_sound : (d : Bytes) (s : Conn Obj Raw) → (flush_chunk env d s).0 ≢ ok give_up
    flush_chunk_sound d s h = elim (Option-cases s.tls) [
      | inl gone ↦ cc (flush_chunk_dead env d s gone)
      | inr (t, e) ↦
          after_chunk_sound d (env.engine.write d t).0
            (record s { tls = some (env.engine.write d t).1 }) (sound d t)
            (rw (flush_chunk_live env d s t e) at h)
    ]

    after_round_sound :
        (fuel : ℕ) (r : Result Exn Round) (t : Conn Obj Raw)
        → r ≢ ok give_up
        → ((flush_chunks env fuel t).0 ≢ ok false)
        → (after_round env fuel (r, t)).0 ≢ ok false
    after_round_sound fuel (ok again) t n later h = later h
    after_round_sound fuel (ok leave) t n later h = cc
    after_round_sound fuel (ok give_up) t n later h = n refl
    after_round_sound fuel (raised e) t n later h = cc

    flush_chunks_sound : (fuel : ℕ) (s : Conn Obj Raw) → (flush_chunks env fuel s).0 ≢ ok false
    flush_chunks_sound zero s h = unfold flush_chunks in cc
    flush_chunks_sound (suc fuel) s h = elim (List-cases s.write_buffer) [
      | inl e ↦ cc (flush_chunks_nil env fuel s e)
      | inr (d, rest, e) ↦
          let s' : Conn Obj Raw = record s { write_buffer = rest } in
          let (r, t) = flush_chunk env d s' in
          after_round_sound fuel r t (flush_chunk_sound d s') (flush_chunks_sound fuel t)
            (rw (flush_chunks_cons env fuel s d rest e) at h)
    ]

    -- If the SSL object keeps to the laws of a write and meets no fatal error, and the
    -- application's `pause_writing` calls nothing on the connection: a call of
    -- `_flush_write_buffer` that does not raise keeps the plaintext, what the SSL object has taken
    -- followed by the buffer, as it was.
    pub flush_write_buffer-stream :
        (s : Conn Obj Raw)
        → (flush_write_buffer env s).0 ≡ ok tt
        → stream env consumed (flush_write_buffer env s).1 ≡ stream env consumed s
    unfolding flush_write_buffer
    flush_write_buffer-stream s h =
        let fuel = suc (weight s.write_buffer) in
        let t = (flush_chunks env fuel s).1 in
        ground (
          arith,
          flush_chunks_sound fuel s,
          flush_chunks-stream env consumed laws quiet fuel s,
          flush_outgoing-SameStream t,
        )
