-- ===== src/Ssl/Rounds.antt =====
-- The rounds of the first loop of `_flush_write_buffer`, as equations, and their measure.
use talyn.Ssl.Bio.{on_tls}
use talyn.Ssl.Wrapper.{give_up, weight, leave, again, after_chunk, Round, flush_chunks, flush_chunk}
use talyn.Base.Exec.{raised, ok, Result}
use talyn.Base.{
  length-drop, Option-cases, ◌+◌, length, ◌<◌, Bool, suc, none, some, true, false, inl, inr, [],
  ◌∷◌, arith, ◌≡◌, ℕ, List,
}
use talyn.Ssl.State.{
  ssl_error, ssl_eof, want_write, want_read, attribute_error, Tls, Bytes, Exn, Conn, Env,
}

module _ {Obj Raw : Type 0} (env : Env Obj Raw) where
  -- On a live SSL object the round is the code after the call of its `write`.
  pub flush_chunk_live :
      (d : Bytes) (s : Conn Obj Raw) (t : Tls Obj)
      → s.tls ≡ some t
      → flush_chunk env d s
        ≡ after_chunk env d
            (env.engine.write d t).0
            (record s { tls = some (env.engine.write d t).1 })
  unfolding flush_chunk
  flush_chunk_live d s t e = rw (e, on_tls)

  pub flush_chunk_dead :
      (d : Bytes) (s : Conn Obj Raw)
      → s.tls ≡ none
      → flush_chunk env d s ≡ (raised attribute_error, s)
  unfolding flush_chunk
  flush_chunk_dead d s e = ground arith

  -- One round of the loop, as equations.
  abbrev pub after_round : ℕ → Result Exn Round × Conn Obj Raw → Result Exn Bool × Conn Obj Raw
  after_round fuel (ok again, t) = flush_chunks env fuel t
  after_round fuel (ok leave, t) = (ok true, t)
  after_round fuel (ok give_up, t) = (ok false, t)
  after_round fuel (raised e, t) = (raised e, t)

  pub flush_chunks_nil :
      (fuel : ℕ) (s : Conn Obj Raw)
      → s.write_buffer ≡ []
      → flush_chunks env (suc fuel) s ≡ (ok true, s)
  unfolding flush_chunks
  flush_chunks_nil fuel s e = ground arith

  pub flush_chunks_cons :
      (fuel : ℕ) (s : Conn Obj Raw) (d : Bytes) (rest : List Bytes)
      → s.write_buffer ≡ d ∷ rest
      → flush_chunks env (suc fuel) s
        ≡ after_round fuel (flush_chunk env d (record s { write_buffer = rest }))
  unfolding flush_chunks
  flush_chunks_cons fuel s d rest e = ground (arith, e)

  -- A round that goes on makes the buffer lighter.
  after_chunk-weight :
      (d : Bytes) (r : Result Exn ℕ) (s : Conn Obj Raw)
      → (after_chunk env d r s).0 ≡ ok again
      → weight (after_chunk env d r s).1.write_buffer < suc (length d + weight s.write_buffer)
  after_chunk-weight d (ok n) s h = ground (arith, length-drop n d)
  after_chunk-weight d (raised want_read) s h = cc
  after_chunk-weight d (raised want_write) s h = cc
  after_chunk-weight d (raised ssl_eof) s h = ground arith
  after_chunk-weight d (raised ssl_error) s h = ground arith
  after_chunk-weight d (raised e) s h = cc

  pub flush_chunk-weight :
      (d : Bytes) (s : Conn Obj Raw)
      → (flush_chunk env d s).0 ≡ ok again
      → weight (flush_chunk env d s).1.write_buffer < suc (length d + weight s.write_buffer)
  flush_chunk-weight d s h = elim (Option-cases s.tls) [
    | inl gone ↦ absurd (cc (flush_chunk_dead d s gone))
    | inr (t, e) ↦ rw (flush_chunk_live d s t e) (
        after_chunk-weight d (env.engine.write d t).0
          (record s { tls = some (env.engine.write d t).1 }) (rw (flush_chunk_live d s t e) at h))
  ]
