-- ===== src/Ssl/Flushing.antt =====
-- The first loop of `_flush_write_buffer` (talyn/loop.py), from the buffer to the SSL object.
use talyn.Ssl.Bio.{join}
use talyn.Ssl.Rounds.{
  flush_chunks_cons, flush_chunk_dead, flush_chunks_nil, flush_chunk_live, after_round,
}
use talyn.Ssl.Plaintext.{taken-write, drop_all, is_accepted, remainder, taken, stream}
use talyn.Ssl.Wrapper.{flush_chunks, give_up, leave, again, flush_chunk, after_chunk, Round}
use talyn.Ssl.Laws.{obj_of, PausesQuietly, WriteLaws}
use talyn.Base.Exec.{raised, ok, Result}
use talyn.Base.{
  List-cases, ◌≢◌, zero, suc, Option-cases, ap, append_assoc, sym, ◌∙◌, length, ltb, Bool-cases,
  Bool, refl, some, true, false, inl, inr, arith, ◌≡◌, ℕ, ◌++◌,
}
use talyn.Ssl.State.{ssl_error, ssl_eof, want_write, want_read, Tls, Bytes, Exn, Conn, Env}

-- `break` or the end of a round: the loop was not left by the `return` nor by an exception.
abbrev pub goes_on : Result Exn Round → Bool
goes_on (ok again) = true
goes_on (ok leave) = true
goes_on (ok give_up) = false
goes_on (raised _) = false

module _ {Obj Raw : Type 0} (env : Env Obj Raw) (consumed : Obj → Bytes)
    (laws : WriteLaws env.engine consumed) (quiet : PausesQuietly env) where
  abbrev Streams : Conn Obj Raw → Bytes
  Streams s = stream env consumed s

  after_chunk-stream :
      (d : Bytes) (r : Result Exn ℕ) (s : Conn Obj Raw)
      → goes_on (after_chunk env d r s).0 ≡ true
      → Streams (after_chunk env d r s).1
        ≡ taken env consumed (obj_of s.tls) ++ (remainder d r ++ join s.write_buffer)
  after_chunk-stream d (ok n) s h = elim (Bool-cases (ltb n (length d))) [
    | inl more ↦ rw more
    | inr all ↦ rw (all, drop_all n d all)
  ]
  after_chunk-stream d (raised want_read) s h = refl
  after_chunk-stream d (raised want_write) s h = refl
  after_chunk-stream d (raised ssl_eof) s h = ground arith
  after_chunk-stream d (raised ssl_error) s h = ground arith
  after_chunk-stream d (raised e) s h = cc

  goes_on-is_accepted :
      (d : Bytes) (r : Result Exn ℕ) (s : Conn Obj Raw)
      → goes_on (after_chunk env d r s).0 ≡ true
      → is_accepted r ≡ true
  goes_on-is_accepted d (ok n) s h = refl
  goes_on-is_accepted d (raised want_read) s h = refl
  goes_on-is_accepted d (raised want_write) s h = refl
  goes_on-is_accepted d (raised ssl_eof) s h = ground arith
  goes_on-is_accepted d (raised ssl_error) s h = ground arith
  goes_on-is_accepted d (raised e) s h = cc

  flush_chunk-stream :
      (d : Bytes) (s : Conn Obj Raw)
      → goes_on (flush_chunk env d s).0 ≡ true
      → Streams (flush_chunk env d s).1
        ≡ taken env consumed (obj_of s.tls) ++ (d ++ join s.write_buffer)
  flush_chunk-stream d s h = elim (Option-cases s.tls) [
    | inl gone ↦ absurd (cc (flush_chunk_dead env d s gone))
    | inr (t, e) ↦ live t e (rw (flush_chunk_live env d s t e) at h)
  ]
    where
      live :
          (t : Tls Obj)
          → s.tls ≡ some t
          → goes_on
              (after_chunk env d
                (env.engine.write d t).0
                (record s { tls = some (env.engine.write d t).1 })).0
            ≡ true
          → Streams (flush_chunk env d s).1
            ≡ taken env consumed (obj_of s.tls) ++ (d ++ join s.write_buffer)
      live t e k =
          let r = (env.engine.write d t).0 in
          let s' : Conn Obj Raw = record s { tls = some (env.engine.write d t).1 } in
          rw (flush_chunk_live env d s t e) (
            after_chunk-stream d r s' k
            ∙ rw e (
                sym (append_assoc (consumed (env.engine.write d t).1.obj) (remainder d r) _)
                ∙ ap (λ (b : Bytes). b ++ join s.write_buffer)
                    (taken-write env consumed laws quiet d t (goes_on-is_accepted d r s' k))
                ∙ append_assoc (consumed t.obj) d _))

  after_round-stream :
      (fuel : ℕ) (b : Bytes) (r : Result Exn Round) (t : Conn Obj Raw)
      → (goes_on r ≡ true → Streams t ≡ b)
      → ((flush_chunks env fuel t).0 ≡ ok true → Streams (flush_chunks env fuel t).1 ≡ Streams t)
      → (after_round env fuel (r, t)).0 ≡ ok true
      → Streams (after_round env fuel (r, t)).1 ≡ b
  after_round-stream fuel b (ok again) t now later h = later h ∙ now refl
  after_round-stream fuel b (ok leave) t now later h = now refl
  after_round-stream fuel b (ok give_up) t now later h = cc
  after_round-stream fuel b (raised e) t now later h = cc

  -- A loop that ends by `break`, or with an empty buffer, has kept the stream as it was.
  pub flush_chunks-stream :
      (fuel : ℕ) (s : Conn Obj Raw)
      → (flush_chunks env fuel s).0 ≡ ok true
      → Streams (flush_chunks env fuel s).1 ≡ Streams s
  flush_chunks-stream zero s h = absurd (no_fuel s h)
    where
      no_fuel : (s : Conn Obj Raw) → (flush_chunks env zero s).0 ≢ ok true
      no_fuel s h = unfold flush_chunks in cc
  flush_chunks-stream (suc fuel) s h = elim (List-cases s.write_buffer) [
    | inl e ↦ rw (flush_chunks_nil env fuel s e)
    | inr (d, rest, e) ↦
        let s' : Conn Obj Raw = record s { write_buffer = rest } in
        let (r, t) = flush_chunk env d s' in
        rw (flush_chunks_cons env fuel s d rest e) (
          after_round-stream fuel (Streams s) r t (λ go. flush_chunk-stream d s' go ∙ rw e)
            (flush_chunks-stream fuel t) (rw (flush_chunks_cons env fuel s d rest e) at h))
  ]
