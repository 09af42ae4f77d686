-- ===== src/Ssl/Order.antt =====
-- `write` on a connection that holds unsent plaintext, and a flush into an SSL object with room.
use talyn.Ssl.Bio.{join}
use talyn.Ssl.Plaintext.{write_direct, drop_all, join-push, stream, taken}
use talyn.Ssl.Wrapper.{write, after_write}
use talyn.Base.Exec.{ok}
use talyn.Ssl.Laws.{flush-SameStream, obj_of, PausesQuietly, WriteLaws}
use talyn.Base.{
  ◌∙◌, sym, ap, append-nil, length, ltb, take, Bool-cases, drop, suc, some, false, inl, inr, [],
  ◌∷◌, arith, ◌≡◌, ℕ, List, ◌++◌, ◌≢◌,
}
use talyn.Ssl.State.{Tls, Bytes, Conn, Env}

heads_differ : (x y : ℕ) (c p q r w : Bytes) → x ≢ y → (c ++ y ∷ p) ++ q ≢ (c ++ x ∷ r) ++ w
heads_differ x y [] p q r w n e = n (ground arith)
heads_differ x y (z ∷ c) p q r w n e = heads_differ x y c p q r w n (ground arith)

module _ {Obj Raw : Type 0} (env : Env Obj Raw) (consumed : Obj → Bytes)
    (laws : WriteLaws env.engine consumed) (quiet : PausesQuietly env) where
  after_write_ok :
      (d : Bytes) (n : ℕ) (s : Conn Obj Raw)
      → let s' = (after_write env d (ok n) s).1 in
        (obj_of s'.tls ≡ obj_of s.tls) × (join s'.write_buffer ≡ join s.write_buffer ++ drop n d)
  unfolding after_write
  after_write_ok d n s = elim (Bool-cases (ltb n (length d))) [
    | inl more ↦ ground (
      arith,
      flush-SameStream env quiet (record s { write_buffer = s.write_buffer ++ drop n d ∷ [] }),
      join-push s.write_buffer (drop n d),
    )
    | inr all ↦
        ground
          (arith, flush-SameStream env quiet s, drop_all n d all, append-nil (join s.write_buffer))
  ]

  overtaken :
      (x y : ℕ) (b d : Bytes) (rest : List Bytes) (m : ℕ) (s : Conn Obj Raw) (t : Tls Obj)
      → s.tls ≡ some t
      → s.writing_paused ≡ false
      → s.write_buffer ≡ (x ∷ b) ∷ rest
      → (env.engine.write (y ∷ d) t).0 ≡ ok (suc m)
      → let s' = (write env (y ∷ d) s).1 in
        (taken env consumed (obj_of s'.tls) ≡ consumed t.obj ++ y ∷ take m d)
        × (join s'.write_buffer ≡ join s.write_buffer ++ drop m d)
  overtaken x y b d rest m s t live going buffered took =
      let s' : Conn Obj Raw = record s { tls = some (env.engine.write (y ∷ d) t).1 } in
      ground (
        arith,
        write_direct env consumed laws quiet (y ∷ d) s t live going,
        after_write_ok (y ∷ d) (suc m) s',
        laws.write_ok (y ∷ d) t (suc m) took,
        took,
      )

  -- If the SSL object keeps to the laws of a write and the application's `pause_writing` calls
  -- nothing on the connection: a write while plaintext is buffered and writing is not paused, of
  -- which the SSL object takes at least one byte, reaches the SSL object before the buffered bytes,
  -- and what it does not take is buffered behind them. If the first bytes of the two differ, the
  -- plaintext of the connection is not the old one followed by the new bytes.
  pub write_overtakes :
      (x y : ℕ) (b d : Bytes) (rest : List Bytes) (m : ℕ) (s : Conn Obj Raw) (t : Tls Obj)
      → s.tls ≡ some t
      → s.writing_paused ≡ false
      → s.write_buffer ≡ (x ∷ b) ∷ rest
      → (env.engine.write (y ∷ d) t).0 ≡ ok (suc m)
      → x ≢ y
      → let s' = (write env (y ∷ d) s).1 in
        (taken env consumed (obj_of s'.tls) ≡ consumed t.obj ++ y ∷ take m d)
        × (join s'.write_buffer ≡ join s.write_buffer ++ drop m d)
        × (stream env consumed s' ≢ stream env consumed s ++ y ∷ d)
  write_overtakes x y b d rest m s t live going buffered took differ =
      let parts = overtaken x y b d rest m s t live going buffered took in
      (
        parts.0,
        parts.1,
        λ e. heads_differ x y (consumed t.obj) (take m d) _ (b ++ join rest) (y ∷ d) differ (
            ap (λ (c : Bytes). c ++ join (write env (y ∷ d) s).1.write_buffer) (sym parts.0)
            ∙ e
            ∙ rw (live, buffered)),
      )
