-- ===== src/Ssl/Reading.antt =====
-- The reading loops of `_r` in the TLS classes of talyn/loop.py, and what they hand to the application.
use talyn.Ssl.Bio.{join}
use talyn.Base.{
  zero, Bool-cases, ◌≡◌, ◌≢◌, ◌⊎◌, refl, sym, ap, ◌∙◌, inl, inr, arith, ℕ, suc, ◌<◌, Bool, true,
  false, Option, none, some, List, [], ◌∷◌, ◌++◌, append_assoc, append-nil,
}
use talyn.Base.Exec.{◌>>=◌, Result, ok, raised}
use talyn.Ssl.State.{
  Bytes, Exn, Tls, Engine, Conn, Env, want_read, want_write, ssl_eof, ssl_error, out_of_fuel,
}
use talyn.Ssl.Protocol.{
  rounds, read_and_deliver, deliver, ReadEnd, read_loop, no_data, blocked, peer_eof, failed_read,
  halted,
}

-- `SSLObject.read`: `given` is the plaintext that it has returned so far. What was received allows
-- only so many reads that return bytes, and it raises only exceptions of the program.
pub record ReadLaws {Obj : Type 0} (engine : Engine Obj) (given : Obj → Bytes) : Type 0 where
  pub read_ok :
      (t : Tls Obj) (d : Bytes)
      → (engine.read t).0 ≡ ok d
      → given (engine.read t).1.obj ≡ given t.obj ++ d
  pub read_raised :
      (t : Tls Obj) (e : Exn)
      → (engine.read t).0 ≡ raised e
      → given (engine.read t).1.obj ≡ given t.obj
  pub read_backlog :
      (t : Tls Obj) (b : ℕ) (d : Bytes)
      → (engine.read t).0 ≡ ok (b ∷ d)
      → engine.backlog (engine.read t).1 < engine.backlog t
  pub read_real : (t : Tls Obj) → (engine.read t).0 ≢ raised out_of_fuel

pub Read-cases :
    (r : Result Exn Bytes)
    → (r ≡ ok []) ⊎ ((b : ℕ) × (d : Bytes) × (r ≡ ok (b ∷ d))) ⊎ ((e : Exn) × (r ≡ raised e))
Read-cases (ok []) = inl refl
Read-cases (ok (b ∷ d)) = inr (inl (b, d, refl))
Read-cases (raised e) = inr (inr (e, refl))

-- How a loop ends on this exception of `read`; none: the exception goes on.
abbrev end_of : Exn → Option ReadEnd
end_of want_read = some blocked
end_of ssl_eof = some peer_eof
end_of want_write = some failed_read
end_of ssl_error = some failed_read
end_of _ = none

abbrev finish :
    {Obj Raw : Type 0}
    → Exn
    → List Bytes
    → Conn Obj Raw
    → Result Exn (List Bytes × ReadEnd) × Conn Obj Raw
finish e acc s = elim (end_of e) [ none ↦ (raised e, s) | some end ↦ (ok (acc, end), s) ]

join-snoc : (acc : List Bytes) (d : Bytes) → join (acc ++ d ∷ []) ≡ join acc ++ d
join-snoc [] d = append-nil d
join-snoc (x ∷ acc) d = ap (λ r. x ++ r) (join-snoc acc d) ∙ sym (append_assoc x (join acc) d)

module _ {Obj Raw : Type 0} (env : Env Obj Raw) (given : Obj → Bytes)
    (laws : ReadLaws env.engine given) where
  abbrev with_tls : Tls Obj → Conn Obj Raw → Conn Obj Raw
  with_tls t s = record s { tls = some t }

  module _ (keep : Conn Obj Raw → Bool) where
    round_more :
        (fuel : ℕ) (acc : List Bytes) (s : Conn Obj Raw) (t : Tls Obj) (b : ℕ) (d : Bytes)
        → keep s ≡ true
        → s.tls ≡ some t
        → (env.engine.read t).0 ≡ ok (b ∷ d)
        → read_loop env keep (suc fuel) acc s
          ≡ read_loop env keep fuel (acc ++ (b ∷ d) ∷ []) (with_tls (env.engine.read t).1 s)
    unfolding read_loop
    round_more fuel acc s t b d k e r = ground arith

    round_none :
        (fuel : ℕ) (acc : List Bytes) (s : Conn Obj Raw) (t : Tls Obj)
        → keep s ≡ true
        → s.tls ≡ some t
        → (env.engine.read t).0 ≡ ok []
        → read_loop env keep (suc fuel) acc s
          ≡ (ok (acc, no_data), with_tls (env.engine.read t).1 s)
    unfolding read_loop
    round_none fuel acc s t k e r = ground arith

    round_raised :
        (fuel : ℕ) (acc : List Bytes) (s : Conn Obj Raw) (t : Tls Obj) (x : Exn)
        → keep s ≡ true
        → s.tls ≡ some t
        → (env.engine.read t).0 ≡ raised x
        → read_loop env keep (suc fuel) acc s ≡ finish x acc (with_tls (env.engine.read t).1 s)
    unfolding read_loop
    round_raised fuel acc s t x k e r = ground arith

    round_halted :
        (fuel : ℕ) (acc : List Bytes) (s : Conn Obj Raw)
        → keep s ≡ false
        → read_loop env keep (suc fuel) acc s ≡ (ok (acc, halted), s)
    unfolding read_loop
    round_halted fuel acc s k = ground arith

  -- What a loop leaves: nothing changed but the SSL object, and the chunks that were there before are
  -- followed by what the SSL object has given meanwhile. An exception that goes on is the program's.
  abbrev pub Reads :
      Tls Obj
      → List Bytes
      → Conn Obj Raw
      → Result Exn (List Bytes × ReadEnd) × Conn Obj Raw
      → Type 0
  Reads t acc s (ok (chunks, end), s') =
      (t' : Tls Obj) × (x : Bytes) × (s' ≡ record s { tls = some t' })
      × (given t'.obj ≡ given t.obj ++ x)
      × (join chunks ≡ join acc ++ x)
  Reads t acc s (raised e, s') = e ≢ out_of_fuel

  Reads-same :
      (t u : Tls Obj) (acc : List Bytes) (s : Conn Obj Raw) (end : ReadEnd)
      → given u.obj ≡ given t.obj
      → Reads t acc s (ok (acc, end), with_tls u s)
  Reads-same t u acc s end g =
      (u, [], refl, g ∙ sym (append-nil (given t.obj)), sym (append-nil (join acc)))

  finish-Reads :
      (t u : Tls Obj) (acc : List Bytes) (s : Conn Obj Raw) (e : Exn)
      → e ≢ out_of_fuel
      → given u.obj ≡ given t.obj
      → Reads t acc s (finish e acc (with_tls u s))
  finish-Reads t u acc s want_read n g = Reads-same t u acc s blocked g
  finish-Reads t u acc s ssl_eof n g = Reads-same t u acc s peer_eof g
  finish-Reads t u acc s want_write n g = Reads-same t u acc s failed_read g
  finish-Reads t u acc s ssl_error n g = Reads-same t u acc s failed_read g
  finish-Reads t u acc s e n g = n

  Reads-more :
      (t u : Tls Obj) (acc : List Bytes) (d : Bytes) (s : Conn Obj Raw)
      (r : Result Exn (List Bytes × ReadEnd) × Conn Obj Raw)
      → given u.obj ≡ given t.obj ++ d
      → Reads u (acc ++ d ∷ []) (with_tls u s) r
      → Reads t acc s r
  Reads-more t u acc d s (ok (chunks, end), s') g (t', x, e, h, j) =
      (t', d ++ x, e, rw (h, g, append_assoc) refl, rw (j, join-snoc acc d, append_assoc) refl)
  Reads-more t u acc d s (raised e, s') g h = h

  pub read_loop-Reads :
      (keep : Conn Obj Raw → Bool) (fuel : ℕ) (acc : List Bytes) (s : Conn Obj Raw) (t : Tls Obj)
      → s.tls ≡ some t
      → env.engine.backlog t < fuel
      → Reads t acc s (read_loop env keep fuel acc s)
  read_loop-Reads keep zero acc s t e b = absurd (omega arith)
  read_loop-Reads keep (suc fuel) acc s t e b = elim (Bool-cases (keep s)) [
    | inr k ↦ rw (round_halted keep fuel acc s k) (
      t,
      [],
      ap (λ o. record s { tls = o }) e,
      sym (append-nil (given t.obj)),
      sym (append-nil (join acc)),
    )
    | inl k ↦ elim (Read-cases (env.engine.read t).0) [
      | inl r ↦ rw (round_none keep fuel acc s t k e r) (
          Reads-same t (env.engine.read t).1 acc s no_data
            (laws.read_ok t [] r ∙ append-nil (given t.obj)))
      | inr (inl (c, d, r)) ↦ rw (round_more keep fuel acc s t c d k e r) (
          Reads-more t (env.engine.read t).1 acc (c ∷ d) s _ (laws.read_ok t (c ∷ d) r) (
            read_loop-Reads keep fuel (acc ++ (c ∷ d) ∷ []) (with_tls (env.engine.read t).1 s)
              (env.engine.read t).1 refl (omega (arith, laws.read_backlog t c d r))))
      | inr (inr (x, r)) ↦ rw (round_raised keep fuel acc s t x k e r) (
          finish-Reads t (env.engine.read t).1 acc s x (λ y. laws.read_real t (r ∙ ap raised y))
            (laws.read_raised t x r))
    ]
  ]

  -- How `_r` goes on from a loop: with all that the SSL object gave in the loop, or with an exception.
  abbrev Hands : Tls Obj → Conn Obj Raw → Result Exn (Unit {0}) × Conn Obj Raw → Type 0
  Hands t s p =
      ((chunks : List Bytes) × (end : ReadEnd) × (t' : Tls Obj) × (given t'.obj
          ≡ given t.obj ++ join chunks)
        × (p ≡ deliver env (chunks, end) (with_tls t' s)))
      ⊎ ((e : Exn) × (e ≢ out_of_fuel) × (p.0 ≡ raised e))

  bind-Hands :
      (t : Tls Obj) (s : Conn Obj Raw) (p : Result Exn (List Bytes × ReadEnd) × Conn Obj Raw)
      → Reads t [] s p
      → Hands t s (((λ _. p) >>= deliver env) s)
  bind-Hands t s (ok (chunks, end), s') (t', x, e, g, j) =
      inl
        (chunks, end, t', g ∙ ap (λ y. given t.obj ++ y) (sym j), ap (deliver env (chunks, end)) e)
  bind-Hands t s (raised e, s') n = inr (e, n, refl)

  -- `_r` on a live SSL object reads until there is no more and comes to an end; all that the SSL
  -- object gave meanwhile, in order, is then handed to the application in one call, before an end
  -- of file, with the connection otherwise as it was; or an exception of the program goes on.
  pub read_and_deliver-hands :
      (s : Conn Obj Raw) (t : Tls Obj)
      → s.tls ≡ some t
      → ((chunks : List Bytes) × (end : ReadEnd) × (t' : Tls Obj) × (given t'.obj
            ≡ given t.obj ++ join chunks)
          × (read_and_deliver env s ≡ deliver env (chunks, end) (record s { tls = some t' })))
        ⊎ ((e : Exn) × (e ≢ out_of_fuel) × ((read_and_deliver env s).0 ≡ raised e))
  unfolding read_and_deliver
  read_and_deliver-hands s t e =
      bind-Hands t s (read_loop env (λ _. true) (rounds env s) [] s)
        (read_loop-Reads (λ _. true) (rounds env s) [] s t e (ground arith))
