-- ===== src/Ssl/Plaintext.antt =====
-- `write` of `_SSLTransportWrapper` (talyn/loop.py) and the stream of plaintext: what the SSL object has
-- taken, then the buffer.
use talyn.Ssl.Bio.{join}
use talyn.Ssl.Wrapper.{flush, after_write, write}
use talyn.Ssl.Laws.{flush-SameStream, PausesQuietly, obj_of, WriteLaws}
use talyn.Base.Exec.{ok, raised, Result}
use talyn.Base.{
  take-append-drop, ap, zero, ◌∙◌, suc, take, length, drop, Bool-cases, sym, ltb, ◌⊎◌, append_assoc,
  Bool, append-nil, Option, refl, none, some, true, false, inl, inr, [], ◌∷◌, arith, ◌≡◌, ℕ, List,
  ◌++◌,
}
use talyn.Ssl.State.{want_write, want_read, Tls, Bytes, Exn, Conn, Env}

pub join-push : (ds : List Bytes) (d : Bytes) → join (ds ++ d ∷ []) ≡ join ds ++ d
join-push [] d = append-nil d
join-push (x ∷ ds) d = rw (join-push ds d, append_assoc)

pub drop_all : (n : ℕ) (d : Bytes) → ltb n (length d) ≡ false → drop n d ≡ []
drop_all zero [] h = refl
drop_all zero (x ∷ d) h = ground arith
drop_all (suc n) [] h = refl
drop_all (suc n) (x ∷ d) h = drop_all n d (ground arith)

-- `sslobj.write` took the data, took a part of it, or wants the peer first. In the other cases the
-- connection is given up or the exception goes to the caller.
abbrev pub is_accepted : Result Exn ℕ → Bool
is_accepted (ok n) = true
is_accepted (raised want_read) = true
is_accepted (raised want_write) = true
is_accepted (raised _) = false

-- What the SSL object leaves of the data.
abbrev pub remainder : Bytes → Result Exn ℕ → Bytes
remainder d (ok n) = drop n d
remainder d (raised _) = d

module _ {Obj Raw : Type 0} (env : Env Obj Raw) (consumed : Obj → Bytes) where
  abbrev pub taken : Option Obj → Bytes
  taken none = []
  taken (some o) = consumed o

  -- The plaintext so far: what the SSL object has taken, and then the buffer.
  abbrev pub stream : Conn Obj Raw → Bytes
  stream s = taken (obj_of s.tls) ++ join s.write_buffer

  module _ (laws : WriteLaws env.engine consumed) (quiet : PausesQuietly env) where
    pub flush-stream : (s : Conn Obj Raw) → stream (flush env s).1 ≡ stream s
    flush-stream s = ground (arith, flush-SameStream env quiet s)

    push-stream :
        (d : Bytes) (s : Conn Obj Raw)
        → stream (record s { write_buffer = s.write_buffer ++ d ∷ [] }) ≡ stream s ++ d
    push-stream d s =
        rw (join-push s.write_buffer d) (sym (append_assoc (taken (obj_of s.tls)) _ d))

    after_write-stream :
        (d : Bytes) (r : Result Exn ℕ) (s : Conn Obj Raw)
        → is_accepted r ≡ true
        → stream (after_write env d r s).1 ≡ stream s ++ remainder d r
    unfolding after_write
    after_write-stream d (ok n) s h = elim (Bool-cases (ltb n (length d))) [
      | inl more ↦ rw more (flush-stream _ ∙ push-stream (drop n d) s)
      | inr all ↦ rw (all, drop_all n d all) (flush-stream s ∙ sym (append-nil _))
    ]
    after_write-stream d (raised want_read) s h = flush-stream _ ∙ push-stream d s
    after_write-stream d (raised want_write) s h = flush-stream _ ∙ push-stream d s
    after_write-stream d (raised e) s h = cc

    -- What the SSL object has taken after a call of its `write`.
    pub taken-write :
        (d : Bytes) (t : Tls Obj)
        → is_accepted (env.engine.write d t).0 ≡ true
        → consumed (env.engine.write d t).1.obj ++ remainder d (env.engine.write d t).0
          ≡ consumed t.obj ++ d
    taken-write d t h = go (env.engine.write d t).0 refl h
      where
        go :
            (r : Result Exn ℕ)
            → (env.engine.write d t).0 ≡ r
            → is_accepted r ≡ true
            → consumed (env.engine.write d t).1.obj ++ remainder d r ≡ consumed t.obj ++ d
        go (ok n) e k = rw (laws.write_ok d t n e) (
            append_assoc (consumed t.obj) (take n d) (drop n d)
            ∙ ap (◌++◌ (consumed t.obj)) (take-append-drop n d))
        go (raised x) e k = rw (laws.write_raised d t x e)

    pub write_direct :
        (d : Bytes) (s : Conn Obj Raw) (t : Tls Obj)
        → s.tls ≡ some t
        → s.writing_paused ≡ false
        → write env d s
          ≡ after_write env d
              (env.engine.write d t).0
              (record s { tls = some (env.engine.write d t).1 })
    unfolding write
    write_direct d s t e going = ground (arith, e)

    -- One write to a live SSL object, while writing is paused or with nothing buffered, and not
    -- refused by a fatal error: the new bytes stand after all that was written before, whether they
    -- are taken, taken in part, or kept until the peer has answered.
    pub write-stream :
        (d : Bytes) (s : Conn Obj Raw) (t : Tls Obj)
        → s.tls ≡ some t
        → (s.writing_paused ≡ true) ⊎ (s.write_buffer ≡ [])
        → is_accepted (env.engine.write d t).0 ≡ true
        → stream (write env d s).1 ≡ stream s ++ d
    unfolding write
    write-stream d s t e (inl stopped) f = rw stopped (push-stream d s)
    write-stream d s t e (inr empty) f = elim (Bool-cases s.writing_paused) [
      | inl stopped ↦ rw stopped (push-stream d s)
      | inr going ↦
          let s' : Conn Obj Raw = record s { tls = some (env.engine.write d t).1 } in
          ap (λ (r : Result Exn (Unit {0}) × Conn Obj Raw). stream r.1) (write_direct d s t e going)
          ∙ after_write-stream d (env.engine.write d t).0 s' f
          ∙ rw (e, empty) (simp append-nil (taken-write d t f))
    ]
