-- ===== src/Ssl/Bio.antt =====
-- The small steps of the TLS code in talyn/loop.py: calls on the SSL object and its MemoryBIOs, and
-- writes to the fields of a connection.
use talyn.Ssl.State.{Exn, Session, attribute_error, Tls, Effect, Bytes}
use talyn.Base.Exec.{raised, ok, modify, Result, Exec}
use talyn.Base.{false, ◌∷◌, ◌++◌, true, Bool, List, none, some, []}

abbrev pub is_empty {ℓ} : {A : Type ℓ} → List A → Bool
is_empty [] = true
is_empty (_ ∷ _) = false

-- `b"".join(chunks)`
abbrev pub join : List Bytes → Bytes
join [] = []
join (d ∷ ds) = d ++ join ds

-- `_outgoing.read()` and `_outgoing.write(d)`
abbrev pub take_outgoing : {Obj : Type 0} → Exec (Tls Obj) Exn Bytes
take_outgoing t = (ok t.outgoing, record t { outgoing = [] })

abbrev pub put_outgoing : {Obj : Type 0} → Bytes → Exec (Tls Obj) Exn (Unit {0})
put_outgoing d t = (ok tt, record t { outgoing = t.outgoing ++ d })

module _ {Obj Raw : Type 0} where
  -- `try`: the result or the exception of a call, as a value.
  abbrev pub attempt : {A : Type 0} → Session Obj Raw A → Session Obj Raw (Result Exn A)
  attempt m s = let (r, s') = m s in (ok r, s')

  -- An operation on `_sslobj` or on a BIO, which are None after `connection_lost`.
  abbrev pub on_tls : {A : Type 0} → Exec (Tls Obj) Exn A → Session Obj Raw A
  on_tls op s = elim s.tls [
    | none ↦ (raised attribute_error, s)
    | some t ↦ let (r, t') = op t in (r, record s { tls = some t' })
  ]

  abbrev pub emit : Effect → Session Obj Raw (Unit {0})
  emit e = modify (λ s. record s { trace = s.trace ++ e ∷ [] })

  -- `_write_buffer.append` and `_write_buffer.appendleft`
  abbrev pub append_buffer : Bytes → Session Obj Raw (Unit {0})
  append_buffer d = modify (λ s. record s { write_buffer = s.write_buffer ++ d ∷ [] })

  abbrev pub append_left : Bytes → Session Obj Raw (Unit {0})
  append_left d = modify (λ s. record s { write_buffer = d ∷ s.write_buffer })

  abbrev pub want_read_flag : Session Obj Raw (Unit {0})
  want_read_flag = modify (λ s. record s { write_wants_read = true })

  abbrev pub want_write_flag : Session Obj Raw (Unit {0})
  want_write_flag = modify (λ s. record s { write_wants_write = true })
