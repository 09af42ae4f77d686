-- ===== src/Ssl/Inbound/Delivery.antt =====
-- The bytes that the application of a TLS connection of talyn/loop.py is given by `_r` of the classes
-- that hand on an end of file, and what keeps them.
use talyn.Ssl.Bio.{is_empty, join}
use talyn.Ssl.Protocol.{is_eof, ReadEnd, read_and_deliver, deliver}
use talyn.Ssl.Wrapper.{tell}
use talyn.Ssl.State.{Session, Exn, Conn, AppCall, Env, Effect, Bytes}
use talyn.Base.Exec.{is_ok, ◌>>◌, when, raised, ok, Result}
use talyn.Base.{
  arith, inr, inl, not, Option-cases, refl, append_assoc, true, sym, append-nil, none, some, false,
  ap, [], ◌≡◌, ◌∷◌, ◌∙◌, ◌++◌, Option, List,
}
use talyn.Ssl.Stable.Reading.{hand_on_eof, hand_on_eof-Keeps}
use talyn.Ssl.Stable.{Watched, Stable, Of, is_handed}
use talyn.Ssl.Keeping.{Keeps, when-Keeps}
use talyn.Ssl.Reading.{ReadLaws, read_and_deliver-hands}
use talyn.Ssl.Inbound.{data_of, heard, given_of, OnlyRead, LeavesInput}

pub heard-snoc : (es : List Effect) (e : Effect) → heard (es ++ e ∷ []) ≡ heard es ++ data_of e
unfolding heard
heard-snoc [] e = append-nil (data_of e)
heard-snoc (x ∷ es) e =
    ap (λ b. data_of x ++ b) (heard-snoc es e)
    ∙ sym (append_assoc (data_of x) (heard es) (data_of e))

data_of-other : (e : Effect) → is_handed e ≡ false → data_of e ≡ []
data_of-other (Effect.app_call (AppCall.data_received d)) h = absurd cc
data_of-other (Effect.app_call _) h = refl
data_of-other _ h = refl

module _ {Obj Raw : Type 0} (env : Env Obj Raw) (given : Obj → Bytes)
    (laws : ReadLaws env.engine given) (only : OnlyRead env.engine given)
    (leaves : LeavesInput env given) where
  -- The application was given what the SSL object has returned.
  abbrev pub Q : Watched Obj
  Q w b t es = given_of given t ≡ some (heard es)

  abbrev pub P : Conn Obj Raw → Type 0
  P = Of Q

  pub input-Stable : Stable env Q
  input-Stable = record {
    emitted = λ e w b t es d p.
        p
        ∙ ap some (
            sym (
              heard-snoc es e
              ∙ ap (λ b'. heard es ++ b') (data_of-other e d)
              ∙ append-nil (heard es)));
    told = λ c s p. (leaves c s).0 ∙ p ∙ ap some (sym (leaves c s).1);
    taken = λ w b t es p. p;
    put = λ d w b t es p. p;
    written = λ d w b t es p. ap some (only.write_given d t) ∙ p;
    unwrapped = λ w b t es p. ap some (only.unwrap_given t) ∙ p;
  }

  pub data_received-heard :
      (d : Bytes) (s : Conn Obj Raw)
      → given_of given s.tls ≡ some (heard s.trace ++ d)
      → P (tell env (AppCall.data_received d) s).1
  data_received-heard d s h =
      let e = Effect.app_call (AppCall.data_received d) in
      input-Stable.told (AppCall.data_received d) (record s { trace = s.trace ++ e ∷ [] })
        (h ∙ ap some (sym (heard-snoc s.trace e)))

  told-all :
      (chunks : List Bytes) (s : Conn Obj Raw)
      → given_of given s.tls ≡ some (heard s.trace ++ join chunks)
      → P (when (not (is_empty chunks)) (tell env (AppCall.data_received (join chunks))) s).1
  told-all [] s h = h ∙ ap some (append-nil (heard s.trace))
  told-all (d ∷ ds) s h = data_received-heard (join (d ∷ ds)) s h

  after_told :
      (p : Result Exn (Unit {0}) × Conn Obj Raw) (k : Session Obj Raw (Unit {0})) (s : Conn Obj Raw)
      → P p.1
      → Keeps P k
      → P ((do (λ _. p); k) s).1
  after_told (ok _, t) k s h g = g t h
  after_told (raised e, t) k s h g = h

  deliver-heard :
      (chunks : List Bytes) (end : ReadEnd) (s : Conn Obj Raw)
      → given_of given s.tls ≡ some (heard s.trace ++ join chunks)
      → P (deliver env (chunks, end) s).1
  unfolding deliver
  deliver-heard chunks end s h =
      after_told (when (not (is_empty chunks)) (tell env (AppCall.data_received (join chunks))) s)
        (when (is_eof end) (hand_on_eof env)) s (told-all chunks s h)
        (when-Keeps P (is_eof end) (hand_on_eof env) (hand_on_eof-Keeps env Q input-Stable))

  abbrev pub extend : Bytes → Option Bytes → Option Bytes
  extend d none = none
  extend d (some b) = some (b ++ d)

  pub read-heard :
      (s : Conn Obj Raw)
      → P s
      → is_ok (read_and_deliver env s).0 ≡ true
      → P (read_and_deliver env s).1
  read-heard s p h = elim (Option-cases s.tls) [
    | inl gone ↦ absurd (ground (arith, rw gone at p))
    | inr (t, live) ↦ elim (read_and_deliver-hands env given laws s t live) [
      | inl (chunks, end, t', g, e) ↦ rw e (
          deliver-heard chunks end (record s { tls = some t' })
            (ap some g ∙ ap (extend (join chunks)) (rw live at p)))
      | inr (x, real, r) ↦ absurd cc
    ]
  ]
