-- ===== src/Ssl/Keeping.antt =====
-- Properties of a connection that a method of talyn/loop.py keeps, whatever it returns or raises:
-- how they go through the steps of a method, and through those of the TLS classes.
use talyn.Base.Exec.{raised, ok, catch, ◌>>=◌, when, Result}
use talyn.Ssl.State.{Exn, Session, Conn}
use talyn.Base.{if◌then◌else◌, Bool, true, false}

module _ {Obj Raw : Type 0} where
  abbrev pub Keeps {ℓ} : {A : Type 0} → (Conn Obj Raw → Type ℓ) → Session Obj Raw A → Type ℓ
  Keeps P m = (s : Conn Obj Raw) → P s → P (m s).1

  module _ {ℓ} (P : Conn Obj Raw → Type ℓ) where
    bind_result :
        {A B : Type 0} (p : Result Exn A × Conn Obj Raw) (k : A → Session Obj Raw B)
        (s : Conn Obj Raw)
        → P p.1
        → ((a : A) → Keeps P (k a))
        → P (((λ _. p) >>= k) s).1
    bind_result (ok a, t) k s h g = g a t h
    bind_result (raised e, t) k s h g = h

    catch_result :
        {A : Type 0} (p : Result Exn A × Conn Obj Raw) (k : Exn → Session Obj Raw A)
        (s : Conn Obj Raw)
        → P p.1
        → ((e : Exn) → Keeps P (k e))
        → P (catch (λ _. p) k s).1
    catch_result (ok a, t) k s h g = h
    catch_result (raised e, t) k s h g = g e t h

    pub bind-Keeps :
        {A B : Type 0} (m : Session Obj Raw A) (k : A → Session Obj Raw B)
        → Keeps P m
        → ((a : A) → Keeps P (k a))
        → Keeps P (m >>= k)
    bind-Keeps m k h g s p = bind_result (m s) k s (h s p) g

    pub catch-Keeps :
        {A : Type 0} (m : Session Obj Raw A) (k : Exn → Session Obj Raw A)
        → Keeps P m
        → ((e : Exn) → Keeps P (k e))
        → Keeps P (catch m k)
    catch-Keeps m k h g s p = catch_result (m s) k s (h s p) g

    pub when-Keeps : (b : Bool) (m : Session Obj Raw (Unit {0})) → Keeps P m → Keeps P (when b m)
    when-Keeps true m h = h
    when-Keeps false m h = λ s p. p

    pub if-Keeps :
        {A : Type 0} (b : Bool) (m n : Session Obj Raw A)
        → Keeps P m
        → Keeps P n
        → Keeps P (if b then m else n)
    if-Keeps true m n h g = h
    if-Keeps false m n h g = g

    pub if_result :
        {A : Type 0} (b : Bool) (p q : Result Exn A × Conn Obj Raw)
        → P p.1
        → P q.1
        → P (if b then p else q).1
    if_result true p q h g = h
    if_result false p q h g = g
