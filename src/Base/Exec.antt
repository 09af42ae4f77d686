-- ===== src/Base/Exec.antt =====
-- A method call: it takes the state of its objects, and returns the new state with a result or with
-- the exception that it raises. What was written before a raise stays written.
use mathlib.Core.Bool.{Bool, true, false}

pub data Result {ℓ} (E : Type ℓ) (A : Type ℓ) : Type ℓ where
  ok : A → Result E A
  raised : E → Result E A

abbrev pub is_ok {ℓ} : {E A : Type ℓ} → Result E A → Bool
is_ok (ok _) = true
is_ok (raised _) = false

abbrev pub Exec : Type 0 → Type 0 → Type 0 → Type 0
Exec S E A = S → Result E A × S

module _ {S E : Type 0} where
  abbrev pub pure : {A : Type 0} → A → Exec S E A
  pure a s = (ok a, s)

  abbrev pub raise : {A : Type 0} → E → Exec S E A
  raise e s = (raised e, s)

  abbrev pub gets : {A : Type 0} → (S → A) → Exec S E A
  gets f s = (ok (f s), s)

  abbrev pub modify : (S → S) → Exec S E (Unit {0})
  modify f s = (ok tt, f s)

  infixl 5 ◌>>=◌ ◌>>◌
  abbrev pub ◌>>=◌ : {A B : Type 0} → Exec S E A → (A → Exec S E B) → Exec S E B
  ◌>>=◌ m f s = let (r, s') = m s in elim r [ ok a ↦ f a s' | raised e ↦ (raised e, s') ]

  abbrev pub ◌>>◌ : {B : Type 0} → Exec S E (Unit {0}) → Exec S E B → Exec S E B
  m >> k = m >>= λ _. k

  -- `try: m except e: h e`
  abbrev pub catch : {A : Type 0} → Exec S E A → (E → Exec S E A) → Exec S E A
  catch m h s = let (r, s') = m s in elim r [ ok a ↦ (ok a, s') | raised e ↦ h e s' ]

  -- `if b: m`
  abbrev pub when : Bool → Exec S E (Unit {0}) → Exec S E (Unit {0})
  when true m = m
  when false _ = pure tt
