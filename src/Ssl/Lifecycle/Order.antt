-- ===== src/Ssl/Lifecycle/Order.antt =====
-- The order of the calls on the application's protocol over the life of a TLS connection of
-- talyn/loop.py, and the handshake flag of the protocol object.
use talyn.Ssl.Bio.{on_tls}
use talyn.Ssl.Protocol.{handshake, after_handshake}
use talyn.Ssl.Wrapper.{flush, tell}
use talyn.Ssl.Keeping.{Keeps}
use talyn.Base.Exec.{is_ok, raised, ok, ◌>>◌, Result}
use talyn.Ssl.State.{want_write, want_read, Session, Exn, Conn, AppCall, Env, Effect}
use talyn.Base.{inr, inl, ap, ◌⊎◌, true, refl, arith, [], ◌∷◌, false, ◌≡◌, ◌∙◌, ◌++◌, List, Bool}
use talyn.Ssl.Stable
use talyn.Ssl.Stable.{Watched, Stable, Of, is_handed}
use talyn.Ssl.Lifecycle.{
  follows, ProtocolClass, connected, Phase, unconnected, next, phase_from, phase,
}

phase_from-snoc :
    (p : Phase) (es : List Effect) (e : Effect)
    → phase_from p (es ++ e ∷ []) ≡ next (phase_from p es) e
phase_from-snoc p [] e = refl
phase_from-snoc p (x ∷ es) e = phase_from-snoc (next p x) es e

pub phase-snoc : (es : List Effect) (e : Effect) → phase (es ++ e ∷ []) ≡ next (phase es) e
unfolding phase
phase-snoc es e = phase_from-snoc unconnected es e

next-other : (p : Phase) (e : Effect) → is_handed e ≡ false → next p e ≡ p
next-other p e h = ground arith

-- The application, when it is called, neither finishes a handshake nor calls its own
-- `connection_made` and `data_received`, and it does not touch the future of the factory.
abbrev pub LeavesPhase : {Obj Raw : Type 0} → Env Obj Raw → Type 0
LeavesPhase {Obj} {Raw} env =
    (c : AppCall) (s : Conn Obj Raw)
    → (phase (env.app c s).1.trace ≡ phase s.trace)
      × ((env.app c s).1.handshaken ≡ s.handshaken)
      × ((env.app c s).1.waiter ≡ s.waiter)

-- The phase, the handshake flag, and a future that follows the flag.
abbrev pub At : {Obj : Type 0} → ProtocolClass → Phase → Bool → Watched Obj
At k p b w b' t es = (phase es ≡ p) × (b' ≡ b) × (follows k b w ≡ true)

module _ {Obj Raw : Type 0} (env : Env Obj Raw) (leaves : LeavesPhase env) (k : ProtocolClass) where
  told-At :
      (p : Phase) (b : Bool) (c : AppCall) (s : Conn Obj Raw)
      → Of (At k p b) s
      → Of (At k p b) (env.app c s).1
  told-At p b c s (h, g, f) =
      let (e, e', e'') = leaves c s in (e ∙ h, e' ∙ g, ap (λ w. follows k b w) e'' ∙ f)

  pub at-Stable : (p : Phase) (b : Bool) → Stable env (At k p b)
  at-Stable p b = record {
    emitted = λ e w b' t es d (h, g, f). (phase-snoc es e ∙ next-other (phase es) e d ∙ h, g, f);
    told = told-At p b;
    taken = λ w b' t es h. h;
    put = λ d w b' t es h. h;
    written = λ d w b' t es h. h;
    unwrapped = λ w b' t es h. h;
  }

  pub tell-At :
      (p q : Phase) (b : Bool) (c : AppCall)
      → next p (Effect.app_call c) ≡ q
      → (s : Conn Obj Raw) → Of (At k p b) s
      → Of (At k q b) (tell env c s).1
  tell-At p q b c e s (h, g, f) =
      told-At q b c (record s { trace = s.trace ++ Effect.app_call c ∷ [] })
        (phase-snoc s.trace (Effect.app_call c) ∙ ap (λ x. next x (Effect.app_call c)) h ∙ e, g, f)

  -- Not connected and before the end of the handshake, or connected and after it.
  abbrev pub IsOrdered : Conn Obj Raw → Type 0
  IsOrdered s = Of (At k unconnected false) s ⊎ Of (At k connected true) s

  -- What keeps any phase and either value of the flag.
  pub both :
      {A : Type 0} (m : Session Obj Raw A)
      → ((p : Phase) (b : Bool) → Keeps (Of (At k p b)) m)
      → (s : Conn Obj Raw) → IsOrdered s
      → IsOrdered (m s).1
  both m keeps s (inl a) = inl (keeps unconnected false s a)
  both m keeps s (inr a) = inr (keeps connected true s a)

  -- `flush` and then `connection_made`, after the flag has been set.
  connects :
      (r : Result Exn (Unit {0}) × Conn Obj Raw) (s : Conn Obj Raw)
      → Of (At k unconnected true) r.1
      → is_ok (((λ _. r) >> tell env AppCall.connection_made) s).0 ≡ true
      → Of (At k connected true) (((λ _. r) >> tell env AppCall.connection_made) s).1
  connects (ok _, t) s a h = tell-At unconnected connected true AppCall.connection_made refl t a
  connects (raised e, t) s a h = absurd cc

  pub flush_connects :
      (s : Conn Obj Raw)
      → Of (At k unconnected true) s
      → is_ok ((do flush env; tell env AppCall.connection_made) s).0 ≡ true
      → Of (At k connected true) ((do flush env; tell env AppCall.connection_made) s).1
  flush_connects s a h =
      connects (flush env s) s
        (Stable.flush-Keeps env (At k unconnected true) (at-Stable unconnected true) s a) h

  module _ (fail : Exn → Session Obj Raw (Unit {0})) (succeed : Session Obj Raw (Unit {0}))
      (fails : (e : Exn) → Keeps (Of (At k unconnected false)) (fail e))
      (succeeds : (s : Conn Obj Raw)
        → Of (At k unconnected false) s
        → is_ok (succeed s).0 ≡ true
        → Of (At k connected true) (succeed s).1) where
    after_handshake-IsOrdered :
        (r : Result Exn (Unit {0})) (s : Conn Obj Raw)
        → Of (At k unconnected false) s
        → is_ok (after_handshake env fail succeed r s).0 ≡ true
        → IsOrdered (after_handshake env fail succeed r s).1
    unfolding after_handshake
    after_handshake-IsOrdered (ok _) s a h = inr (succeeds s a h)
    after_handshake-IsOrdered (raised want_read) s a h =
        inl (Stable.flush-Keeps env (At k unconnected false) (at-Stable unconnected false) s a)
    after_handshake-IsOrdered (raised want_write) s a h =
        inl (Stable.flush-Keeps env (At k unconnected false) (at-Stable unconnected false) s a)
    after_handshake-IsOrdered (raised e) s a h = inl (fails e s a)

    pub handshake-IsOrdered :
        (s : Conn Obj Raw)
        → Of (At k unconnected false) s
        → is_ok (handshake env fail succeed s).0 ≡ true
        → IsOrdered (handshake env fail succeed s).1
    unfolding handshake
    handshake-IsOrdered s a h =
        let (r, t) = on_tls env.engine.do_handshake s in
        after_handshake-IsOrdered r t
          (Stable.on_tls-Keeps env (At k unconnected false) (at-Stable unconnected false)
            env.engine.do_handshake (λ w b t es a. a) s a)
          h
