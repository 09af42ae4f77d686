-- ===== src/Ssl/Secure.antt =====
-- What the callers of `create_connection`, `create_unix_connection` and `start_tls` of talyn/loop.py
-- get when the TLS handshake succeeds, fails, or does not end.
use talyn.Base.Exec.{Result, raised, ok}
use talyn.Base.{
  sym, zero, suc, ◌∙◌, ◌++◌, refl, none, some, true, true, ◌≢◌, ◌≡◌, is_some, arith, Option, Bool,
  none, some, [], ◌∷◌, ℕ, List,
}
use talyn.Ssl.State.{RawCall, waiting, done, Exn, Conn, Waiter, Env}
use talyn.Ssl.Untouched.{resume_writing-Keeps, OfFuture, LeavesFuture, Settles}
use talyn.Ssl.Untouched.Factories.{received-Keeps, lost-Keeps, eof-Keeps, made-Keeps}
use talyn.Ssl.Connect.{
  start_timer, begin, connect, hand_over, give_up, conclude, end_wait, Handed, awaited, Factory,
  tcp, LoopEvent, made, ends, resumes, reading_resumes, time_is_up, cancels, receives, loses, Wait,
  wait_step, wait_through, on_timeout,
}

module _ {Obj Raw : Type 0} (env : Env Obj Raw) (leaves : LeavesFuture env)
    (Q : Waiter → Bool → Type 0) (settles : Settles Q) where
  on_timeout-Keeps : (s : Conn Obj Raw) → OfFuture Q s → OfFuture Q (on_timeout env s).1
  unfolding on_timeout
  on_timeout-Keeps s p =
      ground (arith, settles.fails Exn.connection_aborted s.waiter s.handshaken p)

  step-Keeps :
      (f : Factory) (timeout : Option ℕ) (w : Wait Obj Raw) (e : LoopEvent)
      → OfFuture Q w.conn
      → OfFuture Q (wait_step env f timeout w e).conn
  unfolding wait_step
  step-Keeps f timeout w made p = made-Keeps env leaves Q settles f w.conn p
  step-Keeps f timeout w ends p = eof-Keeps env leaves Q settles f w.conn p
  step-Keeps f timeout w resumes p = resume_writing-Keeps env leaves Q w.conn p
  step-Keeps f timeout w reading_resumes p = p
  step-Keeps tcp none w time_is_up p = p
  step-Keeps tcp (some _) w time_is_up p = on_timeout-Keeps w.conn p
  step-Keeps _ timeout w time_is_up p =
      settles.fails Exn.cancelled w.conn.waiter w.conn.handshaken p
  step-Keeps f timeout w cancels p = settles.fails Exn.cancelled w.conn.waiter w.conn.handshaken p
  step-Keeps f timeout w (receives d) p = received-Keeps env leaves Q settles f d w.conn p
  step-Keeps f timeout w (loses e) p = lost-Keeps env leaves Q settles f e w.conn p

  pub wait-Keeps :
      (f : Factory) (timeout : Option ℕ) (w : Wait Obj Raw) (es : List LoopEvent)
      → OfFuture Q w.conn
      → OfFuture Q (wait_through env f timeout w es).conn
  unfolding wait_through
  wait-Keeps f timeout w [] p = p
  wait-Keeps f timeout w (e ∷ es) p =
      wait-Keeps f timeout (wait_step env f timeout w e) es (step-Keeps f timeout w e p)

-- A future that is done was finished by a handshake.
abbrev pub MeansHandshaken : Waiter → Bool → Type 0
MeansHandshaken w b = w ≡ done → b ≡ true

pub MeansHandshaken-Settles : Settles MeansHandshaken
MeansHandshaken-Settles = record {
  fails = λ e w b p h. ground (arith, p);
  succeeds = λ w b p h. cc;
}

-- A future that does not wait any more.
abbrev IsSettled : Waiter → Bool → Type 0
IsSettled w b = w ≢ waiting

IsSettled-Settles : Settles IsSettled
IsSettled-Settles = record {
  fails = λ e w b p h. ground (arith, p);
  succeeds = λ w b p h. ground (arith, p);
}

-- A factory that has a timer: `_create_ssl_connection` only if it was given a timeout.
unfoldable pub has_timer : Factory → Option ℕ → Bool
has_timer tcp timeout = is_some timeout
has_timer _ timeout = true

module _ {Obj Raw : Type 0} (env : Env Obj Raw) where
  hand_over_lem :
      (f : Factory) (timeout : Option ℕ) (s : Conn Obj Raw)
      → ((hand_over env f timeout s).1.handshaken ≡ s.handshaken)
        × ((e : Exn) → (hand_over env f timeout s).0 ≢ raised e)
  unfolding hand_over
  hand_over_lem tcp none s = (refl, λ e h. cc)
  hand_over_lem tcp (some t) s = (refl, λ e h. cc)
  hand_over_lem f timeout s = (refl, λ e h. cc)

  give_up_lem :
      (f : Factory) (timeout : Option ℕ) (e : Exn) (s : Conn Obj Raw)
      → ((give_up env f timeout e s).1.raw ≡ env.transport.call RawCall.close s.raw)
        × ((give_up env f timeout e s).0 ≡ raised e)
  unfolding give_up
  give_up_lem tcp none e s = (refl, refl)
  give_up_lem tcp (some t) e s = (refl, refl)
  give_up_lem f timeout e s = (refl, refl)

  awaited_ok :
      (w : Wait Obj Raw) (u : Unit {0}) → awaited env w ≡ some (ok u) → w.conn.waiter ≡ done
  unfolding awaited
  awaited_ok w u h = ground arith

  end_returns :
      (f : Factory) (timeout : Option ℕ) (w : Wait Obj Raw) (o : Option (Result Exn (Unit {0})))
      (v : Handed) (t : Conn Obj Raw)
      → awaited env w ≡ o
      → end_wait env f timeout w.conn o ≡ some (ok v, t)
      → (w.conn.waiter ≡ done) × (t.handshaken ≡ w.conn.handshaken)
  unfolding conclude
  end_returns f timeout w none v t a h = absurd (cc)
  end_returns f timeout w (some (ok u)) v t a h =
      (awaited_ok w u a, ground (arith, hand_over_lem f timeout w.conn))
  end_returns f timeout w (some (raised e)) v t a h =
      absurd (ground (arith, give_up_lem f timeout e w.conn))

  end_raises :
      (f : Factory) (timeout : Option ℕ) (w : Wait Obj Raw) (o : Option (Result Exn (Unit {0})))
      (e : Exn) (t : Conn Obj Raw)
      → end_wait env f timeout w.conn o ≡ some (raised e, t)
      → t.raw ≡ env.transport.call RawCall.close w.conn.raw
  unfolding conclude
  end_raises f timeout w none e t h = absurd (cc)
  end_raises f timeout w (some (ok u)) e t h =
      absurd (ground (arith, (hand_over_lem f timeout w.conn).1 e))
  end_raises f timeout w (some (raised x)) e t h = ground (arith, give_up_lem f timeout x w.conn)

  start_timer-future :
      (f : Factory) (timeout : Option ℕ) (s : Conn Obj Raw)
      → ((start_timer env f timeout s).1.waiter ≡ s.waiter)
        × ((start_timer env f timeout s).1.handshaken ≡ s.handshaken)
  unfolding start_timer
  start_timer-future tcp none s = (refl, refl)
  start_timer-future tcp (some t) s = (refl, refl)
  start_timer-future f none s = (refl, refl)
  start_timer-future f (some zero) s = (refl, refl)
  start_timer-future f (some (suc t)) s = (refl, refl)

  still_waiting :
      (f : Factory) (timeout : Option ℕ) (w : Wait Obj Raw)
      → end_wait env f timeout w.conn (awaited env w) ≡ none
      → w.conn.waiter ≡ waiting
  unfolding awaited
  still_waiting f timeout w h = ground arith

  -- The timer settles the future, if there is one.
  time_settles :
      (f : Factory) (timeout : Option ℕ) (w : Wait Obj Raw)
      → has_timer f timeout ≡ true
      → (wait_step env f timeout w time_is_up).conn.waiter ≢ waiting
  unfolding wait_step on_timeout has_timer
  time_settles tcp none w armed h = cc
  time_settles tcp (some t) w armed h = ground arith
  time_settles _ timeout w armed h = ground arith

  wait-append :
      (f : Factory) (timeout : Option ℕ) (w : Wait Obj Raw) (es later : List LoopEvent)
      → wait_through env f timeout w (es ++ later)
        ≡ wait_through env f timeout (wait_through env f timeout w es) later
  unfolding wait_through
  wait-append f timeout w [] later = refl
  wait-append f timeout w (e ∷ es) later =
      wait-append f timeout (wait_step env f timeout w e) es later

  -- If a factory raises, whatever the reason, a failed handshake, a timeout or the cancellation of
  -- the task, the raw transport is closing.
  pub connect_closes :
      (closes : (r : Raw) → env.transport.is_closing (env.transport.call RawCall.close r) ≡ true)
      (f : Factory) (timeout : Option ℕ) (es : List LoopEvent) (s : Conn Obj Raw) (e : Exn)
      (t : Conn Obj Raw)
      → connect env f timeout es s ≡ some (raised e, t)
      → env.transport.is_closing t.raw ≡ true
  unfolding connect
  connect_closes closes f timeout es s e t h =
      let w = wait_through env f timeout (begin env f timeout s) es in
      rw (end_raises f timeout w (awaited env w) e t h) (closes w.conn.raw)

module _ {Obj Raw : Type 0} (env : Env Obj Raw) (leaves : LeavesFuture env) where
  -- If the application does not touch the future, and the handshake has succeeded if the future is
  -- done: then whatever the loop does while a factory waits, the factory returns a transport only
  -- after a handshake that has succeeded.
  pub connect-IsSecure :
      (f : Factory) (timeout : Option ℕ) (es : List LoopEvent) (s : Conn Obj Raw) (v : Handed)
      (t : Conn Obj Raw)
      → OfFuture MeansHandshaken s
      → connect env f timeout es s ≡ some (ok v, t)
      → t.handshaken ≡ true
  unfolding connect
  connect-IsSecure f timeout es s v t means h =
      let w = wait_through env f timeout (begin env f timeout s) es in
      let (finished, same) = end_returns env f timeout w (awaited env w) v t refl h in
      let (future, flag) = start_timer-future env f timeout s in
      same
      ∙ wait-Keeps env leaves MeansHandshaken MeansHandshaken-Settles f timeout
          (begin env f timeout s) es (λ d. flag ∙ means (sym future ∙ d)) finished

  -- If the application does not touch the future and the factory has a timer: once the time is up
  -- the factory does not wait any more, whatever happened before and happens after.
  pub time_ends :
      (f : Factory) (timeout : Option ℕ) (before after : List LoopEvent) (s : Conn Obj Raw)
      → has_timer f timeout ≡ true
      → connect env f timeout (before ++ time_is_up ∷ after) s ≢ none
  unfolding connect wait_through
  time_ends f timeout before after s armed h =
      let w = wait_through env f timeout (begin env f timeout s) before in
      let w' = wait_step env f timeout w time_is_up in
      wait-Keeps env leaves IsSettled IsSettled-Settles f timeout w' after
        (time_settles env f timeout w armed)
        (still_waiting env f timeout (wait_through env f timeout w' after)
          (rw (wait-append env f timeout (begin env f timeout s) before (time_is_up ∷ after)) at h))
