-- ===== src/Ssl/Lifecycle/Callbacks.antt =====
-- The callbacks of the TLS classes of talyn/loop.py that read, and the order in which they call the
-- application's protocol.
use talyn.Ssl.Stable.Reading.{chunk_step}
use talyn.Ssl.Lifecycle.Handshakes.{Orders}
use talyn.Ssl.Wrapper.{start_shutdown, tell}
use talyn.Base.{
  zero, suc, ℕ, refl, ◌++◌, some, ◌&&◌, inr, inl, if◌then◌else◌, Option-cases, Bool, not, [], ◌≡◌,
  true, false, List,
}
use talyn.Ssl.Protocol.{
  buffer_updated, is_eof, rounds, ReadEnd, read_loop, read_and_deliver, deliver,
}
use talyn.Ssl.Bio.{on_tls, attempt, join, is_empty}
use talyn.Base.Exec.{is_ok, raised, pure, ok, Result, when, ◌>>◌}
use talyn.Ssl.State.{
  ssl_error, want_write, ssl_eof, want_read, Exn, AppCall, Session, Conn, Bytes, Env,
}
use talyn.Ssl.Stable
use talyn.Ssl.Stable.Shutdown
use talyn.Ssl.Stable.Reading
use talyn.Ssl.Stable.{Of}
use talyn.Ssl.Protocol.UnixServer
use talyn.Ssl.Keeping.{if-Keeps, Keeps, bind-Keeps, when-Keeps}
use talyn.Ssl.Lifecycle.{ProtocolClass, connected}
use talyn.Ssl.Lifecycle.Order.{LeavesPhase, At, at-Stable, tell-At, IsOrdered, both}

module _ {Obj Raw : Type 0} (env : Env Obj Raw) (leaves : LeavesPhase env) (k : ProtocolClass) where
  abbrev Live : Conn Obj Raw → Type 0
  Live = Of (At k connected true)

  tell_data-Keeps : (d : Bytes) → Keeps Live (tell env (AppCall.data_received d))
  tell_data-Keeps d = tell-At env leaves k connected connected true (AppCall.data_received d) refl

  deliver-Keeps : (r : List Bytes × ReadEnd) → Keeps Live (deliver env r)
  unfolding deliver
  deliver-Keeps (chunks, end) =
      bind-Keeps Live
        (when (not (is_empty chunks)) (tell env (AppCall.data_received (join chunks))))
        (λ _. when (is_eof end) (Reading.hand_on_eof env))
        (when-Keeps Live (not (is_empty chunks)) (tell env (AppCall.data_received (join chunks)))
          (tell_data-Keeps (join chunks)))
        (λ _. when-Keeps Live (is_eof end) (Reading.hand_on_eof env) (
          Reading.hand_on_eof-Keeps env (At k connected true)
            (at-Stable env leaves k connected true)))

  read_and_deliver-Keeps : Keeps Live (read_and_deliver env)
  unfolding read_and_deliver
  read_and_deliver-Keeps s =
      bind-Keeps Live (read_loop env (λ _. true) (rounds env s) []) (deliver env)
        (Reading.read_loop-Keeps env (At k connected true) (at-Stable env leaves k connected true)
          (λ w b t es a. a) (λ _. true) (rounds env s) [])
        deliver-Keeps s

  chunk_step-Keeps :
      (fuel : ℕ) (r : Result Exn Bytes)
      → Keeps Live (UnixServer.read_chunks env fuel)
      → Keeps Live (chunk_step env fuel r)
  chunk_step-Keeps fuel (ok d) h =
      if-Keeps Live (is_empty d) (pure tt)
        (tell env (AppCall.data_received d) >> UnixServer.read_chunks env fuel) (λ s a. a)
        (bind-Keeps Live (tell env (AppCall.data_received d)) (λ _. UnixServer.read_chunks env fuel)
          (tell_data-Keeps d) (λ _. h))
  chunk_step-Keeps fuel (raised want_read) h = λ s a. a
  chunk_step-Keeps fuel (raised ssl_eof) h = λ s a. a
  chunk_step-Keeps fuel (raised want_write) h = λ s a. a
  chunk_step-Keeps fuel (raised ssl_error) h = λ s a. a
  chunk_step-Keeps fuel (raised e) h = λ s a. a

  pub read_chunks-Keeps : (fuel : ℕ) → Keeps Live (UnixServer.read_chunks env fuel)
  unfolding UnixServer.read_chunks
  read_chunks-Keeps zero s a = a
  read_chunks-Keeps (suc fuel) s a =
      bind-Keeps Live (attempt (on_tls env.engine.read)) (chunk_step env fuel)
        (Stable.on_tls-Keeps env (At k connected true) (at-Stable env leaves k connected true)
          env.engine.read (λ w b t es a. a))
        (λ r. chunk_step-Keeps fuel r (read_chunks-Keeps fuel)) s a

  -- A method of a class that may be called at any time of an orderly life.
  abbrev pub KeepsOrder : {A : Type 0} → Session Obj Raw A → Type 0
  KeepsOrder m =
      (s : Conn Obj Raw)
      → IsOrdered env leaves k s
      → is_ok (m s).0 ≡ true
      → IsOrdered env leaves k (m s).1

  module _ (h : Session Obj Raw (Unit {0})) (orders : Orders env leaves k h) where
    react-IsOrdered :
        (shutting ready : Bool) (s : Conn Obj Raw)
        → IsOrdered env leaves k s
        → s.handshaken ≡ ready
        → let m =
            if shutting then start_shutdown env else if ready then read_and_deliver env else h in
          is_ok (m s).0 ≡ true → IsOrdered env leaves k (m s).1
    react-IsOrdered true ready s o e g =
        both env leaves k (start_shutdown env)
          (λ p b. Shutdown.start_shutdown-Keeps env (At k p b) (at-Stable env leaves k p b)) s o
    react-IsOrdered false true s (inl (a, b, f)) e g = absurd cc
    react-IsOrdered false true s (inr a) e g = inr (read_and_deliver-Keeps s a)
    react-IsOrdered false false s (inl a) e g = orders s a g
    react-IsOrdered false false s (inr (a, b, f)) e g = absurd cc

    pub buffer_updated-KeepsOrder :
        (d : Bytes) → KeepsOrder (buffer_updated env h (read_and_deliver env) d)
    unfolding buffer_updated
    buffer_updated-KeepsOrder d s o g = elim (Option-cases s.tls) [
      | inl gone ↦ rw gone o
      | inr (t, live) ↦ rw live (
          react-IsOrdered (s.wrapped && s.closing) s.handshaken
            (record s { tls = some (record t { incoming = t.incoming ++ d }) }) o refl
            (rw live at g))
    ]
