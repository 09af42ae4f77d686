-- ===== src/Ssl/Inbound/Classes.antt =====
-- The handshakes and `buffer_updated` of the TLS classes of talyn/loop.py, and the bytes that the
-- application is given.
use talyn.Ssl.Wrapper.{start_shutdown, tell, raw_call, flush}
use talyn.Ssl.Protocol.{
  settled, read_and_deliver, handshake, buffer_updated, after_handshake, settle,
}
use talyn.Ssl.Bio.{on_tls, attempt, emit}
use talyn.Ssl.State.{
  done, want_write, RawCall, AppCall, want_read, failed, Effect, Session, Conn, Exn, Bytes, Env,
}
use talyn.Base.Exec.{raised, is_ok, ◌>>◌, ok, Result}
use talyn.Ssl.Protocol.Client
use talyn.Ssl.Protocol.Server
use talyn.Ssl.Protocol.UnixClient
use talyn.Ssl.Protocol.UnixServer
use talyn.Ssl.Stable
use talyn.Ssl.Stable.Shutdown
use talyn.Ssl.Stable
use talyn.Ssl.Reading.{ReadLaws}
use talyn.Ssl.Keeping.{Keeps, bind-Keeps}
use talyn.Ssl.Inbound.{heard, OnlyRead, LeavesInput}
use talyn.Ssl.Inbound.Delivery.{Q, P, input-Stable, read-heard, heard-snoc}
use talyn.Base.{
  true, false, append-nil, ◌&&◌, sym, ◌∙◌, inr, ◌∷◌, some, arith, ◌++◌, inl, ap, Option-cases, ◌≡◌,
  true, if◌then◌else◌, [], Bool, refl,
}

module _ {Obj Raw : Type 0} (env : Env Obj Raw) (given : Obj → Bytes)
    (laws : ReadLaws env.engine given) (only : OnlyRead env.engine given)
    (leaves : LeavesInput env given) where
  abbrev pub R : Conn Obj Raw → Type 0
  R = P env given laws only leaves

  abbrev stable : Stable.Stable env (Q env given laws only leaves)
  stable = input-Stable env given laws only leaves

  -- A method after which the application was given what the SSL object has returned, if it does not
  -- raise.
  abbrev pub Hears : {A : Type 0} → Session Obj Raw A → Type 0
  Hears m = (s : Conn Obj Raw) → R s → is_ok (m s).0 ≡ true → R (m s).1

  -- `flush`, and then `connection_made` of the application
  connects-Keeps : Keeps R (do flush env; tell env AppCall.connection_made)
  connects-Keeps =
      bind-Keeps R (flush env) (λ _. tell env AppCall.connection_made)
        (Stable.flush-Keeps env (Q env given laws only leaves) stable)
        (λ _ s p.
          stable.told AppCall.connection_made
            (record s { trace = s.trace ++ Effect.app_call AppCall.connection_made ∷ [] })
            (p
              ∙ ap some (
                  sym (
                    heard-snoc s.trace (Effect.app_call AppCall.connection_made)
                    ∙ append-nil (heard s.trace)))))

  module _ (fail : Exn → Session Obj Raw (Unit {0})) (succeed : Session Obj Raw (Unit {0}))
      (fails : (e : Exn) → Keeps R (fail e)) (succeeds : Keeps R succeed) where
    after_handshake-Keeps :
        (r : Result Exn (Unit {0})) → Keeps R (after_handshake env fail succeed r)
    unfolding after_handshake
    after_handshake-Keeps (ok _) = succeeds
    after_handshake-Keeps (raised want_read) =
        Stable.flush-Keeps env (Q env given laws only leaves) stable
    after_handshake-Keeps (raised want_write) =
        Stable.flush-Keeps env (Q env given laws only leaves) stable
    after_handshake-Keeps (raised e) = fails e

    handshake-Keeps : Keeps R (handshake env fail succeed)
    unfolding handshake
    handshake-Keeps =
        bind-Keeps R (attempt (on_tls env.engine.do_handshake)) (after_handshake env fail succeed)
          (Stable.on_tls-Keeps env (Q env given laws only leaves) stable env.engine.do_handshake
            (λ w b t es p. ap some (only.handshake_given t) ∙ p))
          after_handshake-Keeps

  drop-Keeps : Keeps R (do emit Effect.logged; raw_call env RawCall.close)
  drop-Keeps s p =
      Stable.emit-Keeps env (Q env given laws only leaves) stable Effect.logged refl s p

  pub client_h-Keeps : Keeps R (Client.h env)
  unfolding Client.h
  client_h-Keeps =
      handshake-Keeps (λ e. settle env (failed e)) _ (λ e s p. p)
        (λ s. connects-Keeps (record s { handshaken = true; waiter = settled done s.waiter }))

  pub unix_client_h-Keeps : Keeps R (UnixClient.h env)
  unfolding UnixClient.h
  unix_client_h-Keeps =
      handshake-Keeps (λ e. settle env (failed e)) _ (λ e s p. p)
        (λ s. connects-Keeps (record s { handshaken = true; waiter = settled done s.waiter }))

  pub server_h-Keeps : Keeps R (Server.h env)
  unfolding Server.h
  server_h-Keeps =
      handshake-Keeps (λ _. (emit Effect.logged >> raw_call env RawCall.close)) _ (λ e. drop-Keeps)
        (λ s. connects-Keeps (record s { handshaken = true }))

  pub unix_server_h-Keeps : Keeps R (UnixServer.h env)
  unfolding UnixServer.h
  unix_server_h-Keeps =
      handshake-Keeps (λ _. (emit Effect.logged >> raw_call env RawCall.close)) _ (λ e. drop-Keeps)
        (λ s. connects-Keeps (record s { handshaken = true }))

  module _ (h : Session Obj Raw (Unit {0})) (keeps : Keeps R h) where
    react-heard :
        (shutting ready : Bool) (s : Conn Obj Raw)
        → R s
        → let m =
            if shutting then start_shutdown env else if ready then read_and_deliver env else h in
          is_ok (m s).0 ≡ true → R (m s).1
    react-heard true ready s p g =
        Shutdown.start_shutdown-Keeps env (Q env given laws only leaves) stable s p
    react-heard false true s p g = read-heard env given laws only leaves s p g
    react-heard false false s p g = keeps s p

    pub buffer_updated-Hears : (d : Bytes) → Hears (buffer_updated env h (read_and_deliver env) d)
    unfolding buffer_updated
    buffer_updated-Hears d s p g = elim (Option-cases s.tls) [
      | inl gone ↦ absurd (ground (arith, rw gone at p))
      | inr (t, live) ↦ rw live (
          react-heard (s.wrapped && s.closing) s.handshaken
            (record s { tls = some (record t { incoming = t.incoming ++ d }) }) (rw live at p)
            (rw live at g))
    ]
