-- ===== src/Ssl/Inbound/History.antt =====
-- The bytes that the application of a TLS connection of talyn/loop.py is given, over a history of calls.
use talyn.Ssl.Lifecycle.Events.{calm_step-Keeps}
use talyn.Ssl.Protocol.{rounds}
use talyn.Ssl.Lifecycle.{
  ends, resumes, pauses, closes, writes, loses, receives, LifeEvent, life_step, life_run,
  unix_server, unix_client, server, client, ProtocolClass, received,
}
use talyn.Ssl.Wrapper.{tell}
use talyn.Ssl.State.{
  ssl_error, want_write, ssl_eof, want_read, AppCall, Session, Tls, Conn, Exn, Bytes, Env,
}
use talyn.Base.Exec.{◌>>◌, is_ok, raised, ok, Result}
use talyn.Ssl.Protocol.Client
use talyn.Ssl.Protocol.Server
use talyn.Ssl.Protocol.UnixClient
use talyn.Ssl.Protocol.UnixServer
use talyn.Ssl.Stable.Reading.{chunk_step}
use talyn.Ssl.Reading.{ReadLaws}
use talyn.Ssl.Inbound.{is_quiet, all_quiet, heard, given_of, OnlyRead, LeavesInput}
use talyn.Ssl.Inbound.Delivery.{input-Stable, Q, extend, data_received-heard}
use talyn.Ssl.Inbound.Classes.{
  R, Hears, client_h-Keeps, server_h-Keeps, unix_client_h-Keeps, unix_server_h-Keeps,
  buffer_updated-Hears,
}
use talyn.Base.{
  List, false, if◌then◌else◌, sym, Bool, ◌∷◌, append-nil, zero, inr, ap, ◌∙◌, arith, true, inl,
  ◌++◌, some, [], Option-cases, ◌≡◌, suc, ℕ, refl,
}

-- The bytes that a read returns.
abbrev returned_bytes : Result Exn Bytes → Bytes
returned_bytes (ok d) = d
returned_bytes (raised e) = []

module _ {Obj Raw : Type 0} (env : Env Obj Raw) (given : Obj → Bytes)
    (laws : ReadLaws env.engine given) (only : OnlyRead env.engine given)
    (leaves : LeavesInput env given) where
  abbrev H : Conn Obj Raw → Type 0
  H = R env given laws only leaves

  read-given_of :
      (t : Tls Obj) (r : Result Exn Bytes)
      → (env.engine.read t).0 ≡ r
      → given (env.engine.read t).1.obj ≡ given t.obj ++ returned_bytes r
  read-given_of t (ok d) e = laws.read_ok t d e
  read-given_of t (raised x) e = laws.read_raised t x e ∙ sym (append-nil (given t.obj))

  read-given :
      (t : Tls Obj)
      → let (r, t') = env.engine.read t in given t'.obj ≡ given t.obj ++ returned_bytes r
  read-given t = read-given_of t (env.engine.read t).0 refl

  bind_result :
      (r : Result Exn (Unit {0}) × Conn Obj Raw) (k : Session Obj Raw (Unit {0})) (s : Conn Obj Raw)
      → H r.1
      → Hears env given laws only leaves k
      → is_ok ((do (λ _. r); k) s).0 ≡ true
      → H ((do (λ _. r); k) s).1
  bind_result (ok _, t) k s p h g = h t p g
  bind_result (raised e, t) k s p h g = p

  chunk_step-heard :
      (fuel : ℕ) (r : Result Exn Bytes) (s : Conn Obj Raw)
      → Hears env given laws only leaves (UnixServer.read_chunks env fuel)
      → given_of given s.tls ≡ some (heard s.trace ++ returned_bytes r)
      → is_ok (chunk_step env fuel r s).0 ≡ true
      → H (chunk_step env fuel r s).1
  chunk_step-heard fuel (ok []) s next h g = h ∙ ap some (append-nil (heard s.trace))
  chunk_step-heard fuel (ok (b ∷ d)) s next h g =
      bind_result (tell env (AppCall.data_received (b ∷ d)) s) (UnixServer.read_chunks env fuel) s
        (data_received-heard env given laws only leaves (b ∷ d) s h) next g
  chunk_step-heard fuel (raised want_read) s next h g = h ∙ ap some (append-nil (heard s.trace))
  chunk_step-heard fuel (raised ssl_eof) s next h g = h ∙ ap some (append-nil (heard s.trace))
  chunk_step-heard fuel (raised want_write) s next h g = h ∙ ap some (append-nil (heard s.trace))
  chunk_step-heard fuel (raised ssl_error) s next h g = h ∙ ap some (append-nil (heard s.trace))
  chunk_step-heard fuel (raised e) s next h g = h ∙ ap some (append-nil (heard s.trace))

  read_chunks-Hears :
      (fuel : ℕ) → Hears env given laws only leaves (UnixServer.read_chunks env fuel)
  unfolding UnixServer.read_chunks
  read_chunks-Hears zero s p g = p
  read_chunks-Hears (suc fuel) s p g = elim (Option-cases s.tls) [
    | inl gone ↦ absurd (ground (arith, rw gone at p))
    | inr (t, live) ↦ rw live (
        chunk_step-heard fuel (env.engine.read t).0 (record s { tls = some (env.engine.read t).1 })
          (read_chunks-Hears fuel)
          (ap some (read-given t)
            ∙ ap (extend env given laws only leaves (returned_bytes (env.engine.read t).0))
                (rw live at p))
          (rw live at g))
  ]

  chunks-heard :
      (ready : Bool) (s : Conn Obj Raw)
      → H s
      → let m = if ready then UnixServer.r env else UnixServer.h env in
        is_ok (m s).0 ≡ true → H (m s).1
  unfolding UnixServer.r
  chunks-heard true s p g = read_chunks-Hears (rounds env s) s p g
  chunks-heard false s p g = unix_server_h-Keeps env given laws only leaves s p

  unix_server-Hears : (d : Bytes) → Hears env given laws only leaves (UnixServer.received env d)
  unfolding UnixServer.received
  unix_server-Hears d s p g = elim (Option-cases s.tls) [
    | inl gone ↦ absurd (ground (arith, rw gone at p))
    | inr (t, live) ↦ rw live (
        chunks-heard s.handshaken
          (record s { tls = some (record t { incoming = t.incoming ++ d }) }) (rw live at p)
          (rw live at g))
  ]

  received-Hears :
      (c : ProtocolClass) (d : Bytes) → Hears env given laws only leaves (received env c d)
  unfolding received Client.received Client.r Server.received Server.r UnixClient.received
      UnixClient.r
  received-Hears client =
      buffer_updated-Hears env given laws only leaves (Client.h env)
        (client_h-Keeps env given laws only leaves)
  received-Hears server =
      buffer_updated-Hears env given laws only leaves (Server.h env)
        (server_h-Keeps env given laws only leaves)
  received-Hears unix_client =
      buffer_updated-Hears env given laws only leaves (UnixClient.h env)
        (unix_client_h-Keeps env given laws only leaves)
  received-Hears unix_server = unix_server-Hears

  step-heard :
      (c : ProtocolClass) (s : Conn Obj Raw) (e : LifeEvent)
      → H s
      → is_quiet env c s e ≡ true
      → H (life_step env c s e)
  unfolding life_step
  step-heard c s (receives d) p g = received-Hears c d s p g
  step-heard c s (loses e) p g = absurd cc
  step-heard c s (writes d) p g =
      calm_step-Keeps env (Q env given laws only leaves) (input-Stable env given laws only leaves) c
        s (writes d) refl p
  step-heard c s closes p g =
      calm_step-Keeps env (Q env given laws only leaves) (input-Stable env given laws only leaves) c
        s closes refl p
  step-heard c s pauses p g =
      calm_step-Keeps env (Q env given laws only leaves) (input-Stable env given laws only leaves) c
        s pauses refl p
  step-heard c s resumes p g =
      calm_step-Keeps env (Q env given laws only leaves) (input-Stable env given laws only leaves) c
        s resumes refl p
  step-heard c s ends p g =
      calm_step-Keeps env (Q env given laws only leaves) (input-Stable env given laws only leaves) c
        s ends refl p

  -- For the protocol classes of connections and servers, over a network or unix sockets. If only
  -- `read` returns plaintext, and the application, when it is called, neither reads from the SSL
  -- object nor calls its own `data_received`: over any history before the connection is lost in
  -- which no `buffer_updated` raises, from a state in which the application was given what the SSL
  -- object had returned, it is so afterwards, byte for byte and in order, whatever is written, and
  -- however often the connection is closed, paused, resumed or ended meanwhile.
  pub life_run-heard :
      (c : ProtocolClass) (s : Conn Obj Raw) (es : List LifeEvent)
      → given_of given s.tls ≡ some (heard s.trace)
      → all_quiet env c s es ≡ true
      → let s' = life_run env c s es in given_of given s'.tls ≡ some (heard s'.trace)
  unfolding life_run all_quiet
  life_run-heard c s [] p h = p
  life_run-heard c s (e ∷ es) p h =
      life_run-heard c (life_step env c s e) es (step-heard c s e p (ground (arith, h)))
        (ground (arith, h))
