-- ===== src/Ssl/Lifecycle/Life.antt =====
-- The whole life of a TLS connection of talyn/loop.py, whatever the raw transport and the application
-- call on it.
use talyn.Ssl.Lifecycle.Events.{calm_step-Keeps, is_calm, lost-Keeps}
use talyn.Ssl.Protocol.{rounds, new_conn, connection_made}
use talyn.Base.Exec.{is_ok, ok}
use talyn.Ssl.Lifecycle.{
  follows, ends, resumes, pauses, closes, loses, unconnected, writes, phase, receives, unix_server,
  goes_on, connected, unix_client, LifeEvent, server, initial, all_go_on, client, received, made,
  lost, life_step, life_run, ProtocolClass,
}
use talyn.Ssl.State.{Conn, Bytes, Env}
use talyn.Ssl.Protocol.Client
use talyn.Ssl.Protocol.Server
use talyn.Ssl.Protocol.UnixClient
use talyn.Ssl.Protocol.UnixServer
use talyn.Ssl.Lifecycle.Order.{LeavesPhase, At, at-Stable, IsOrdered, both}
use talyn.Ssl.Lifecycle.Handshakes.{
  client_h-Orders, server_h-Orders, unix_client_h-Orders, unix_server_h-Orders,
}
use talyn.Ssl.Lifecycle.Callbacks.{KeepsOrder, buffer_updated-KeepsOrder, read_chunks-Keeps}
use talyn.Base.{
  ◌⊎◌, [], ◌++◌, arith, ◌∷◌, some, true, inr, if◌then◌else◌, ◌≡◌, inl, false, Option-cases, List,
  Bool, refl,
}

module _ {Obj Raw : Type 0} (env : Env Obj Raw) (leaves : LeavesPhase env) where
  chunks-IsOrdered :
      (ready : Bool) (s : Conn Obj Raw)
      → IsOrdered env leaves unix_server s
      → s.handshaken ≡ ready
      → let m = if ready then UnixServer.r env else UnixServer.h env in
        is_ok (m s).0 ≡ true → IsOrdered env leaves unix_server (m s).1
  unfolding UnixServer.r
  chunks-IsOrdered true s (inl (a, b, f)) e g = absurd cc
  chunks-IsOrdered true s (inr a) e g =
      inr (read_chunks-Keeps env leaves unix_server (rounds env s) s a)
  chunks-IsOrdered false s (inl a) e g = unix_server_h-Orders env leaves s a g
  chunks-IsOrdered false s (inr (a, b, f)) e g = absurd cc

  unix_server-KeepsOrder :
      (d : Bytes) → KeepsOrder env leaves unix_server (UnixServer.received env d)
  unfolding UnixServer.received
  unix_server-KeepsOrder d s o g = elim (Option-cases s.tls) [
    | inl gone ↦ rw gone o
    | inr (t, live) ↦ rw live (
        chunks-IsOrdered s.handshaken
          (record s { tls = some (record t { incoming = t.incoming ++ d }) }) o refl (rw live at g))
  ]

  received-KeepsOrder : (c : ProtocolClass) (d : Bytes) → KeepsOrder env leaves c (received env c d)
  unfolding received Client.received Client.r Server.received Server.r UnixClient.received
      UnixClient.r
  received-KeepsOrder client =
      buffer_updated-KeepsOrder env leaves client (Client.h env) (client_h-Orders env leaves)
  received-KeepsOrder server =
      buffer_updated-KeepsOrder env leaves server (Server.h env) (server_h-Orders env leaves)
  received-KeepsOrder unix_client =
      buffer_updated-KeepsOrder env leaves unix_client (UnixClient.h env)
        (unix_client_h-Orders env leaves)
  received-KeepsOrder unix_server = unix_server-KeepsOrder

  calm_step-IsOrdered :
      (c : ProtocolClass) (s : Conn Obj Raw) (e : LifeEvent)
      → is_calm e ≡ true
      → IsOrdered env leaves c s
      → IsOrdered env leaves c (life_step env c s e)
  calm_step-IsOrdered c s e h o =
      both env leaves c (λ t. (ok tt, life_step env c t e))
        (λ p b t. calm_step-Keeps env (At c p b) (at-Stable env leaves c p b) c t e h) s o

  step-IsOrdered :
      (c : ProtocolClass) (s : Conn Obj Raw) (e : LifeEvent)
      → IsOrdered env leaves c s
      → goes_on env c s e ≡ true
      → IsOrdered env leaves c (life_step env c s e)
  unfolding life_step
  step-IsOrdered c s (receives d) o g = received-KeepsOrder c d s o g
  step-IsOrdered c s (loses e) o g =
      both env leaves c (lost env c e)
        (λ p b. lost-Keeps env (At c p b) (at-Stable env leaves c p b) (λ w b' t es a. a) c e) s o
  step-IsOrdered c s (writes d) o g = calm_step-IsOrdered c s (writes d) refl o
  step-IsOrdered c s closes o g = calm_step-IsOrdered c s closes refl o
  step-IsOrdered c s pauses o g = calm_step-IsOrdered c s pauses refl o
  step-IsOrdered c s resumes o g = calm_step-IsOrdered c s resumes refl o
  step-IsOrdered c s ends o g = calm_step-IsOrdered c s ends refl o

  run-IsOrdered :
      (c : ProtocolClass) (s : Conn Obj Raw) (es : List LifeEvent)
      → IsOrdered env leaves c s
      → all_go_on env c s es ≡ true
      → IsOrdered env leaves c (life_run env c s es)
  unfolding life_run all_go_on
  run-IsOrdered c s [] o g = o
  run-IsOrdered c s (e ∷ es) o g =
      run-IsOrdered c (life_step env c s e) es (step-IsOrdered c s e o (ground (arith, g)))
        (ground (arith, g))

  made-IsOrdered :
      (c : ProtocolClass) (obj : Obj) (raw : Raw)
      → is_ok (made env c (initial c obj raw)).0 ≡ true
      → IsOrdered env leaves c (made env c (initial c obj raw)).1
  unfolding made initial Client.made Server.made UnixClient.made UnixServer.made connection_made
      Client.initial Server.initial UnixClient.initial UnixServer.initial new_conn phase
  made-IsOrdered client obj raw =
      client_h-Orders env leaves (record (Client.initial obj raw) { wrapped = true })
        (refl, refl, refl)
  made-IsOrdered server obj raw =
      server_h-Orders env leaves (record (Server.initial obj raw) { wrapped = true })
        (refl, refl, refl)
  made-IsOrdered unix_client obj raw =
      unix_client_h-Orders env leaves (record (UnixClient.initial obj raw) { wrapped = true })
        (refl, refl, refl)
  made-IsOrdered unix_server obj raw =
      unix_server_h-Orders env leaves (record (UnixServer.initial obj raw) { wrapped = true })
        (refl, refl, refl)

  -- For the protocol classes of connections and servers, over a network or unix sockets: from a new
  -- protocol object whose `connection_made` does not raise, and over any history in which no
  -- `buffer_updated` raises, if the application, when it is called, neither finishes a handshake nor
  -- calls its own `connection_made` and `data_received` nor touches the future of the factory: the
  -- application is connected exactly when the handshake has finished, `connection_made` is called at
  -- most once, and no bytes are handed over before it, whatever is written, paused, resumed, closed,
  -- ended or lost meanwhile; and of a client, the future that the factory awaits is not done before,
  -- and waits no more afterwards.
  pub life_run-ordered :
      (c : ProtocolClass) (obj : Obj) (raw : Raw) (es : List LifeEvent)
      → is_ok (made env c (initial c obj raw)).0 ≡ true
      → all_go_on env c (made env c (initial c obj raw)).1 es ≡ true
      → let s = life_run env c (made env c (initial c obj raw)).1 es in
        ((phase s.trace ≡ unconnected) × (s.handshaken ≡ false) × (follows c false s.waiter ≡ true))
        ⊎ ((phase s.trace ≡ connected) × (s.handshaken ≡ true) × (follows c true s.waiter ≡ true))
  life_run-ordered c obj raw es m g =
      run-IsOrdered c (made env c (initial c obj raw)).1 es (made-IsOrdered c obj raw m) g
