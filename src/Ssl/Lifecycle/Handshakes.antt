-- ===== src/Ssl/Lifecycle/Handshakes.antt =====
-- The handshakes of the TLS classes of talyn/loop.py, and the order in which they call the
-- application's protocol.
use talyn.Ssl.Wrapper.{raw_call}
use talyn.Base.{arith, refl, ◌≡◌, true, false}
use talyn.Ssl.Protocol.{settled, settle}
use talyn.Ssl.Bio.{emit}
use talyn.Base.Exec.{is_ok, ◌>>◌}
use talyn.Ssl.State.{waiting, Waiter, Exn, done, RawCall, failed, Effect, Session, Conn, Env}
use talyn.Ssl.Stable
use talyn.Ssl.Stable.{Of}
use talyn.Ssl.Protocol.Client
use talyn.Ssl.Protocol.Server
use talyn.Ssl.Protocol.UnixClient
use talyn.Ssl.Protocol.UnixServer
use talyn.Ssl.Keeping.{Keeps}
use talyn.Ssl.Lifecycle.{
  is_waiting, is_done, unix_server, unix_client, server, client, ProtocolClass, unconnected,
}
use talyn.Ssl.Lifecycle.Order.{
  LeavesPhase, At, at-Stable, IsOrdered, flush_connects, handshake-IsOrdered,
}

settled_failed : (e : Exn) (w : Waiter) → is_done w ≡ false → is_done (settled (failed e) w) ≡ false
settled_failed e waiting h = refl
settled_failed e done h = h
settled_failed e (failed x) h = h

settled_done : (w : Waiter) → is_waiting (settled done w) ≡ false
settled_done waiting = refl
settled_done done = refl
settled_done (failed x) = refl

module _ {Obj Raw : Type 0} (env : Env Obj Raw) (leaves : LeavesPhase env) where
  abbrev pub Fresh : ProtocolClass → Conn Obj Raw → Type 0
  Fresh k = Of (At k unconnected false)

  -- A method after which the connection is in order, if it does not raise.
  abbrev pub Orders : ProtocolClass → Session Obj Raw (Unit {0}) → Type 0
  Orders k m =
      (s : Conn Obj Raw) → Fresh k s → is_ok (m s).0 ≡ true → IsOrdered env leaves k (m s).1

  abbrev settle_done : Conn Obj Raw → Conn Obj Raw
  settle_done s = record s { handshaken = true; waiter = settled done s.waiter }

  pub client_h-Orders : Orders client (Client.h env)
  unfolding Client.h
  client_h-Orders =
      handshake-IsOrdered env leaves client (λ e. settle env (failed e)) _
        (λ e s (a, b, f). (a, b, ground (arith, settled_failed e s.waiter)))
        (λ s (a, b, f) h.
          flush_connects env leaves client (settle_done s)
            (a, refl, ground (arith, settled_done s.waiter)) h)

  pub unix_client_h-Orders : Orders unix_client (UnixClient.h env)
  unfolding UnixClient.h
  unix_client_h-Orders =
      handshake-IsOrdered env leaves unix_client (λ e. settle env (failed e)) _
        (λ e s (a, b, f). (a, b, ground (arith, settled_failed e s.waiter)))
        (λ s (a, b, f) h.
          flush_connects env leaves unix_client (settle_done s)
            (a, refl, ground (arith, settled_done s.waiter)) h)

  drop-Keeps :
      (k : ProtocolClass) → Keeps (Fresh k) (do emit Effect.logged; raw_call env RawCall.close)
  drop-Keeps k s a =
      Stable.emit-Keeps env (At k unconnected false) (at-Stable env leaves k unconnected false)
        Effect.logged refl s a

  pub server_h-Orders : Orders server (Server.h env)
  unfolding Server.h
  server_h-Orders =
      handshake-IsOrdered env leaves server
        (λ _. (emit Effect.logged >> raw_call env RawCall.close)) _ (λ e. drop-Keeps server)
        (λ s (a, b, f) h.
          flush_connects env leaves server (record s { handshaken = true }) (a, refl, refl) h)

  pub unix_server_h-Orders : Orders unix_server (UnixServer.h env)
  unfolding UnixServer.h
  unix_server_h-Orders =
      handshake-IsOrdered env leaves unix_server
        (λ _. (emit Effect.logged >> raw_call env RawCall.close)) _ (λ e. drop-Keeps unix_server)
        (λ s (a, b, f) h.
          flush_connects env leaves unix_server (record s { handshaken = true }) (a, refl, refl) h)
