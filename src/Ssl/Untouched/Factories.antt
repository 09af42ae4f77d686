-- ===== src/Ssl/Untouched/Factories.antt =====
-- The future and the handshake flag while one of the three factories of talyn/loop.py waits.
use talyn.Ssl.Wrapper.{tell, start_shutdown, flush}
use talyn.Base.Exec.{when, catch, raised, ok, modify, ◌>>◌, Result}
use talyn.Base.{
  ◌∷◌, none, arith, ◌++◌, Option, List, not, if◌then◌else◌, ◌&&◌, Bool, true, false, [],
}
use talyn.Ssl.Keeping.{catch-Keeps, Keeps, bind-Keeps, when-Keeps, if-Keeps}
use talyn.Ssl.State.{
  RawCall, Effect, AppCall, Bytes, Session, Exn, Conn, Waiter, Env, done, failed, want_read,
  want_write,
}
use talyn.Ssl.Untouched.{
  deliver-Keeps, read_loop-Keeps, start_shutdown-Keeps, OfFuture, LeavesFuture, Settles,
  flush-Keeps, on_tls-Keeps, tell-Keeps, tell_logged-Keeps,
}
use talyn.Ssl.Connect.{
  upgrade, unix, tcp, Factory, connection_made, received, eof_received, connection_lost,
}
use talyn.Ssl.Protocol.{
  ReadEnd, deliver, rounds, read_loop, settled, read_and_deliver, buffer_updated, after_handshake,
  handshake, settle, feed,
}
use talyn.Ssl.Protocol
use talyn.Ssl.Protocol.Client
use talyn.Ssl.Protocol.UnixClient
use talyn.Ssl.Protocol.StartTls
use talyn.Ssl.Bio.{emit, join, is_empty, attempt, on_tls}

module _ {Obj Raw : Type 0} (env : Env Obj Raw) (leaves : LeavesFuture env)
    (Q : Waiter → Bool → Type 0) (settles : Settles Q) where
  abbrev P : Conn Obj Raw → Type 0
  P = OfFuture Q

  fails-Keeps : (e : Exn) → Keeps P (settle env (failed e))
  fails-Keeps e s p = settles.fails e s.waiter s.handshaken p

  -- The flag is set before the future is.
  abbrev succeed : Session Obj Raw (Unit {0}) → Session Obj Raw (Unit {0})
  succeed k = do modify (λ s. record s { handshaken = true }); settle env done; k

  succeed-Keeps : (k : Session Obj Raw (Unit {0})) → Keeps P k → Keeps P (succeed k)
  succeed-Keeps k h s p =
      h (record s { handshaken = true; waiter = settled done s.waiter })
        (settles.succeeds s.waiter s.handshaken p)

  after_handshake-Keeps :
      (fail : Exn → Session Obj Raw (Unit {0})) (k : Session Obj Raw (Unit {0}))
      (r : Result Exn (Unit {0}))
      → ((e : Exn) → Keeps P (fail e))
      → Keeps P k
      → Keeps P (after_handshake env fail (succeed k) r)
  unfolding after_handshake
  after_handshake-Keeps fail k (ok _) h g = succeed-Keeps k g
  after_handshake-Keeps fail k (raised want_read) h g = flush-Keeps env leaves Q
  after_handshake-Keeps fail k (raised want_write) h g = flush-Keeps env leaves Q
  after_handshake-Keeps fail k (raised e) h g = h e

  handshake-Keeps :
      (fail : Exn → Session Obj Raw (Unit {0})) (k : Session Obj Raw (Unit {0}))
      → ((e : Exn) → Keeps P (fail e))
      → Keeps P k
      → Keeps P (handshake env fail (succeed k))
  unfolding handshake
  handshake-Keeps fail k h g =
      bind-Keeps P (attempt (on_tls env.engine.do_handshake)) (after_handshake env fail (succeed k))
        (on_tls-Keeps env leaves Q env.engine.do_handshake)
        (λ r. after_handshake-Keeps fail k r h g)

  abbrev flush_and_tell : Session Obj Raw (Unit {0})
  flush_and_tell = do flush env; tell env AppCall.connection_made

  flush_and_tell-Keeps : Keeps P flush_and_tell
  flush_and_tell-Keeps =
      bind-Keeps P (flush env) (λ _. tell env AppCall.connection_made) (flush-Keeps env leaves Q)
        (λ _. tell-Keeps env leaves Q AppCall.connection_made)

  -- `_h` of the two client classes, and of the class of `start_tls`
  client_h-Keeps : Keeps P (Client.h env)
  unfolding Client.h
  client_h-Keeps =
      handshake-Keeps (λ e. settle env (failed e)) flush_and_tell fails-Keeps flush_and_tell-Keeps

  unix_h-Keeps : Keeps P (UnixClient.h env)
  unfolding UnixClient.h
  unix_h-Keeps =
      handshake-Keeps (λ e. settle env (failed e)) flush_and_tell fails-Keeps flush_and_tell-Keeps

  upgrade_h-Keeps : Keeps P (StartTls.h env)
  unfolding StartTls.h
  upgrade_h-Keeps =
      handshake-Keeps _ (flush env) (λ e s p. fails-Keeps e (record s { running = false }) p)
        (flush-Keeps env leaves Q)

  read_and_deliver-Keeps : Keeps P (read_and_deliver env)
  unfolding read_and_deliver
  read_and_deliver-Keeps s p =
      bind-Keeps P (read_loop env (λ _. true) (rounds env s) []) (deliver env)
        (read_loop-Keeps env leaves Q (λ _. true) (rounds env s) []) (deliver-Keeps env leaves Q) s
        p

  abbrev hand_data : List Bytes × ReadEnd → Session Obj Raw (Unit {0})
  hand_data (chunks, _) =
      when (not (is_empty chunks))
        (catch (tell env (AppCall.data_received (join chunks))) (λ _. emit Effect.logged))

  hand_data-Keeps : (r : List Bytes × ReadEnd) → Keeps P (hand_data r)
  hand_data-Keeps (chunks, end) =
      when-Keeps P (not (is_empty chunks))
        (catch (tell env (AppCall.data_received (join chunks))) (λ _. emit Effect.logged))
        (tell_logged-Keeps env leaves Q (AppCall.data_received (join chunks)))

  upgrade_r-Keeps : Keeps P (StartTls.r env)
  unfolding StartTls.r
  upgrade_r-Keeps s p =
      bind-Keeps P (read_loop env (λ t. t.running) (rounds env s) []) hand_data
        (read_loop-Keeps env leaves Q (λ t. t.running) (rounds env s) []) hand_data-Keeps s p

  abbrev react :
      Session Obj Raw (Unit {0}) → Session Obj Raw (Unit {0}) → Session Obj Raw (Unit {0})
  react h r s =
      (if s.wrapped && s.closing then start_shutdown env else if s.handshaken then r else h) s

  buffer_updated-Keeps :
      (h r : Session Obj Raw (Unit {0})) (d : Bytes)
      → Keeps P h
      → Keeps P r
      → Keeps P (buffer_updated env h r d)
  unfolding buffer_updated
  buffer_updated-Keeps h r d k g =
      bind-Keeps P (feed env d) (λ _. react h r)
        (on_tls-Keeps env leaves Q (λ t. (ok tt, record t { incoming = t.incoming ++ d })))
        (λ _ s.
          if-Keeps P (s.wrapped && s.closing) (start_shutdown env) (if s.handshaken then r else h)
            (start_shutdown-Keeps env leaves Q) (if-Keeps P s.handshaken r h g k) s)

  pub received-Keeps : (f : Factory) (d : Bytes) → Keeps P (received env f d)
  unfolding received Client.received UnixClient.received StartTls.received Client.r UnixClient.r
  received-Keeps tcp d =
      buffer_updated-Keeps (Client.h env) (Client.r env) d client_h-Keeps read_and_deliver-Keeps
  received-Keeps unix d =
      buffer_updated-Keeps (UnixClient.h env) (UnixClient.r env) d unix_h-Keeps
        read_and_deliver-Keeps
  received-Keeps upgrade d =
      catch-Keeps P (buffer_updated env (StartTls.h env) (StartTls.r env) d)
        (λ _ s. (
          ok tt,
          record s {
            running = false;
            raw = env.transport.call RawCall.close s.raw;
            trace = s.trace ++ Effect.logged ∷ [];
          },
        ))
        (buffer_updated-Keeps (StartTls.h env) (StartTls.r env) d upgrade_h-Keeps upgrade_r-Keeps)
        (λ e s p. p)

  -- The state in which `connection_made` starts the handshake.
  abbrev wrap : Conn Obj Raw → Conn Obj Raw
  wrap s = record s { wrapped = true; closing = false; timer = none; write_buffer = [] }

  pub made-Keeps : (f : Factory) → Keeps P (connection_made env f)
  unfolding connection_made Client.made UnixClient.made StartTls.made Protocol.connection_made
  made-Keeps tcp = λ s p. client_h-Keeps (wrap s) p
  made-Keeps unix = λ s p. unix_h-Keeps (wrap s) p
  made-Keeps upgrade = λ s p. upgrade_h-Keeps (wrap s) p

  told_lost-Keeps :
      (e : Option Exn)
      → Keeps P (catch (tell env (AppCall.connection_lost e)) (λ _. emit Effect.logged))
  told_lost-Keeps e = tell_logged-Keeps env leaves Q (AppCall.connection_lost e)

  drop_tls-Keeps :
      (e : Option Exn)
      → Keeps P (do
        catch (tell env (AppCall.connection_lost e)) (λ _. emit Effect.logged)
        modify (λ s. record s { tls = none }))
  drop_tls-Keeps e =
      bind-Keeps P (catch (tell env (AppCall.connection_lost e)) (λ _. emit Effect.logged))
        (λ _. modify (λ s. record s { tls = none })) (told_lost-Keeps e) (λ _ s p. p)

  pub lost-Keeps : (f : Factory) (e : Option Exn) → Keeps P (connection_lost env f e)
  unfolding connection_lost Client.lost UnixClient.lost StartTls.lost
  lost-Keeps tcp e = drop_tls-Keeps e
  lost-Keeps unix e = drop_tls-Keeps e
  lost-Keeps upgrade e = λ s p.
      bind-Keeps P (catch (tell env (AppCall.connection_lost e)) (λ _. emit Effect.logged))
        (λ _. settle env (failed (StartTls.reason env e))) (told_lost-Keeps e)
        (λ _. fails-Keeps (StartTls.reason env e)) (record s { running = false }) p

  pub eof-Keeps : (f : Factory) → Keeps P (eof_received env f)
  unfolding eof_received Client.eof UnixClient.eof StartTls.eof
  eof-Keeps tcp = λ s p. ground (arith, tell-Keeps env leaves Q AppCall.eof_received s p)
  eof-Keeps unix = λ s p. ground (arith, tell-Keeps env leaves Q AppCall.eof_received s p)
  eof-Keeps upgrade = λ s p. ground (arith, tell-Keeps env leaves Q AppCall.eof_received s p)
