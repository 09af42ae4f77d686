-- ===== src/Ssl/Lifecycle.antt =====
-- The life of a TLS connection of talyn/loop.py, for each class that makes one from nothing: what the
-- raw transport and the application call on it, and the calls that the application's protocol gets.
pub mod Order
pub mod Handshakes
pub mod Callbacks
pub mod Events
pub mod Life
use talyn.Base.Exec.{is_ok, pure}
use talyn.Base.{not, if◌then◌else◌, false, ◌&&◌, [], ◌∷◌, true, Option, List, Bool}
use talyn.Ssl.Protocol.Client
use talyn.Ssl.Protocol.Server
use talyn.Ssl.Protocol.UnixClient
use talyn.Ssl.Protocol.UnixServer
use talyn.Ssl.State.{waiting, done, Waiter, Env, Session, Conn, Bytes, Exn, Effect, AppCall}
use talyn.Ssl.Wrapper.{write, close}

abbrev pub is_waiting : Waiter → Bool
is_waiting waiting = true
is_waiting _ = false

abbrev pub is_done : Waiter → Bool
is_done done = true
is_done _ = false

-- The protocol classes: `SP` and `SSP` of the factories for connections and servers, over a network
-- and over unix sockets.
pub data ProtocolClass : Type 0 where
  client server unix_client unix_server : ProtocolClass

-- What is called after `connection_made`: by the raw transport, and by the application on the wrapper.
pub data LifeEvent : Type 0 where
  receives writes : Bytes → LifeEvent
  closes pauses resumes ends : LifeEvent
  loses : Option Exn → LifeEvent

-- The future of a client's factory follows the handshake flag: before the end of the handshake it is
-- not done, and after it, it does not wait. The server classes have no future.
abbrev pub follows : ProtocolClass → Bool → Waiter → Bool
follows client b w = if b then not (is_waiting w) else not (is_done w)
follows unix_client b w = if b then not (is_waiting w) else not (is_done w)
follows server b w = true
follows unix_server b w = true

unfoldable pub initial : {Obj Raw : Type 0} → ProtocolClass → Obj → Raw → Conn Obj Raw
initial client = Client.initial
initial server = Server.initial
initial unix_client = UnixClient.initial
initial unix_server = UnixServer.initial

module _ {Obj Raw : Type 0} (env : Env Obj Raw) where
  unfoldable pub made : ProtocolClass → Session Obj Raw (Unit {0})
  made client = Client.made env
  made server = Server.made env
  made unix_client = UnixClient.made env
  made unix_server = UnixServer.made env

  unfoldable pub received : ProtocolClass → Bytes → Session Obj Raw (Unit {0})
  received client = Client.received env
  received server = Server.received env
  received unix_client = UnixClient.received env
  received unix_server = UnixServer.received env

  unfoldable pub lost : ProtocolClass → Option Exn → Session Obj Raw (Unit {0})
  lost client = Client.lost env
  lost server = Server.lost env
  lost unix_client = UnixClient.lost env
  lost unix_server = UnixServer.lost env

  unfoldable pub eof : ProtocolClass → Session Obj Raw Bool
  eof client = Client.eof env
  eof server = Server.eof env
  eof unix_client = UnixClient.eof env
  eof unix_server = UnixServer.eof env

  -- The last class inherits methods that do nothing.
  unfoldable pub pause : ProtocolClass → Session Obj Raw (Unit {0})
  pause client = Client.pause_writing env
  pause server = Server.pause_writing env
  pause unix_client = UnixClient.pause_writing env
  pause unix_server = pure tt

  unfoldable pub resume : ProtocolClass → Session Obj Raw (Unit {0})
  resume client = Client.resume_writing env
  resume server = Server.resume_writing env
  resume unix_client = UnixClient.resume_writing env
  resume unix_server = pure tt

  unfoldable pub life_step : ProtocolClass → Conn Obj Raw → LifeEvent → Conn Obj Raw
  life_step c s (receives d) = (received c d s).1
  life_step c s (writes d) = (write env d s).1
  life_step c s closes = (close env s).1
  life_step c s pauses = (pause c s).1
  life_step c s resumes = (resume c s).1
  life_step c s ends = (eof c s).1
  life_step c s (loses e) = (lost c e s).1

  unfoldable pub life_run : ProtocolClass → Conn Obj Raw → List LifeEvent → Conn Obj Raw
  life_run c s [] = s
  life_run c s (e ∷ es) = life_run c (life_step c s e) es

  -- No call that may finish the handshake raises.
  abbrev pub goes_on : ProtocolClass → Conn Obj Raw → LifeEvent → Bool
  goes_on c s (receives d) = is_ok (received c d s).0
  goes_on c s _ = true

  unfoldable pub all_go_on : ProtocolClass → Conn Obj Raw → List LifeEvent → Bool
  all_go_on c s [] = true
  all_go_on c s (e ∷ es) = goes_on c s e && all_go_on c (life_step c s e) es

-- How far the application's protocol is: not connected, connected, or called out of order.
pub data Phase : Type 0 where
  unconnected connected out_of_order : Phase

-- `connection_made` comes once, and bytes come only after it.
abbrev pub next : Phase → Effect → Phase
next unconnected (Effect.app_call AppCall.connection_made) = connected
next connected (Effect.app_call AppCall.connection_made) = out_of_order
next unconnected (Effect.app_call (AppCall.data_received _)) = out_of_order
next p _ = p

abbrev pub phase_from : Phase → List Effect → Phase
phase_from p [] = p
phase_from p (e ∷ es) = phase_from (next p e) es

unfoldable pub phase : List Effect → Phase
phase es = phase_from unconnected es
