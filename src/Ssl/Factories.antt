-- ===== src/Ssl/Factories.antt =====
-- `_create_ssl_connection`, `_create_ssl_unix_connection` and `start_tls` of talyn/loop.py as a whole,
-- from the making of the protocol object to their end.
use talyn.Ssl.Protocol.{new_conn}
use talyn.Base.Exec.{raised, ok, Result}
use talyn.Ssl.Protocol.Client
use talyn.Ssl.Protocol.UnixClient
use talyn.Ssl.Protocol.StartTls
use talyn.Ssl.State.{Env, Conn, Exn, RawCall, Bytes}
use talyn.Ssl.Connect.{Factory, tcp, unix, upgrade, LoopEvent, Handed, wait_through, connect}
use talyn.Ssl.Upgrade.{held, bytes_of, switch_live, Upgrade, take_over}
use talyn.Ssl.Secure.{
  connect-IsSecure, connect_closes, MeansHandshaken, MeansHandshaken-Settles, wait-Keeps,
}
use talyn.Ssl.Untouched.{LeavesFuture, OfFuture}
use talyn.Base.{ap, [], true, ◌≡◌, ℕ, some, false, none, Option, List, refl}

-- What comes before the wait: for the first two, what the raw transport calls on the protocol object
-- until the native `create_connection` or `create_unix_connection` returns; for `start_tls`, the
-- number of the protocol object and the buffers that it takes over.
pub record Before : Type 0 where
  pub calls : List LoopEvent
  pub protocol : ℕ
  pub reader : Option Bytes
  pub private_buffer : Option Bytes
  pub public_buffer : Option Bytes

-- A method that has no connection yet, or that still waits, or that has ended.
pub data Outcome (Obj Raw : Type 0) : Type 0 where
  no_connection : Exn → Outcome Obj Raw
  waits : Outcome Obj Raw
  ended : Result Exn Handed → Conn Obj Raw → Outcome Obj Raw

abbrev outcome_of : {Obj Raw : Type 0} → Option (Result Exn Handed × Conn Obj Raw) → Outcome Obj Raw
outcome_of none = waits
outcome_of (some (r, s)) = ended r s

module _ {Obj Raw : Type 0} (env : Env Obj Raw) where
  -- The protocol object after the calls of the raw transport.
  abbrev called : Factory → List LoopEvent → Conn Obj Raw → Conn Obj Raw
  called f es s =
      (wait_through env f none (record { conn = s; cancelled = false; expired = false }) es).conn

  abbrev found : Before → Obj → Raw → Upgrade Obj Raw
  found b obj raw = record {
    conn = StartTls.initial obj raw;
    reader = b.reader;
    private_buffer = b.private_buffer;
    public_buffer = b.public_buffer;
  }

  unfoldable pub prepare : Factory → Before → Obj → Raw → Conn Obj Raw
  prepare tcp b obj raw = called tcp b.calls (Client.initial obj raw)
  prepare unix b obj raw = called unix b.calls (UnixClient.initial obj raw)
  prepare upgrade b obj raw = (take_over env b.protocol (found b obj raw)).conn

  -- `opened` is the raw transport that the native method returns, or what it raises; `start_tls` is
  -- given a transport.
  unfoldable pub ssl_factory :
      Factory → Option ℕ → Obj → Result Exn Raw → Before → List LoopEvent → Outcome Obj Raw
  unfolding prepare
  ssl_factory f timeout obj (raised e) b es = no_connection e
  ssl_factory f timeout obj (ok raw) b es =
      outcome_of (connect env f timeout es (prepare f b obj raw))

  -- A transport is returned only after a handshake, and after an exception the raw transport, if
  -- there is one, is closing.
  abbrev pub IsSafe : Outcome Obj Raw → Type 0
  IsSafe (no_connection e) = Unit {0}
  IsSafe waits = Unit {0}
  IsSafe (ended (ok v) t) = t.handshaken ≡ true
  IsSafe (ended (raised e) t) = env.transport.is_closing t.raw ≡ true

module _ {Obj Raw : Type 0} (env : Env Obj Raw) (leaves : LeavesFuture env) where
  prepare-means :
      (f : Factory) (b : Before) (obj : Obj) (raw : Raw)
      → OfFuture MeansHandshaken (prepare env f b obj raw)
  unfolding prepare take_over new_conn Client.initial UnixClient.initial StartTls.initial
  prepare-means tcp b obj raw =
      wait-Keeps env leaves MeansHandshaken MeansHandshaken-Settles tcp none
        (record { conn = Client.initial obj raw; cancelled = false; expired = false }) b.calls
        (λ d. absurd cc)
  prepare-means unix b obj raw =
      wait-Keeps env leaves MeansHandshaken MeansHandshaken-Settles unix none
        (record { conn = UnixClient.initial obj raw; cancelled = false; expired = false }) b.calls
        (λ d. absurd cc)
  prepare-means upgrade b obj raw = λ d.
      let u = found env b obj raw in
      let moved =
        switch_live env b.protocol (bytes_of u.reader) (held env u) u.conn
          (record { obj = obj; incoming = []; outgoing = [] }) refl in
      absurd (cc (ap (λ s. s.waiter) moved))

  outcome-IsSafe :
      (closes : (r : Raw) → env.transport.is_closing (env.transport.call RawCall.close r) ≡ true)
      (f : Factory) (timeout : Option ℕ) (es : List LoopEvent) (s : Conn Obj Raw)
      (o : Option (Result Exn Handed × Conn Obj Raw))
      → OfFuture MeansHandshaken s
      → connect env f timeout es s ≡ o
      → IsSafe env (outcome_of o)
  outcome-IsSafe closes f timeout es s none means h = tt
  outcome-IsSafe closes f timeout es s (some (ok v, t)) means h =
      connect-IsSecure env leaves f timeout es s v t means h
  outcome-IsSafe closes f timeout es s (some (raised e, t)) means h =
      connect_closes env closes f timeout es s e t h

  -- If the application does not touch the future, and a raw transport that is closed says so: a
  -- factory that ends has either returned a transport after a handshake that has succeeded, or raised
  -- with the raw transport closing, if it had one; whatever the raw transport calls on the protocol
  -- object before the factory waits, whatever bytes `start_tls` takes over, and whatever the loop does
  -- while the factory waits, timeouts and cancellations included.
  pub ssl_factory-IsSafe :
      (closes : (r : Raw) → env.transport.is_closing (env.transport.call RawCall.close r) ≡ true)
      (f : Factory) (timeout : Option ℕ) (obj : Obj) (opened : Result Exn Raw) (b : Before)
      (es : List LoopEvent)
      → IsSafe env (ssl_factory env f timeout obj opened b es)
  unfolding ssl_factory
  ssl_factory-IsSafe closes f timeout obj (raised e) b es = tt
  ssl_factory-IsSafe closes f timeout obj (ok raw) b es =
      outcome-IsSafe closes f timeout es (prepare env f b obj raw) _ (prepare-means f b obj raw)
        refl
