-- ===== src/Ssl/Connect.antt =====
-- The ends of `_create_ssl_connection`, `_create_ssl_unix_connection` and `start_tls` of
-- talyn/loop.py: how each waits for the TLS handshake of its protocol object.
use talyn.Ssl.Wrapper.{raw_call}
use talyn.Ssl.Bio.{emit}
use talyn.Base.Exec.{gets, ◌>>=◌, raise, raised, when, ok, ◌>>◌, pure, Result}
use talyn.Ssl.Protocol.{settle, resume_writing, settled}
use talyn.Ssl.State.{waiting, done, failed, Effect, RawCall, failed, Exn, Session, Env, Conn, Bytes}
use talyn.Base.{
  is_some, ◌&&◌, if◌then◌else◌, List, Option, Bool, none, some, true, false, [], ◌∷◌, ℕ, suc, zero,
}
use talyn.Ssl.Protocol.Client
use talyn.Ssl.Protocol.UnixClient
use talyn.Ssl.Protocol.StartTls

pub data Factory : Type 0 where
  tcp unix upgrade : Factory

-- What the loop does while a factory waits: the calls of the raw transport on the protocol object,
-- the call of `resume_reading` that `start_tls` asks for, the timer, and the cancellation of the
-- task that waits.
pub data LoopEvent : Type 0 where
  made ends resumes reading_resumes time_is_up cancels : LoopEvent
  receives : Bytes → LoopEvent
  loses : Option Exn → LoopEvent

-- The connection, and whether the task was cancelled or `wait_for` has seen its timeout.
pub record Wait (Obj Raw : Type 0) : Type 0 where
  pub conn : Conn Obj Raw
  pub cancelled : Bool
  pub expired : Bool

-- `wrapper_holder[0] or transport`
pub data Handed : Type 0 where
  wrapper raw_transport : Handed

abbrev is_tcp : Factory → Bool
is_tcp tcp = true
is_tcp _ = false

module _ {Obj Raw : Type 0} (env : Env Obj Raw) where
  unfoldable pub received : Factory → Bytes → Session Obj Raw (Unit {0})
  received tcp = Client.received env
  received unix = UnixClient.received env
  received upgrade = StartTls.received env

  unfoldable pub connection_made : Factory → Session Obj Raw (Unit {0})
  connection_made tcp = Client.made env
  connection_made unix = UnixClient.made env
  connection_made upgrade = StartTls.made env

  unfoldable pub connection_lost : Factory → Option Exn → Session Obj Raw (Unit {0})
  connection_lost tcp = Client.lost env
  connection_lost unix = UnixClient.lost env
  connection_lost upgrade = StartTls.lost env

  unfoldable pub eof_received : Factory → Session Obj Raw Bool
  eof_received tcp = Client.eof env
  eof_received unix = UnixClient.eof env
  eof_received upgrade = StartTls.eof env

  -- `on_timeout` of `_create_ssl_connection`, for a future that is or is not done
  unfoldable pub on_timeout : Session Obj Raw (Unit {0})
  on_timeout s = elim s.waiter [
    | waiting ↦ (do settle env (failed Exn.connection_aborted); raw_call env RawCall.close) s
    | done ↦ pure tt s
    | failed _ ↦ pure tt s
  ]

  abbrev on_conn : {A : Type 0} → Session Obj Raw A → Wait Obj Raw → Wait Obj Raw
  on_conn m w = record w { conn = (m w.conn).1 }

  -- The cancellation of a task cancels the future that it waits for.
  abbrev cancel_future : Conn Obj Raw → Conn Obj Raw
  cancel_future s = record s { waiter = settled (failed Exn.cancelled) s.waiter }

  -- The timer: `_create_ssl_connection` has one of its own if it was given a timeout; `wait_for`
  -- cancels the task that it is called in.
  abbrev expire : Factory → Option ℕ → Wait Obj Raw → Wait Obj Raw
  expire tcp none w = w
  expire tcp (some _) w = on_conn on_timeout w
  expire _ _ w = record w { conn = cancel_future w.conn; expired = true }

  unfoldable pub wait_step : Factory → Option ℕ → Wait Obj Raw → LoopEvent → Wait Obj Raw
  wait_step f timeout w made = on_conn (connection_made f) w
  wait_step f timeout w ends = on_conn (eof_received f) w
  wait_step f timeout w resumes = on_conn (resume_writing env) w
  wait_step f timeout w reading_resumes = on_conn (raw_call env RawCall.resume_reading) w
  wait_step f timeout w time_is_up = expire f timeout w
  wait_step f timeout w cancels = record w { conn = cancel_future w.conn; cancelled = true }
  wait_step f timeout w (receives d) = on_conn (received f d) w
  wait_step f timeout w (loses e) = on_conn (connection_lost f e) w

  unfoldable pub wait_through : Factory → Option ℕ → Wait Obj Raw → List LoopEvent → Wait Obj Raw
  wait_through f timeout w [] = w
  wait_through f timeout w (e ∷ es) = wait_through f timeout (wait_step f timeout w e) es

  -- What `await waiter`, or `await wait_for(waiter, …)`, comes to; none while the task waits.
  unfoldable pub awaited : Wait Obj Raw → Option (Result Exn (Unit {0}))
  awaited w =
      if w.cancelled
      then some (raised Exn.cancelled)
      else if w.expired
      then some (raised Exn.timed_out)
      else elim w.conn.waiter [ waiting ↦ none | done ↦ some (ok tt) | failed e ↦ some (raised e) ]

  -- `self.call_later(ssl_handshake_timeout, on_timeout)`, and `wait_for` with `timeout or 60`
  unfoldable pub start_timer : Factory → Option ℕ → Session Obj Raw (Unit {0})
  start_timer tcp none = pure tt
  start_timer tcp (some t) = emit (Effect.call_later t)
  start_timer _ none = emit (Effect.call_later 60)
  start_timer _ (some zero) = emit (Effect.call_later 60)
  start_timer _ (some (suc t)) = emit (Effect.call_later (suc t))

  -- The `except BaseException` and `finally` branches around the `await`.
  unfoldable pub give_up : Factory → Option ℕ → Exn → Session Obj Raw Handed
  give_up tcp (some _) e = do
    emit Effect.cancel_timer
    raw_call env RawCall.close
    emit Effect.cancel_timer
    raise e
  give_up _ _ e = do raw_call env RawCall.close; raise e

  unfoldable pub hand_over : Factory → Option ℕ → Session Obj Raw Handed
  hand_over f timeout = do
    when (is_tcp f && is_some timeout) (emit Effect.cancel_timer)
    wrapped ← gets (λ s. s.wrapped)
    pure (if wrapped then Handed.wrapper else Handed.raw_transport)

  unfoldable pub conclude : Factory → Option ℕ → Result Exn (Unit {0}) → Session Obj Raw Handed
  conclude f timeout (ok _) = hand_over f timeout
  conclude f timeout (raised e) = give_up f timeout e

  abbrev pub end_wait :
      Factory
      → Option ℕ
      → Conn Obj Raw
      → Option (Result Exn (Unit {0}))
      → Option (Result Exn Handed × Conn Obj Raw)
  end_wait f timeout s none = none
  end_wait f timeout s (some r) = some (conclude f timeout r s)

  -- The wait, from the time that the factory has the raw transport on.
  abbrev pub begin : Factory → Option ℕ → Conn Obj Raw → Wait Obj Raw
  begin f timeout s = record {
    conn = (start_timer f timeout s).1;
    cancelled = false;
    expired = false;
  }

  -- How a factory ends if the loop does `events` meanwhile; none if it still waits after that.
  unfoldable pub connect :
      Factory → Option ℕ → List LoopEvent → Conn Obj Raw → Option (Result Exn Handed × Conn Obj Raw)
  connect f timeout events s =
      let w = wait_through f timeout (begin f timeout s) events in
      end_wait f timeout w.conn (awaited w)
