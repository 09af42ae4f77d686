-- ===== src/Ssl/Tests/Connect.antt =====
-- Runs of the factories of TLS connections, and the theorems about them at concrete inputs.
use talyn.Base.Exec.{raised, ok}
use talyn.Base.{Bool, refl, none, some, true, false, [], ◌∷◌, ◌≡◌, ◌≢◌, ◌++◌}
use talyn.Ssl.State.{Kind, Conn, Bytes}
use talyn.Ssl.Tests.{env_of, fresh, Wire}
use talyn.Ssl.Untouched.{LeavesFuture}
use talyn.Ssl.Protocol.StartTls
use talyn.Ssl.Factories.{ssl_factory-IsSafe, ssl_factory, IsSafe, Before, Outcome, ended, prepare}
use talyn.Ssl.Protocol.{new_conn}
use talyn.Ssl.Connect.{
  upgrade, awaited, wait_through, wait_step, start_timer, conclude, give_up, tcp, unix, made,
  receives, time_is_up, connect,
}
use talyn.Ssl.Secure.{has_timer, time_ends}
use talyn.Ssl.Upgrade.{switch, take_over, Upgrade}

-- Before the raw transport calls `connection_made`.
abbrev raw_only : Conn Bytes Wire
raw_only = record fresh { handshaken = false; wrapped = false }

leaves : LeavesFuture (env_of Kind.client)
leaves c s = (refl, refl)

connected : Conn Bytes Wire
connected = elim (connect (env_of Kind.client) tcp (some 5) (made ∷ []) raw_only) [
  | none ↦ raw_only
  | some (r, t) ↦ t
]

abbrev late : Conn Bytes Wire
late = elim (connect (env_of Kind.client) tcp (some 5) (time_is_up ∷ []) raw_only) [
  | none ↦ raw_only
  | some (r, t) ↦ t
]

time_ends_example :
    connect
      (env_of Kind.unix_client)
      unix
      none
      (receives [] ∷ [] ++ time_is_up ∷ made ∷ [])
      raw_only
    ≢ none
unfolding has_timer
time_ends_example =
    time_ends (env_of Kind.unix_client) (λ c s. (refl, refl)) unix none (receives [] ∷ [])
      (made ∷ []) raw_only refl

-- A stream reader that holds two bytes, and a transport that holds a third.
abbrev plain : Upgrade Bytes Wire
plain = record {
  conn = raw_only;
  reader = some (1 ∷ 2 ∷ []);
  private_buffer = none;
  public_buffer = some (3 ∷ []);
}

abbrev before : Before
before = record {
  calls = [];
  protocol = 4;
  reader = some (1 ∷ 2 ∷ []);
  private_buffer = none;
  public_buffer = some (3 ∷ []);
}

abbrev raw_wire : Wire
raw_wire = record { bytes = []; full = false; shut = false }

-- `start_tls` with a handshake that goes through.
ssl_factory-IsSafe_example :
    IsSafe
      (env_of Kind.client)
      (ssl_factory (env_of Kind.client) upgrade none [] (ok raw_wire) before (made ∷ []))
ssl_factory-IsSafe_example =
    ssl_factory-IsSafe (env_of Kind.client) leaves (λ r. refl) upgrade none [] (ok raw_wire) before
      (made ∷ [])

-- The same with a timeout before `connection_made`: the raw transport is shut.
abbrev is_shut : Outcome Bytes Wire → Bool
is_shut (ended (raised e) t) = t.raw.shut
is_shut _ = false

upgrade_shut :
    is_shut
      (ssl_factory (env_of Kind.client) upgrade none [] (ok raw_wire) before (time_is_up ∷ []))
    ≡ true
unfolding ssl_factory prepare take_over switch connect awaited wait_through wait_step start_timer
    conclude give_up StartTls.initial new_conn
upgrade_shut = refl
