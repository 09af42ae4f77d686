-- ===== src/Server.antt =====
-- `class Server` of talyn/server.py. A method returns the new state with its result or with the
-- exception that it raises. Listeners (the native StreamServer objects), transports and waiters are
-- numbers; every call that the class makes on a listener or a transport is kept in `calls`.
pub mod History
pub mod Calls
pub mod Waiting
pub mod Resuming
pub mod Closing
pub mod Clients
pub mod View
pub mod Abstract
mod Tests
use talyn.Base.{
  ℕ, Bool, true, false, not, ◌&&◌, ◌||◌, Option, none, some, List, [], ◌∷◌, ◌++◌, length, get_elem?,
  set, add, discard, if◌then◌else◌, is_some,
}
use talyn.Base.Exec.{Result, ok, raised, Exec, pure, raise, gets, modify, ◌>>=◌, ◌>>◌, catch, when}
use talyn.Base.Int.{ℤ, pos, suc_ℤ, pred_ℤ, is_nonpos}

-- What became of a future that `wait_closed` awaits.
pub data FutureState : Type 0 where
  pending finished cancelled : FutureState

pub data Call : Type 0 where
  set_server_ref close_listener start_listener get_socket : ℕ → Call
  close_transport abort_transport : ℕ → Call

pub data Exn : Type 0 where
  call_failed : Call → Exn
  cancelled_error : Exn

pub record Server : Type 0 where
  pub servers : Option (List ℕ)
  pub serving : Bool
  pub active_count : ℤ
  pub clients : List ℕ
  pub waiters : List ℕ
  pub futures : List FutureState
  pub calls : List Call

abbrev pub Action : Type 0 → Type 0
Action A = Exec Server Exn A

-- What the native objects do: which calls raise, which listeners have the method `start_serving`,
-- and the socket that `_get_socket` returns.
pub record Natives : Type 0 where
  pub fails : Call → Bool
  pub has_start_serving : ℕ → Bool
  pub socket_of : ℕ → ℕ

-- `not waiter.done()`
abbrev pub is_pending : Option FutureState → Bool
is_pending (some pending) = true
is_pending _ = false

-- `if not waiter.done(): waiter.set_result(None)`
abbrev pub resolve : ℕ → List FutureState → List FutureState
resolve w fs = if is_pending (get_elem? fs w) then set fs w finished else fs

-- The loop of `_wakeup`.
pub resolve_all : List ℕ → List FutureState → List FutureState
resolve_all [] fs = fs
resolve_all (w ∷ ws) fs = resolve_all ws (resolve w fs)

unfoldable pub wakeup : Server → Server
wakeup s = record s { waiters = []; futures = resolve_all s.waiters s.futures }

abbrev pub listeners : Option (List ℕ) → List ℕ
listeners none = []
listeners (some l) = l

abbrev pub nonempty : List ℕ → Bool
nonempty [] = false
nonempty (_ ∷ _) = true

unfoldable pub is_serving : Server → Bool
is_serving s = s.serving && is_some s.servers && nonempty (listeners s.servers)

unfoldable pub attach : Option ℕ → Server → Server
attach none s = record s { active_count = suc_ℤ s.active_count }
attach (some t) s = record s { active_count = suc_ℤ s.active_count; clients = add t s.clients }

abbrev pub discard_client : Option ℕ → List ℕ → List ℕ
discard_client none cs = cs
discard_client (some t) cs = discard t cs

-- The two updates at the head of `_detach`.
abbrev pub release : Option ℕ → Server → Server
release transport s = record s {
  active_count = pred_ℤ s.active_count;
  clients = discard_client transport s.clients;
}

unfoldable pub detach : Option ℕ → Server → Server
unfolding is_serving wakeup
detach transport s =
    let s' = release transport s in
    if is_nonpos s'.active_count && (not (is_some s'.servers) || not (is_serving s'))
    then wakeup s'
    else s'

-- `none`: the coroutine returned at once; `some w`: it is suspended on the new future `w`.
unfoldable pub wait_closed : Action (Option ℕ)
wait_closed s = if not (is_some s.servers) && is_nonpos s.active_count then (ok none, s) else (
  ok (some (length s.futures)),
  record s { waiters = s.waiters ++ length s.futures ∷ []; futures = s.futures ++ pending ∷ [] },
)

-- `serve_forever` up to its `await`: whether it is parked on a fresh future.
pub serve_forever : Action Bool
serve_forever = do gets (λ s. is_some s.servers)

-- The fields that `__init__` sets.
abbrev pub fresh : Option (List ℕ) → Bool → Server
fresh servers start_serving = record {
  servers = servers;
  serving = start_serving;
  active_count = pos 0;
  clients = [];
  waiters = [];
  futures = [];
  calls = [];
}

module _ (native : Natives) where
  -- A call on a native object.
  pub invoke : Call → Action (Unit {0})
  invoke c s = (
    if native.fails c then raised (call_failed c) else ok tt,
    record s { calls = s.calls ++ c ∷ [] },
  )

  -- `for x in xs: x.method()`
  pub invoke_all : (ℕ → Call) → List ℕ → Action (Unit {0})
  unfolding invoke
  invoke_all method [] = pure tt
  invoke_all method (x ∷ xs) = do invoke (method x); invoke_all method xs

  -- The same with each call under `try`/`except Exception`.
  pub invoke_each : (ℕ → Call) → List ℕ → Action (Unit {0})
  unfolding invoke
  invoke_each method [] = pure tt
  invoke_each method (x ∷ xs) = do catch (invoke (method x)) (λ _. pure tt); invoke_each method xs

  pub init : Option (List ℕ) → Bool → Result Exn (Unit {0}) × Server
  init servers start_serving =
      invoke_all set_server_ref (listeners servers) (fresh servers start_serving)

  pub close_clients : Action (Unit {0})
  close_clients = do invoke_each close_transport (← gets (λ s. s.clients))

  pub abort_clients : Action (Unit {0})
  abort_clients = do invoke_each abort_transport (← gets (λ s. s.clients))

  -- The body of `close` once `self._servers` is known to be a list.
  close_list : List ℕ → Action (Unit {0})
  close_list servers = do
    modify (λ s. record s { serving = false; servers = none })
    invoke_all close_listener servers
    modify (λ s. if is_nonpos s.active_count then wakeup s else s)

  unfoldable pub close : Action (Unit {0})
  unfolding close_list wakeup
  close s = elim s.servers [ none ↦ (ok tt, s) | some servers ↦ close_list servers s ]

  -- The loop of `start_serving`.
  pub start_all : List ℕ → Action (Unit {0})
  unfolding invoke
  start_all [] = pure tt
  start_all (x ∷ xs) = do
    when (native.has_start_serving x) (invoke (start_listener x))
    start_all xs

  unfoldable pub start_serving : Action (Unit {0})
  start_serving s = elim s.servers [
    | none ↦ (ok tt, s)
    | some servers ↦ start_all servers (record s { serving = true })
  ]

  -- `serve_forever` after its future is cancelled.
  unfoldable pub serve_forever_cancelled : Action (Unit {0})
  serve_forever_cancelled = do close; raise cancelled_error

  -- The loop of `sockets`.
  pub get_sockets : List ℕ → Action (List ℕ)
  unfolding invoke
  get_sockets [] = pure []
  get_sockets (x ∷ xs) = do
    invoke (get_socket x)
    rest ← get_sockets xs
    pure (native.socket_of x ∷ rest)

  unfoldable pub sockets : Action (List ℕ)
  unfolding get_sockets
  sockets = do get_sockets (← gets (λ s. listeners s.servers))

  -- `__aexit__`
  unfoldable pub aexit : Action (Option ℕ)
  aexit = do close; wait_closed
