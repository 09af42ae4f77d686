-- ===== src/Server/Resuming.antt =====
-- When a caller of `wait_closed` (talyn/server.py) is resumed.
use talyn.Base.{◌⊎◌, ℕ, ◌≡◌, true, false, Option, none, some, get_elem?, inl, inr, arith}
use talyn.Base.Int.{is_nonpos}
use talyn.Server.{
  aexit, Server, Natives, pending, finished, attach, detach, wakeup, is_serving, close, wait_closed,
}
use talyn.Server.Calls.{
  sockets-SameBut, abort_clients_lem, close_clients_lem, serve_forever_cancelled_lem, aexit_lem,
  start_serving-SameBut, close_shape,
}
use talyn.Server.History.{Event, step, cancel}
use talyn.Server.Waiting.{get_elem?-push, get_elem?-lt, cancel_futures-ne, get_elem?-resolve_all}

-- What a step does to the futures: those that it finishes, it finishes with no connection left on a
-- server that does not serve. No hypothesis on the listeners.
module _ (native : Natives) (i : ℕ) where
  abbrev Waits : Server → Type 0
  Waits s = get_elem? s.futures i ≡ some pending

  abbrev Resumed : Server → Type 0
  Resumed s = get_elem? s.futures i ≡ some finished

  abbrev IsIdle : Server → Type 0
  IsIdle s = (is_nonpos s.active_count ≡ true) × (is_serving s ≡ false)

  close-IsIdle : (s : Server) → Waits s → Resumed (close native s).1 → IsIdle (close native s).1
  unfolding wakeup is_serving
  close-IsIdle s w r = ground (arith, close_shape native s)

  detach-IsIdle : (t : Option ℕ) (s : Server) → Waits s → Resumed (detach t s) → IsIdle (detach t s)
  unfolding detach is_serving
  detach-IsIdle t s w r = ground arith

  wait_closed-Waits : (s : Server) → Waits s → Waits (wait_closed s).1
  unfolding wait_closed
  wait_closed-Waits s w =
      ground (arith, get_elem?-push s.futures pending i, get_elem?-lt s.futures i w)

  cancel-Resumed : (w : ℕ) (s : Server) → Waits s → Resumed (cancel w s) → ⊥
  unfolding cancel
  cancel-Resumed w s p r = cancel_futures-ne s.futures w i p r

  wait_closed-IsIdle : (s : Server) → IsIdle s → IsIdle (wait_closed s).1
  unfolding wait_closed is_serving
  wait_closed-IsIdle s h = ground arith

  close-Waits : (s : Server) → Waits s → Waits (close native s).1 ⊎ Resumed (close native s).1
  unfolding wakeup
  close-Waits s w =
      ground (arith, close_shape native s, get_elem?-resolve_all s.waiters s.futures i)

  aexit-IsIdle : (s : Server) → Waits s → Resumed (aexit native s).1 → IsIdle (aexit native s).1
  aexit-IsIdle s w r = elim (aexit_lem native s) [
    | inl e ↦ rw e (close-IsIdle s w (rw e at r))
    | inr e ↦ elim (close-Waits s w) [
      | inl w' ↦ ground (arith, e, wait_closed-Waits (close native s).1 w')
      | inr r' ↦ rw e (wait_closed-IsIdle _ (close-IsIdle s w r'))
    ]
  ]

  -- Whatever raises: a step that finishes a pending future of `wait_closed` leaves the server with a
  -- connection count of 0 or less, and not serving.
  pub step-IsIdle :
      (s : Server) (e : Event)
      → get_elem? s.futures i ≡ some pending
      → get_elem? (step native s e).futures i ≡ some finished
      → (is_nonpos (step native s e).active_count ≡ true) × (is_serving (step native s e) ≡ false)
  unfolding step attach
  step-IsIdle s (Event.attaches none) w r = ground arith
  step-IsIdle s (Event.attaches (some t)) w r = ground arith
  step-IsIdle s (Event.detaches t) w r = detach-IsIdle t s w r
  step-IsIdle s Event.waits w r = ground (arith, wait_closed-Waits s w)
  step-IsIdle s Event.closes w r = close-IsIdle s w r
  step-IsIdle s Event.starts w r = ground (arith, start_serving-SameBut native s)
  step-IsIdle s Event.exits w r = aexit-IsIdle s w r
  step-IsIdle s Event.forever_cancelled w r =
      ground (arith, serve_forever_cancelled_lem native s, close-IsIdle s w)
  step-IsIdle s Event.closes_clients w r = ground (arith, close_clients_lem native s)
  step-IsIdle s Event.aborts_clients w r = ground (arith, abort_clients_lem native s)
  step-IsIdle s Event.reads_sockets w r = ground (arith, sockets-SameBut native s)
  step-IsIdle s (Event.cancels x) w r = absurd (cancel-Resumed x s w r)
