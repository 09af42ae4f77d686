-- ===== src/Server/Closing.antt =====
-- `close`, `start_serving` and `sockets` of a closed server.
use talyn.Server.History.{cancel, step, run, Event}
use talyn.Server.Calls.{
  sockets-SameBut, abort_clients_lem, close_clients_lem, serve_forever_cancelled_lem, aexit_lem,
  start_serving-SameBut, close_shape,
}
use talyn.Base.Exec.{ok}
use talyn.Base.{refl, some, inl, inr, ◌≢◌, ◌∷◌, [], arith, ◌⊎◌, List, false, none, ◌≡◌}
use talyn.Server.{
  wakeup, get_sockets, wait_closed, detach, attach, start_serving, sockets, is_serving, close,
  Natives, Server,
}

-- The server was closed, by `close`, `__aexit__` or a cancelled `serve_forever`.
abbrev pub IsShut : Server → Type 0
IsShut s = (s.servers ≡ none) × (s.serving ≡ false)

module _ (native : Natives) where
  -- After `close` the server is shut if it served a list of listeners, whether or not a listener's
  -- own `close` raised.
  close-IsShut : (s : Server) → IsShut (close native s).1 ⊎ (s.servers ≡ none)
  unfolding wakeup
  close-IsShut s = ground (arith, close_shape native s)

  step-IsShut : (s : Server) (e : Event) → IsShut s → IsShut (step native s e)
  unfolding step wakeup attach detach wait_closed cancel
  step-IsShut s (Event.attaches none) h = h
  step-IsShut s (Event.attaches (some t)) h = h
  step-IsShut s (Event.detaches t) h = ground arith
  step-IsShut s Event.waits h = ground arith
  step-IsShut s Event.closes h = ground (arith, close_shape native s)
  step-IsShut s Event.starts h = ground (arith, start_serving-SameBut native s)
  step-IsShut s Event.exits h = ground (arith, aexit_lem native s, close_shape native s)
  step-IsShut s Event.forever_cancelled h =
      ground (arith, serve_forever_cancelled_lem native s, close_shape native s)
  step-IsShut s Event.closes_clients h = ground (arith, close_clients_lem native s)
  step-IsShut s Event.aborts_clients h = ground (arith, abort_clients_lem native s)
  step-IsShut s Event.reads_sockets h = ground (arith, sockets-SameBut native s)
  step-IsShut s (Event.cancels w) h = h

  run-IsShut : (s : Server) (es : List Event) → IsShut s → IsShut (run native s es)
  unfolding run
  run-IsShut s [] h = h
  run-IsShut s (e ∷ es) h = run-IsShut (step native s e) es (step-IsShut s e h)

  get_sockets_lem : (t : Server) → get_sockets native [] t ≡ (ok [], t)
  unfolding get_sockets
  get_sockets_lem t = refl

  shut_lem :
      (t : Server)
      → IsShut t
      → (is_serving t ≡ false)
        × (sockets native t ≡ (ok [], t))
        × (close native t ≡ (ok tt, t))
        × (start_serving native t ≡ (ok tt, t))
  unfolding is_serving sockets close start_serving
  shut_lem t (gone, off) =
      (ground arith, ground (arith, get_sockets_lem t), ground arith, ground arith)

  -- Once `close` is called on a server with a list of listeners, then after any further history,
  -- `start_serving` included, the server does not serve, has no sockets, and `close` and
  -- `start_serving` return at once and change nothing.
  pub closed_for_good :
      (s : Server) (es : List Event)
      → s.servers ≢ none
      → let t = run native (close native s).1 es in
        (is_serving t ≡ false)
        × (sockets native t ≡ (ok [], t))
        × (close native t ≡ (ok tt, t))
        × (start_serving native t ≡ (ok tt, t))
  closed_for_good s es h = elim (close-IsShut s) [
    | inr gone ↦ absurd (h gone)
    | inl shut ↦ shut_lem (run native (close native s).1 es) (run-IsShut _ es shut)
  ]
