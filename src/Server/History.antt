-- ===== src/Server/History.antt =====
-- What may happen to a Server, and its histories: the methods of talyn/server.py that change its
-- state, called by the event loop, by the accepted connections and by the program, in any order.
use talyn.Base.{ℕ, Bool, Option, List, [], ◌∷◌, set, get_elem?, if◌then◌else◌}
use talyn.Server.{
  Server, Natives, cancelled, is_pending, attach, detach, close_clients, abort_clients, close,
  wait_closed, start_serving, serve_forever_cancelled, sockets, aexit, init,
}

pub data Event : Type 0 where
  attaches detaches : Option ℕ → Event
  waits closes starts exits forever_cancelled closes_clients aborts_clients reads_sockets : Event
  -- The task that awaits this future is cancelled.
  cancels : ℕ → Event

unfoldable pub cancel : ℕ → Server → Server
cancel w s = record s {
  futures = if is_pending (get_elem? s.futures w) then set s.futures w cancelled else s.futures;
}

module _ (native : Natives) where
  unfoldable pub step : Server → Event → Server
  step s (Event.attaches t) = attach t s
  step s (Event.detaches t) = detach t s
  step s Event.waits = (wait_closed s).1
  step s Event.closes = (close native s).1
  step s Event.starts = (start_serving native s).1
  step s Event.exits = (aexit native s).1
  step s Event.forever_cancelled = (serve_forever_cancelled native s).1
  step s Event.closes_clients = (close_clients native s).1
  step s Event.aborts_clients = (abort_clients native s).1
  step s Event.reads_sockets = (sockets native s).1
  step s (Event.cancels w) = cancel w s

  unfoldable pub run : Server → List Event → Server
  run s [] = s
  run s (e ∷ es) = run (step s e) es

  -- A Server that was just made, after a history.
  abbrev pub from_start : Option (List ℕ) → Bool → List Event → Server
  from_start servers serving es = run (init native servers serving).1 es
