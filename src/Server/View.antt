-- ===== src/Server/View.antt =====
-- An abstract server, what the program may know of a Server of talyn/server.py: whether it is closed,
-- whether it is to serve, and which transports are connected. The order of the clients, the count, the
-- waiters and the calls are forgotten.
use talyn.Base.{◌==◌, ℕ, if◌then◌else◌, List, Bool, none, some, true, false, [], ◌∷◌}
use talyn.Server.History.{Event}

pub record View : Type 0 where
  pub is_open : Bool
  pub on : Bool
  pub connected : ℕ → Bool

abbrev pub connect_view : ℕ → Bool → View → View
connect_view t b v = record v { connected = λ x. if x == t then b else v.connected x }

abbrev pub close_view : View → View
close_view v = record v { is_open = false; on = if v.is_open then false else v.on }

abbrev pub start_view : View → View
start_view v = record v { on = if v.is_open then true else v.on }

-- The same events, on what is known.
unfoldable pub view_step : View → Event → View
view_step v (Event.attaches none) = v
view_step v (Event.attaches (some t)) = connect_view t true v
view_step v (Event.detaches none) = v
view_step v (Event.detaches (some t)) = connect_view t false v
view_step v Event.closes = close_view v
view_step v Event.exits = close_view v
view_step v Event.forever_cancelled = close_view v
view_step v Event.starts = start_view v
view_step v _ = v

unfoldable pub replay : View → List Event → View
replay v [] = v
replay v (e ∷ es) = replay (view_step v e) es

abbrev pub new_view : Bool → View
new_view serving = record { is_open = true; on = serving; connected = λ _. false }
