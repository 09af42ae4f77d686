-- ===== src/Server/Tests.antt =====
-- Runs of a Server, and the theorems about it at concrete inputs.
use talyn.Server.Abstract.{from_start-View}
use talyn.Server.View.{new_view, replay}
use talyn.Server.Closing.{closed_for_good}
use talyn.Server.Waiting.{wait_closed_resumes}
use talyn.Server.Resuming.{step-IsIdle}
use talyn.Server.Clients.{active_count-clients, IsDistinct}
use talyn.Base.Exec.{ok}
use talyn.Base.Int.{is_nonpos, pos}
use talyn.Server.History.{Event, step, run, from_start}
use talyn.Base.{
  elem, ◌&&◌, ◌≢◌, get_elem?, ◌↔◌, length, ◌+◌, ◌==◌, Option, List, refl, none, some, true, false,
  [], ◌∷◌, ◌≡◌, ℕ,
}
use talyn.Server.{
  close_listener, set_server_ref, start_serving, finished, sockets, attach, is_serving, invoke,
  resolve_all, pending, invoke_all, fresh, wait_closed, init, detach, close, Server, Natives,
}

-- Listeners 1 and 2, of which 1 has a method `start_serving`; no call raises.
abbrev quiet : Natives
quiet = record { fails = λ _. false; has_start_serving = λ x. x == 1; socket_of = λ x. x + 100 }

abbrev two : Option (List ℕ)
two = some (1 ∷ 2 ∷ [])

-- A client connects, a task waits, the server closes, and the client leaves.
abbrev visit : List Event
visit = Event.attaches (some 7) ∷ Event.waits ∷ Event.closes ∷ Event.detaches (some 7) ∷ []

visit_run : from_start quiet two true visit ≡ record (fresh none false) {
  futures = finished ∷ [];
  calls = set_server_ref 1 ∷ set_server_ref 2 ∷ close_listener 1 ∷ close_listener 2 ∷ [];
}
unfolding run step init invoke_all invoke attach detach wait_closed close resolve_all
visit_run = refl

-- The last step of the visit, which finishes the future 0.
abbrev before_leaving : Server
before_leaving = record {
  servers = none;
  serving = false;
  active_count = pos 1;
  clients = 7 ∷ [];
  waiters = 0 ∷ [];
  futures = pending ∷ [];
  calls = [];
}

wait_closed_resumes_example : get_elem? (from_start quiet two true visit).futures 0 ≢ some pending
unfolding run step init invoke_all invoke attach detach wait_closed close resolve_all
wait_closed_resumes_example = wait_closed_resumes quiet (λ x. refl) two true visit 0 refl refl

step-IsIdle_example :
    let t = step quiet before_leaving (Event.detaches (some 7)) in
    (is_nonpos t.active_count ≡ true) × (is_serving t ≡ false)
unfolding step detach resolve_all
step-IsIdle_example = step-IsIdle quiet 0 before_leaving (Event.detaches (some 7)) refl refl

closed_for_good_example :
    let t = run quiet (close quiet (fresh two true)).1 (Event.starts ∷ []) in
    (is_serving t ≡ false)
    × (sockets quiet t ≡ (ok [], t))
    × (close quiet t ≡ (ok tt, t))
    × (start_serving quiet t ≡ (ok tt, t))
closed_for_good_example = closed_for_good quiet (fresh two true) (Event.starts ∷ []) (λ e. cc)

active_count-clients_example :
    let s = from_start quiet two true visit in
    (s.active_count ≡ pos (length s.clients)) × IsDistinct s.clients
active_count-clients_example = active_count-clients quiet two true visit (refl, (refl, tt))

from_start-View_example :
    let s = from_start quiet two true visit in
    let v = replay (new_view true) visit in
    (is_serving s ≡ (v.is_open && v.on))
    × ((t : ℕ) → elem t s.clients ≡ v.connected t)
    × (((wait_closed s).0 ≡ ok none) ↔ ((v.is_open ≡ false) × ((t : ℕ) → v.connected t ≡ false)))
from_start-View_example = from_start-View quiet (1 ∷ 2 ∷ []) true visit (λ e. cc) (refl, (refl, tt))
