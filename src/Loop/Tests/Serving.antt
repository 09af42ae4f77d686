-- ===== src/Loop/Tests/Serving.antt =====
-- A TLS server on a unix socket, from the arguments of `create_unix_server` to the last client.
use talyn.Loop.Factories.{reuse_port, ServerArgs}
use talyn.Base.{if◌then◌else◌, List, ℕ, ◌==◌, none, some, [], ◌∷◌, ◌≡◌, refl, true, false}
use talyn.Base.Exec.{Result, ok, raised}
use talyn.Loop.Native.{ServerCall}
use talyn.Loop.Serving.{Request, open_server}
use talyn.Loop.Opened.{LooksLike, open_server-View}
use talyn.Server.{Natives, fresh, set_server_ref}
use talyn.Server.History.{Event, run}
use talyn.Server.View.{replay, new_view}

abbrev natives : Natives
natives = record { fails = λ _. false; has_start_serving = λ _. true; socket_of = λ x. x }

-- The native create_server fails; create_unix_server makes the listener 3 for the path 4.
abbrev no_tcp : ServerCall → Result ℕ (List ℕ)
no_tcp call = raised 98

abbrev unix_only : ℕ → ℕ → Result ℕ ℕ
unix_only path backlog = if path == 4 then ok 3 else raised 2

abbrev over_unix : Request
over_unix = Request.unix (record {
  path = 4;
  ssl = some 6;
  backlog = 100;
  ssl_handshake_timeout = none;
  ssl_shutdown_timeout = some 5;
  start_serving = true;
})

abbrev visits : List Event
visits = Event.attaches (some 7) ∷ Event.closes ∷ Event.waits ∷ Event.detaches (some 7) ∷ []

open_server-View_example :
    let s = record (fresh (some (3 ∷ [])) true) { calls = set_server_ref 3 ∷ [] } in
    (open_server no_tcp unix_only natives over_unix ≡ ok s)
    × LooksLike natives (run natives s visits) (replay (new_view true) visits)
open_server-View_example =
    open_server-View no_tcp unix_only natives over_unix (3 ∷ []) visits refl (λ e. cc) (λ x. refl)
      (refl, (refl, tt))

-- A TLS server on all interfaces.
abbrev tls_server : ServerArgs
tls_server = record {
  host = none;
  port = some 443;
  ssl = some 6;
  family = 0;
  flags = 0;
  sock = none;
  backlog = 100;
  reuse_address = none;
  reuse_port = some 1;
  ssl_handshake_timeout = none;
  ssl_shutdown_timeout = none;
  start_serving = true;
  dns_timeout = none;
}
