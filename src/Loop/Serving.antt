-- ===== src/Loop/Serving.antt =====
-- `create_server` and `create_unix_server` of `class Loop`, talyn/loop.py, with TLS and without, from
-- their arguments to the Server that they return.
use talyn.Base.{ℕ, Bool, some, List, [], ◌∷◌}
use talyn.Base.Exec.{Result, ok, raised}
use talyn.Loop.Factories.{
  ServerArgs, UnixServerArgs, UnixServerRoute, create_unix_server, create_server, ServerRoute,
}
use talyn.Loop.Native.{ServerCall, server_call}
use talyn.Server
use talyn.Server.{Natives, init}

pub data Request : Type 0 where
  tcp : ServerArgs → Request
  unix : UnixServerArgs → Request

-- What the native methods and the calls of `Server.__init__` raise.
pub data Exn : Type 0 where
  by_native : ℕ → Exn
  by_server : Server.Exn → Exn

abbrev pub one_listener : Result ℕ ℕ → Result ℕ (List ℕ)
one_listener (raised e) = raised e
one_listener (ok l) = ok (l ∷ [])

abbrev pub made_server : Result Server.Exn (Unit {0}) × Server.Server → Result Exn Server.Server
made_server (raised e, s) = raised (by_server e)
made_server (ok x, s) = ok s

-- `Server(self, srvs, start_serving=start_serving)`, if the native method returns
abbrev pub serve_on : Natives → Result ℕ (List ℕ) → Bool → Result Exn Server.Server
serve_on native (raised e) starts = raised (by_native e)
serve_on native (ok ls) starts = made_server (init native (some ls) starts)

-- What the native methods come to: the listeners of `create_server`, and the one of
-- `create_unix_server` for a path and a backlog.
module _ (tcp_listeners : ServerCall → Result ℕ (List ℕ)) (unix_listener : ℕ → ℕ → Result ℕ ℕ)
    (native : Natives) where
  -- The end of `create_server`, and of `_create_ssl_server`.
  unfoldable pub open_tcp_server : ServerArgs → Result Exn Server.Server
  unfolding server_call create_server
  open_tcp_server a = elim (create_server a) [
    | ServerRoute.over_tls c b ↦ serve_on native (tcp_listeners (server_call a)) b.start_serving
    | ServerRoute.native host port backlog kwargs ↦
        serve_on native (tcp_listeners (server_call a)) a.start_serving
  ]

  -- The end of `_create_ssl_unix_server`, and of `create_unix_server`.
  unfoldable pub open_unix_server : UnixServerArgs → Result Exn Server.Server
  unfolding create_unix_server
  open_unix_server a = elim (create_unix_server a) [
    | UnixServerRoute.over_tls path backlog c timeout starts ↦
        serve_on native (one_listener (unix_listener path backlog)) starts
    | UnixServerRoute.native path backlog starts ↦
        serve_on native (one_listener (unix_listener path backlog)) starts
  ]

  unfoldable pub open_server : Request → Result Exn Server.Server
  unfolding open_tcp_server open_unix_server
  open_server (tcp a) = open_tcp_server a
  open_server (unix a) = open_unix_server a
