-- ===== src/Loop/Opened.antt =====
-- The servers that `create_server` and `create_unix_server` of talyn/loop.py return, seen as the
-- abstract servers of Server/View.
use talyn.Loop.Factories.{create_unix_server, create_server}
use std.Path.{subst}
use talyn.Base.{
  inr, arith, inl, Option-cases, ◌∙◌, refl, ℕ, Bool, none, some, List, [], ◌≡◌, ◌≢◌, ◌↔◌, ◌&&◌,
  false, elem, map, ap,
}
use talyn.Base.Exec.{Result, ok}
use talyn.Loop.Native.{server_call, ServerCall}
use talyn.Loop.Serving.{
  one_listener, unix, open_unix_server, tcp, open_tcp_server, Request, open_server, serve_on,
}
use talyn.Server.{Server, Natives, set_server_ref, is_serving, wait_closed, fresh}
use talyn.Server.Calls.{init_lem, NeverFails}
use talyn.Server.History.{Event, run}
use talyn.Server.Clients.{IsPaired}
use talyn.Server.View.{View, new_view, replay}
use talyn.Server.Abstract.{from_start-View}

-- What a program sees of the server is what it sees of the abstract one.
abbrev pub LooksLike : Natives → Server → View → Type 0
LooksLike native s v =
    (is_serving s ≡ (v.is_open && v.on))
    × ((t : ℕ) → elem t s.clients ≡ v.connected t)
    × (((wait_closed s).0 ≡ ok none) ↔ ((v.is_open ≡ false) × ((t : ℕ) → v.connected t ≡ false)))

-- What was asked for.
abbrev pub asks_to_serve : Request → Bool
asks_to_serve (tcp a) = a.start_serving
asks_to_serve (unix a) = a.start_serving

serve_on_lem :
    (native : Natives) (ls : List ℕ) (starts : Bool) (r : Result ℕ (List ℕ))
    → r ≡ ok ls
    → NeverFails native set_server_ref
    → serve_on native r starts
      ≡ ok (record (fresh (some ls) starts) { calls = map set_server_ref ls })
serve_on_lem native ls starts r e h = rw (e, init_lem native ls starts h) refl

module _ (tcp_listeners : ServerCall → Result ℕ (List ℕ)) (unix_listener : ℕ → ℕ → Result ℕ ℕ) where
  -- What the native method answers to the options that were asked for.
  abbrev pub answer : Request → Result ℕ (List ℕ)
  answer (tcp a) = tcp_listeners (server_call a)
  answer (unix a) = one_listener (unix_listener a.path a.backlog)

  open_server_lem :
      (native : Natives) (r : Request)
      → open_server tcp_listeners unix_listener native r
        ≡ serve_on native (answer r) (asks_to_serve r)
  unfolding open_server open_tcp_server open_unix_server create_server create_unix_server
  open_server_lem native (tcp a) = elim (Option-cases a.ssl) [
    | inl e ↦ ground (arith, e)
    | inr (c, e) ↦ ground (arith, e)
  ]
  open_server_lem native (unix a) = elim (Option-cases a.ssl) [
    | inl e ↦ ground (arith, e)
    | inr (c, e) ↦ ground (arith, e)
  ]

  -- For `create_server` and `create_unix_server`, with TLS and without. If the native method
  -- answers to the options, or to the path and the backlog, with at least one listener, and
  -- `set_server_ref` does not raise: the call returns a Server that has told each listener of
  -- itself, in order, and has made no other call, and that is to serve exactly if the caller's
  -- `start_serving` says so. Over a history in which each connection attaches once and detaches
  -- once after that, this Server is seen from outside as one that knows only whether it is closed,
  -- whether it is to serve, and which transports are connected: it serves exactly if that one is
  -- open and to serve, its clients are the transports connected there, and `wait_closed` returns at
  -- once exactly if that one is closed with no transport connected.
  pub open_server-View :
      (native : Natives) (r : Request) (ls : List ℕ) (es : List Event)
      → answer r ≡ ok ls
      → ls ≢ []
      → NeverFails native set_server_ref
      → IsPaired [] es
      → let s = record (fresh (some ls) (asks_to_serve r)) { calls = map set_server_ref ls } in
        (open_server tcp_listeners unix_listener native r ≡ ok s)
        × LooksLike native (run native s es) (replay (new_view (asks_to_serve r)) es)
  open_server-View native r ls es e n h p = (
    open_server_lem native r ∙ serve_on_lem native ls (asks_to_serve r) (answer r) e h,
    subst (λ s. LooksLike native (run native s es) (replay (new_view (asks_to_serve r)) es))
        (ap (λ x. x.1) (init_lem native ls (asks_to_serve r) h))
        (from_start-View native ls (asks_to_serve r) es n p),
  )
