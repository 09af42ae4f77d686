-- ===== src/Server/Calls.antt =====
-- The loops over listeners and clients in talyn/server.py, and the shape of the methods built on them.
use talyn.Base.{
  Bool, ◌⊎◌, true, ℕ, ◌≡◌, ◌⊎◌, true, Option, none, some, if◌then◌else◌, Option-cases, inl, inr,
  refl, false, List, [], ◌∷◌, ◌++◌, map, append_assoc, append-nil, arith,
}
use talyn.Base.Exec.{ok}
use talyn.Base.Int.{is_nonpos}
use talyn.Server.{
  fresh, set_server_ref, init, close_clients, abort_clients, close_transport, abort_transport,
  sockets, start_serving, serve_forever_cancelled, aexit, wait_closed, listeners, close,
  close_listener, wakeup, Server, Natives, Call, get_socket, invoke_all, invoke_each, start_all,
  get_sockets, start_listener,
}

-- The states differ in `calls` alone.
abbrev pub SameBut : Server → Server → Type 0
SameBut s t = t ≡ record s { calls = t.calls }

-- `start_serving` on a closed server does nothing.
abbrev pub started : Option (List ℕ) → Server → Server
started none s = s
started (some _) s = record s { serving = true }

module _ (native : Natives) where
  pub invoke_all-SameBut :
      (method : ℕ → Call) (xs : List ℕ) (s : Server) → SameBut s (invoke_all native method xs s).1
  unfolding invoke_all
  invoke_all-SameBut method [] s = refl
  invoke_all-SameBut method (x ∷ xs) s =
      ground (arith, invoke_all-SameBut method xs (record s { calls = s.calls ++ method x ∷ [] }))

  pub start_all-SameBut : (xs : List ℕ) (s : Server) → SameBut s (start_all native xs s).1
  unfolding start_all
  start_all-SameBut [] s = refl
  start_all-SameBut (x ∷ xs) s = ground (
    arith,
    start_all-SameBut xs s,
    start_all-SameBut xs (record s { calls = s.calls ++ start_listener x ∷ [] }),
  )

  pub get_sockets-SameBut : (xs : List ℕ) (s : Server) → SameBut s (get_sockets native xs s).1
  unfolding get_sockets
  get_sockets-SameBut [] s = refl
  get_sockets-SameBut (x ∷ xs) s =
      ground (arith, get_sockets-SameBut xs (record s { calls = s.calls ++ get_socket x ∷ [] }))

  -- Each client is called exactly once, in order, whichever calls raise.
  pub invoke_each_lem :
      (method : ℕ → Call) (xs : List ℕ) (s : Server)
      → invoke_each native method xs s ≡ (ok tt, record s { calls = s.calls ++ map method xs })
  unfolding invoke_each
  invoke_each_lem method [] s = ground (arith, append-nil s.calls)
  invoke_each_lem method (x ∷ xs) s = ground (
    arith,
    invoke_each_lem method xs (record s { calls = s.calls ++ method x ∷ [] }),
    append_assoc s.calls (method x ∷ []) (map method xs),
  )

  abbrev pub NeverFails : (ℕ → Call) → Type 0
  NeverFails method = (x : ℕ) → native.fails (method x) ≡ false

  -- A loop whose calls do not raise makes all of them.
  pub invoke_all_lem :
      (method : ℕ → Call) (xs : List ℕ) (s : Server)
      → NeverFails method
      → invoke_all native method xs s ≡ (ok tt, record s { calls = s.calls ++ map method xs })
  unfolding invoke_all
  invoke_all_lem method [] s h = ground (arith, append-nil s.calls)
  invoke_all_lem method (x ∷ xs) s h = ground (
    arith,
    h x,
    invoke_all_lem method xs (record s { calls = s.calls ++ method x ∷ [] }) h,
    append_assoc s.calls (method x ∷ []) (map method xs),
  )

  -- A new Server tells each listener of itself.
  pub init_lem :
      (ls : List ℕ) (serving : Bool)
      → NeverFails set_server_ref
      → init native (some ls) serving
        ≡ (ok tt, record (fresh (some ls) serving) { calls = map set_server_ref ls })
  unfolding init
  init_lem ls serving h = invoke_all_lem set_server_ref ls (fresh (some ls) serving) h

  -- `close` when no listener raises: the server is shut, every listener is closed, and the waiters
  -- are woken if no connection is left.
  abbrev pub closed_with : List ℕ → Server → Server
  closed_with servers s = record s {
    serving = false;
    servers = none;
    calls = s.calls ++ map close_listener servers;
  }

  abbrev pub close_reliable : Option (List ℕ) → Server → Server
  close_reliable none s = s
  close_reliable (some servers) s =
      if is_nonpos s.active_count then wakeup (closed_with servers s) else closed_with servers s

  pub close_lem :
      (s : Server)
      → NeverFails close_listener
      → close native s ≡ (ok tt, close_reliable s.servers s)
  unfolding close
  close_lem s h = elim (Option-cases s.servers) [
    | inl gone ↦ ground arith
    | inr (l, e) ↦
        ground
          (arith, invoke_all_lem close_listener l (record s { serving = false; servers = none }) h)
  ]

  -- The same in general: `close` does nothing, or shuts the server, or shuts it and wakes the
  -- waiters, which it does only with no connection left.
  abbrev pub shut : Server → Server
  shut s = record s { serving = false; servers = none }

  pub close_shape :
      (s : Server)
      → ((s.servers ≡ none) × ((close native s).1 ≡ s))
        ⊎ SameBut (shut s) (close native s).1
        ⊎ ((is_nonpos s.active_count ≡ true) × SameBut (wakeup (shut s)) (close native s).1)
  unfolding close
  close_shape s = elim (Option-cases s.servers) [
    | inl gone ↦ inl (gone, ground arith)
    | inr (l, e) ↦ inr (ground (arith, e, invoke_all-SameBut close_listener l (shut s)))
  ]

  pub serve_forever_cancelled_lem :
      (s : Server) → (serve_forever_cancelled native s).1 ≡ (close native s).1
  unfolding serve_forever_cancelled
  serve_forever_cancelled_lem s = ground arith

  pub aexit_lem :
      (s : Server)
      → ((aexit native s).1 ≡ (close native s).1)
        ⊎ ((aexit native s).1 ≡ (wait_closed (close native s).1).1)
  unfolding aexit
  aexit_lem s = ground arith

  pub close_clients_lem :
      (s : Server)
      → close_clients native s
        ≡ (ok tt, record s { calls = s.calls ++ map close_transport s.clients })
  unfolding close_clients
  close_clients_lem s = invoke_each_lem close_transport s.clients s

  pub abort_clients_lem :
      (s : Server)
      → abort_clients native s
        ≡ (ok tt, record s { calls = s.calls ++ map abort_transport s.clients })
  unfolding abort_clients
  abort_clients_lem s = invoke_each_lem abort_transport s.clients s

  pub sockets-SameBut : (s : Server) → SameBut s (sockets native s).1
  unfolding sockets
  sockets-SameBut s = get_sockets-SameBut (listeners s.servers) s

  pub start_serving-SameBut :
      (s : Server) → SameBut (started s.servers s) (start_serving native s).1
  unfolding start_serving
  start_serving-SameBut s = elim (Option-cases s.servers) [
    | inl gone ↦ ground arith
    | inr (l, e) ↦ ground (arith, start_all-SameBut l (record s { serving = true }))
  ]
