-- ===== src/Server/Abstract.antt =====
-- A Server of talyn/server.py against the abstract server of the module View, event by event.
use talyn.Base.{
  Option-cases, sym, ◌&&◌, ◌≢◌, elem-discard, elem, ap, ◌∙◌, if◌then◌else◌, elem-add, Option, refl,
  none, some, true, false, inl, inr, [], ◌∷◌, arith, ◌≡◌, ℕ, Bool, List, ◌↔◌,
}
use talyn.Server.View.{View, connect_view, close_view, start_view, view_step, replay, new_view}
use talyn.Base.Exec.{ok}
use talyn.Server.{
  discard_client, aexit, Server, Natives, attach, detach, wait_closed, close, start_serving,
  is_serving, init, fresh, set_server_ref, wakeup,
}
use talyn.Server.History.{Event, step, run, from_start, cancel}
use talyn.Server.Calls.{
  sockets-SameBut, abort_clients_lem, close_clients_lem, serve_forever_cancelled_lem, aexit_lem,
  start_serving-SameBut, close_shape, invoke_all-SameBut,
}
use talyn.Server.Clients.{IsPaired, wait_closed_returns}

-- A server with these listeners is as it is known to be.
pub record IsSeenAs (listeners : List ℕ) (s : Server) (v : View) : Type 0 where
  pub servers : s.servers ≡ (if v.is_open then some listeners else none)
  pub serving : s.serving ≡ v.on
  pub clients : (t : ℕ) → elem t s.clients ≡ v.connected t

module _ (native : Natives) (ls : List ℕ) where
  close_closed : (s : Server) → s.servers ≡ none → (close native s).1 ≡ s
  unfolding close
  close_closed s e = ground arith

  close_serving :
      (s : Server) (v : View)
      → IsSeenAs ls s v
      → (close native s).1.serving ≡ (if v.is_open then false else v.on)
  unfolding wakeup
  close_serving s v h = elim (Option-cases s.servers) [
    | inl e ↦ ground (arith, e, close_closed s e, h.servers, h.serving)
    | inr (l, e) ↦ ground (arith, e, close_shape native s, h.servers, h.serving)
  ]

  close-IsSeenAs :
      (s : Server) (v : View) → IsSeenAs ls s v → IsSeenAs ls (close native s).1 (close_view v)
  unfolding wakeup
  close-IsSeenAs s v h = record {
    servers = ground (arith, close_shape native s, h.servers);
    serving = close_serving s v h;
    clients = λ t. ground (arith, close_shape native s, h.servers, h.clients t);
  }

  -- What is seen depends on three fields.
  abbrev SameSight : Server → Server → Type 0
  SameSight s t = (t.servers ≡ s.servers) × (t.serving ≡ s.serving) × (t.clients ≡ s.clients)

  SameSight-IsSeenAs : (s t : Server) (v : View) → SameSight s t → IsSeenAs ls s v → IsSeenAs ls t v
  SameSight-IsSeenAs s t v (a, b, c) h = record {
    servers = a ∙ h.servers;
    serving = b ∙ h.serving;
    clients = λ x. ap (elem x) c ∙ h.clients x;
  }

  attach-IsSeenAs :
      (s : Server) (v : View) (t : ℕ)
      → IsSeenAs ls s v
      → IsSeenAs ls (attach (some t) s) (connect_view t true v)
  unfolding attach
  attach-IsSeenAs s v t h = record {
    servers = h.servers;
    serving = h.serving;
    clients = λ x. ground (arith, elem-add x t s.clients, h.clients x);
  }

  detach_fields :
      (s : Server) (o : Option ℕ)
      → ((detach o s).servers ≡ s.servers)
        × ((detach o s).serving ≡ s.serving)
        × ((detach o s).clients ≡ discard_client o s.clients)
  unfolding detach
  detach_fields s o = ground arith

  detach-IsSeenAs :
      (s : Server) (v : View) (t : ℕ)
      → IsSeenAs ls s v
      → IsSeenAs ls (detach (some t) s) (connect_view t false v)
  detach-IsSeenAs s v t h =
      let (a, b, c) = detach_fields s (some t) in
      record {
        servers = a ∙ h.servers;
        serving = b ∙ h.serving;
        clients = λ x. ap (elem x) c ∙ ground (arith, elem-discard x t s.clients, h.clients x);
      }

  waits-SameSight : (s : Server) → SameSight s (wait_closed s).1
  unfolding wait_closed
  waits-SameSight s = ground arith

  exits-IsSeenAs :
      (s : Server) (v : View) → IsSeenAs ls s v → IsSeenAs ls (aexit native s).1 (close_view v)
  exits-IsSeenAs s v h =
      let closed = close-IsSeenAs s v h in
      elim (aexit_lem native s) [
        | inl e ↦ rw e closed
        | inr e ↦ rw e (
            SameSight-IsSeenAs (close native s).1 (wait_closed (close native s).1).1 (close_view v)
              (waits-SameSight (close native s).1) closed)
      ]

  starts-IsSeenAs :
      (s : Server) (v : View)
      → IsSeenAs ls s v
      → IsSeenAs ls (start_serving native s).1 (start_view v)
  starts-IsSeenAs s v h = record {
    servers = ground (arith, start_serving-SameBut native s, h.servers);
    serving = ground (arith, start_serving-SameBut native s, h.servers, h.serving);
    clients = λ t. ground (arith, start_serving-SameBut native s, h.servers, h.clients t);
  }

  step-IsSeenAs :
      (s : Server) (v : View) (e : Event)
      → IsSeenAs ls s v
      → IsSeenAs ls (step native s e) (view_step v e)
  unfolding step view_step cancel attach
  step-IsSeenAs s v (Event.attaches none) h = SameSight-IsSeenAs s _ v (refl, refl, refl) h
  step-IsSeenAs s v (Event.attaches (some t)) h = attach-IsSeenAs s v t h
  step-IsSeenAs s v (Event.detaches none) h =
      SameSight-IsSeenAs s (detach none s) v (detach_fields s none) h
  step-IsSeenAs s v (Event.detaches (some t)) h = detach-IsSeenAs s v t h
  step-IsSeenAs s v Event.closes h = close-IsSeenAs s v h
  step-IsSeenAs s v Event.exits h = exits-IsSeenAs s v h
  step-IsSeenAs s v Event.forever_cancelled h =
      rw (serve_forever_cancelled_lem native s) (close-IsSeenAs s v h)
  step-IsSeenAs s v Event.starts h = starts-IsSeenAs s v h
  step-IsSeenAs s v Event.waits h = SameSight-IsSeenAs s (wait_closed s).1 v (waits-SameSight s) h
  step-IsSeenAs s v Event.closes_clients h =
      SameSight-IsSeenAs s _ v (ground (arith, close_clients_lem native s)) h
  step-IsSeenAs s v Event.aborts_clients h =
      SameSight-IsSeenAs s _ v (ground (arith, abort_clients_lem native s)) h
  step-IsSeenAs s v Event.reads_sockets h =
      SameSight-IsSeenAs s _ v (ground (arith, sockets-SameBut native s)) h
  step-IsSeenAs s v (Event.cancels w) h = SameSight-IsSeenAs s _ v (refl, refl, refl) h

  run-IsSeenAs :
      (s : Server) (v : View) (es : List Event)
      → IsSeenAs ls s v
      → IsSeenAs ls (run native s es) (replay v es)
  unfolding run replay
  run-IsSeenAs s v [] h = h
  run-IsSeenAs s v (e ∷ es) h =
      run-IsSeenAs (step native s e) (view_step v e) es (step-IsSeenAs s v e h)

  init-IsSeenAs :
      (serving : Bool) → IsSeenAs ls (init native (some ls) serving).1 (new_view serving)
  unfolding init
  init-IsSeenAs serving =
      SameSight-IsSeenAs (fresh (some ls) serving) _ (new_view serving)
        (ground (arith, invoke_all-SameBut native set_server_ref ls (fresh (some ls) serving)))
        (record { servers = refl; serving = refl; clients = λ t. refl })

  serves_lem :
      (s : Server) (v : View) → IsSeenAs ls s v → ls ≢ [] → is_serving s ≡ (v.is_open && v.on)
  unfolding is_serving
  serves_lem s v h n = ground (arith, h.servers, h.serving, n)

  closed_iff : (s : Server) (v : View) → IsSeenAs ls s v → (s.servers ≡ none) ↔ (v.is_open ≡ false)
  closed_iff s v h = ground (arith, h.servers)

  -- A set is empty if nothing is in it.
  empty_iff : (cs : List ℕ) → (cs ≡ []) ↔ ((t : ℕ) → elem t cs ≡ false)
  empty_iff [] = (λ h t. refl, λ h. refl)
  empty_iff (c ∷ cs) = (λ h. absurd (cc), λ h. absurd (ground (arith, h c)))

  -- A new Server with listeners, over a history in which each connection attaches once and detaches
  -- once after that, is seen from outside as one that knows only whether it is closed, whether it is
  -- to serve and which transports are connected: it serves exactly if that one is open and to serve,
  -- its clients are the transports connected there, and `wait_closed` returns at once exactly if
  -- that one is closed with no transport connected.
  pub from_start-View :
      (serving : Bool) (es : List Event)
      → ls ≢ []
      → IsPaired [] es
      → let s = from_start native (some ls) serving es in
        let v = replay (new_view serving) es in
        (is_serving s ≡ (v.is_open && v.on))
        × ((t : ℕ) → elem t s.clients ≡ v.connected t)
        × (((wait_closed s).0 ≡ ok none)
            ↔ ((v.is_open ≡ false) × ((t : ℕ) → v.connected t ≡ false)))
  from_start-View serving es n p =
      let s = from_start native (some ls) serving es in
      let v = replay (new_view serving) es in
      let h =
        run-IsSeenAs (init native (some ls) serving).1 (new_view serving) es
          (init-IsSeenAs serving) in
      let returns = wait_closed_returns native (some ls) serving es p in
      let shut = closed_iff s v h in
      let empty = empty_iff s.clients in
      (
        serves_lem s v h n,
        h.clients,
        (
          λ r. (shut.0 (returns.0 r).0, λ t. sym (h.clients t) ∙ empty.0 (returns.0 r).1 t),
          λ (closed, none_left).
              returns.1 (shut.1 closed, empty.1 (λ t. h.clients t ∙ none_left t)),
        ),
      )
