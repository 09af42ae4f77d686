-- ===== src/Server/Clients.antt =====
-- The connection count and the set of clients, over the connections that attach and detach.
use talyn.Base.Exec.{ok}
use talyn.Server.Calls.{
  invoke_all-SameBut, sockets-SameBut, abort_clients_lem, close_clients_lem,
  serve_forever_cancelled_lem, aexit_lem, start_serving-SameBut, close_shape,
}
use talyn.Server.History.{from_start, cancel, step, run, Event}
use talyn.Base.Int.{pos}
use talyn.Base.{
  ◌↔◌, Bool, ◌∙◌, Option, sym, refl, none, some, true, false, elem-append, [], ◌++◌, suc,
  length-append, elem-discard, true, false, arith, add, ◌∷◌, some, length, elem, discard, List, ℕ,
  ◌≡◌,
}
use talyn.Server.{
  fresh, listeners, set_server_ref, init, close, wakeup, wait_closed, detach, attach, Natives,
  Server,
}

-- Every attached transport is named, is not attached already, and detaches only while attached: what
-- the accept path and the transports' close path of the native layer do.
abbrev pub IsPaired : List ℕ → List Event → Type 0
IsPaired cs [] = Unit {0}
IsPaired cs (Event.attaches none ∷ es) = ⊥
IsPaired cs (Event.attaches (some t) ∷ es) = (elem t cs ≡ false) × IsPaired (add t cs) es
IsPaired cs (Event.detaches none ∷ es) = ⊥
IsPaired cs (Event.detaches (some t) ∷ es) = (elem t cs ≡ true) × IsPaired (discard t cs) es
IsPaired cs (_ ∷ es) = IsPaired cs es

-- No element is listed twice.
abbrev pub IsDistinct : List ℕ → Type 0
IsDistinct [] = Unit {0}
IsDistinct (x ∷ xs) = (elem x xs ≡ false) × IsDistinct xs

length-discard_absent :
    (t : ℕ) (cs : List ℕ) → elem t cs ≡ false → length (discard t cs) ≡ length cs
length-discard_absent t [] h = refl
length-discard_absent t (c ∷ cs) h = ground (arith, length-discard_absent t cs)

length-discard :
    (t : ℕ) (cs : List ℕ)
    → IsDistinct cs
    → elem t cs ≡ true
    → suc (length (discard t cs)) ≡ length cs
length-discard t [] u h = cc
length-discard t (c ∷ cs) u h = ground (arith, length-discard t cs u.1, length-discard_absent t cs)

discard-IsDistinct : (t : ℕ) (cs : List ℕ) → IsDistinct cs → IsDistinct (discard t cs)
discard-IsDistinct t [] u = tt
discard-IsDistinct t (c ∷ cs) u = ground (arith, discard-IsDistinct t cs u.1, elem-discard c t cs)

push-IsDistinct :
    (t : ℕ) (cs : List ℕ) → IsDistinct cs → elem t cs ≡ false → IsDistinct (cs ++ t ∷ [])
push-IsDistinct t [] u h = (refl, tt)
push-IsDistinct t (c ∷ cs) u h = ground (arith, push-IsDistinct t cs u.1, elem-append c cs (t ∷ []))

-- The count is the number of clients, which are all different.
pub record IsTracked (s : Server) : Type 0 where
  pub counted : s.active_count ≡ pos (length s.clients)
  pub distinct : IsDistinct s.clients

attach-IsTracked :
    (t : ℕ) (s : Server) → elem t s.clients ≡ false → IsTracked s → IsTracked (attach (some t) s)
unfolding attach
attach-IsTracked t s h k = record {
  counted = ground (arith, length-append s.clients (t ∷ []));
  distinct = ground (arith, push-IsDistinct t s.clients k.distinct h);
}

detach-IsTracked :
    (t : ℕ) (s : Server) → elem t s.clients ≡ true → IsTracked s → IsTracked (detach (some t) s)
unfolding detach
detach-IsTracked t s h k = record {
  counted = ground (arith, length-discard t s.clients k.distinct h);
  distinct = ground (arith, discard-IsDistinct t s.clients k.distinct);
}

clients-attach : (t : ℕ) (s : Server) → (attach (some t) s).clients ≡ add t s.clients
unfolding attach
clients-attach t s = refl

clients-detach : (t : ℕ) (s : Server) → (detach (some t) s).clients ≡ discard t s.clients
unfolding detach
clients-detach t s = ground arith

-- The events of a history that are neither.
abbrev IsOther : Event → Type 0
IsOther (Event.attaches _) = ⊥
IsOther (Event.detaches _) = ⊥
IsOther _ = Unit {0}

module _ (native : Natives) where
  abbrev SameCount : Server → Server → Type 0
  SameCount s t = (t.active_count ≡ s.active_count) × (t.clients ≡ s.clients)

  close-SameCount : (s : Server) → SameCount s (close native s).1
  unfolding wakeup
  close-SameCount s = ground (arith, close_shape native s)

  wait_closed-SameCount : (s : Server) → SameCount s (wait_closed s).1
  unfolding wait_closed
  wait_closed-SameCount s = ground arith

  step-SameCount : (s : Server) (e : Event) → IsOther e → SameCount s (step native s e)
  unfolding step cancel
  step-SameCount s (Event.attaches t) o = absurd o
  step-SameCount s (Event.detaches t) o = absurd o
  step-SameCount s Event.waits o = wait_closed-SameCount s
  step-SameCount s Event.closes o = close-SameCount s
  step-SameCount s Event.starts o = ground (arith, start_serving-SameBut native s)
  step-SameCount s Event.exits o =
      ground
        (arith, aexit_lem native s, close-SameCount s, wait_closed-SameCount (close native s).1)
  step-SameCount s Event.forever_cancelled o =
      ground (arith, serve_forever_cancelled_lem native s, close-SameCount s)
  step-SameCount s Event.closes_clients o = ground (arith, close_clients_lem native s)
  step-SameCount s Event.aborts_clients o = ground (arith, abort_clients_lem native s)
  step-SameCount s Event.reads_sockets o = ground (arith, sockets-SameBut native s)
  step-SameCount s (Event.cancels w) o = (refl, refl)

  SameCount-IsTracked : (s t : Server) → SameCount s t → IsTracked s → IsTracked t
  SameCount-IsTracked s t h k = record {
    counted = ground (arith, k.counted);
    distinct = rw h.1 k.distinct;
  }

  run-IsTracked :
      (s : Server) (es : List Event) (cs : List ℕ)
      → cs ≡ s.clients
      → IsPaired cs es
      → IsTracked s
      → IsTracked (run native s es)
  unfolding run step
  run-IsTracked s [] cs e p k = k
  run-IsTracked s (Event.attaches none ∷ es) cs e p k = absurd p
  run-IsTracked s (Event.attaches (some t) ∷ es) cs e p k =
      run-IsTracked (attach (some t) s) es (add t cs) (rw e (sym (clients-attach t s))) p.1
        (attach-IsTracked t s (ground (arith, p.0)) k)
  run-IsTracked s (Event.detaches none ∷ es) cs e p k = absurd p
  run-IsTracked s (Event.detaches (some t) ∷ es) cs e p k =
      run-IsTracked (detach (some t) s) es (discard t cs) (rw e (sym (clients-detach t s))) p.1
        (detach-IsTracked t s (ground (arith, p.0)) k)
  run-IsTracked s (ev ∷ es) cs e p k =
      let h = step-SameCount s ev tt in
      run-IsTracked (step native s ev) es cs (e ∙ sym h.1) p (SameCount-IsTracked s _ h k)

  -- Over a history in which every connection attaches once and detaches once after that, the count
  -- is the number of the transports in `_clients`, and none of them is there twice.
  pub active_count-clients :
      (servers : Option (List ℕ)) (serving : Bool) (es : List Event)
      → IsPaired [] es
      → let s = from_start native servers serving es in
        (s.active_count ≡ pos (length s.clients)) × IsDistinct s.clients
  unfolding init
  active_count-clients servers serving es p =
      let e =
        invoke_all-SameBut native set_server_ref (listeners servers) (fresh servers serving) in
      let k =
        run-IsTracked (init native servers serving).1 es [] (ground (arith, e)) p
          (record { counted = ground (arith, e); distinct = ground (arith, e) }) in
      (k.counted, k.distinct)

  -- After such a history `wait_closed` returns without waiting exactly when the server is closed and
  -- no transport is left in `_clients`.
  pub wait_closed_returns :
      (servers : Option (List ℕ)) (serving : Bool) (es : List Event)
      → IsPaired [] es
      → let s = from_start native servers serving es in
        ((wait_closed s).0 ≡ ok none) ↔ ((s.servers ≡ none) × (s.clients ≡ []))
  unfolding wait_closed
  wait_closed_returns servers serving es p =
      let k = active_count-clients servers serving es p in
      (λ r. ground (arith, k.0), λ h. ground (arith, k.0, h.0, h.1))
