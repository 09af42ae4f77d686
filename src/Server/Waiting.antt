-- ===== src/Server/Waiting.antt =====
-- `wait_closed` of talyn/server.py: the futures that callers await, and the list of waiters.
use talyn.Base.{
  ℕ, zero, suc, ◌<◌, ◌≡◌, ◌≢◌, refl, Bool, true, Option, none, some, List, [], ◌∷◌, ◌++◌, elem,
  elem-append, ◌==◌, if◌then◌else◌, get_elem?, set, length, inl, inr, arith,
}
use talyn.Base.Int.{ℤ, pos, negsuc, suc_ℤ, is_nonpos}
use talyn.Server.{
  is_pending, fresh, listeners, set_server_ref, init, Server, Natives, FutureState, pending,
  finished, cancelled, close_listener, attach, detach, resolve_all, resolve, wakeup, close,
  wait_closed,
}
use talyn.Server.Calls.{
  sockets-SameBut, abort_clients_lem, close_clients_lem, serve_forever_cancelled_lem, aexit_lem,
  start_serving-SameBut, started, SameBut, NeverFails, close_lem, invoke_all-SameBut,
}
use talyn.Server.History.{Event, step, run, from_start, cancel}

-- What a wakeup does to the future `i`: it is finished if it was pending and its id is listed.
abbrev after_wakeup : Bool → Option FutureState → Option FutureState
after_wakeup true (some pending) = some finished
after_wakeup _ f = f

get_elem?-resolve :
    (w i : ℕ) (fs : List FutureState)
    → get_elem? (resolve w fs) i ≡ after_wakeup (i == w) (get_elem? fs i)
get_elem?-resolve w i [] = ground arith
get_elem?-resolve zero zero (f ∷ fs) = ground arith
get_elem?-resolve zero (suc i) (f ∷ fs) = ground arith
get_elem?-resolve (suc w) zero (f ∷ fs) = ground arith
get_elem?-resolve (suc w) (suc i) (f ∷ fs) = ground (arith, get_elem?-resolve w i fs)

pub get_elem?-resolve_all :
    (ws : List ℕ) (fs : List FutureState) (i : ℕ)
    → get_elem? (resolve_all ws fs) i ≡ after_wakeup (elem i ws) (get_elem? fs i)
unfolding resolve_all
get_elem?-resolve_all [] fs i = refl
get_elem?-resolve_all (w ∷ ws) fs i =
    ground (arith, get_elem?-resolve w i fs, get_elem?-resolve_all ws (resolve w fs) i)

pub get_elem?-push :
    (fs : List FutureState) (f : FutureState) (i : ℕ)
    → get_elem? (fs ++ f ∷ []) i ≡ (if i == length fs then some f else get_elem? fs i)
get_elem?-push [] f zero = refl
get_elem?-push [] f (suc i) = ground arith
get_elem?-push (x ∷ fs) f zero = ground arith
get_elem?-push (x ∷ fs) f (suc i) = ground (arith, get_elem?-push fs f i)

-- A write of `cancelled` leaves no new future pending.
get_elem?-set_cancelled :
    (fs : List FutureState) (w i : ℕ)
    → get_elem? (set fs w cancelled) i ≡ some pending
    → get_elem? fs i ≡ some pending
get_elem?-set_cancelled [] w i e = e
get_elem?-set_cancelled (f ∷ fs) zero zero e = cc
get_elem?-set_cancelled (f ∷ fs) zero (suc i) e = e
get_elem?-set_cancelled (f ∷ fs) (suc w) zero e = e
get_elem?-set_cancelled (f ∷ fs) (suc w) (suc i) e = get_elem?-set_cancelled fs w i e

-- A pending future that `task.cancel` reaches is not finished by that.
pub cancel_futures-ne :
    (fs : List FutureState) (w i : ℕ)
    → get_elem? fs i ≡ some pending
    → get_elem? (if is_pending (get_elem? fs w) then set fs w cancelled else fs) i ≢ some finished
cancel_futures-ne [] w i e r = cc
cancel_futures-ne (f ∷ fs) zero zero e r = ground arith
cancel_futures-ne (f ∷ fs) zero (suc i) e r = ground arith
cancel_futures-ne (f ∷ fs) (suc w) zero e r = ground arith
cancel_futures-ne (f ∷ fs) (suc w) (suc i) e r = ground (arith, cancel_futures-ne fs w i e)

pub get_elem?-lt :
    (fs : List FutureState) (i : ℕ) {f : FutureState} → get_elem? fs i ≡ some f → i < length fs
get_elem?-lt [] i e = cc
get_elem?-lt (x ∷ fs) zero e = omega arith
get_elem?-lt (x ∷ fs) (suc i) e = omega (arith, get_elem?-lt fs i e)

-- Every future that is still awaited is on the list of waiters, and the list is empty once the
-- server is closed with no connection left.
pub record WellFormed (s : Server) : Type 0 where
  pub owned : (i : ℕ) → get_elem? s.futures i ≡ some pending → elem i s.waiters ≡ true
  pub settled : s.servers ≡ none → is_nonpos s.active_count ≡ true → s.waiters ≡ []

wakeup-WellFormed : (s : Server) → WellFormed s → WellFormed (wakeup s)
unfolding wakeup
wakeup-WellFormed s v = record {
  owned = λ i e. ground (arith, get_elem?-resolve_all s.waiters s.futures i, v.owned i);
  settled = λ _ _. refl;
}

nonpos_of_suc : (n : ℤ) → is_nonpos (suc_ℤ n) ≡ true → is_nonpos n ≡ true
nonpos_of_suc (pos n) h = cc
nonpos_of_suc (negsuc n) h = refl

attach-WellFormed : (t : Option ℕ) (s : Server) → WellFormed s → WellFormed (attach t s)
unfolding attach
attach-WellFormed none s v = record {
  owned = v.owned;
  settled = λ c n. v.settled c (nonpos_of_suc s.active_count n);
}
attach-WellFormed (some t) s v = record {
  owned = v.owned;
  settled = λ c n. v.settled c (nonpos_of_suc s.active_count n);
}

detach-WellFormed : (t : Option ℕ) (s : Server) → WellFormed s → WellFormed (detach t s)
unfolding detach
detach-WellFormed t s v = record {
  owned = λ i e. ground (arith, get_elem?-resolve_all s.waiters s.futures i, v.owned i);
  settled = λ c n. ground arith;
}

started-WellFormed : (l : Option (List ℕ)) (s : Server) → WellFormed s → WellFormed (started l s)
started-WellFormed none s v = v
started-WellFormed (some l) s v = record { owned = v.owned; settled = v.settled }

module _ (native : Natives) (reliable : NeverFails native close_listener) where
  close-WellFormed : (s : Server) → WellFormed s → WellFormed (close native s).1
  unfolding wakeup
  close-WellFormed s v = record {
    owned = λ i e. ground (
      arith,
      close_lem native s reliable,
      get_elem?-resolve_all s.waiters s.futures i,
      v.owned i,
    );
    settled = λ c n. ground (arith, close_lem native s reliable, v.settled);
  }

  wait_closed-WellFormed : (s : Server) → WellFormed s → WellFormed (wait_closed s).1
  unfolding wait_closed
  wait_closed-WellFormed s v = record {
    owned = λ i e. ground (
      arith,
      get_elem?-push s.futures pending i,
      elem-append i s.waiters (length s.futures ∷ []),
      v.owned i,
    );
    settled = λ c n. ground (arith, v.settled);
  }

  cancel-WellFormed : (w : ℕ) (s : Server) → WellFormed s → WellFormed (cancel w s)
  unfolding cancel
  cancel-WellFormed w s v = record {
    owned = λ i e. ground (arith, get_elem?-set_cancelled s.futures w i, v.owned i);
    settled = v.settled;
  }

  SameBut-WellFormed : (s t : Server) → SameBut s t → WellFormed s → WellFormed t
  SameBut-WellFormed s t e v = rw e (record { owned = v.owned; settled = v.settled })

  step-WellFormed : (s : Server) (e : Event) → WellFormed s → WellFormed (step native s e)
  unfolding step
  step-WellFormed s (Event.attaches t) v = attach-WellFormed t s v
  step-WellFormed s (Event.detaches t) v = detach-WellFormed t s v
  step-WellFormed s Event.waits v = wait_closed-WellFormed s v
  step-WellFormed s Event.closes v = close-WellFormed s v
  step-WellFormed s Event.starts v =
      SameBut-WellFormed (started s.servers s) _ (start_serving-SameBut native s)
        (started-WellFormed s.servers s v)
  step-WellFormed s Event.exits v = elim (aexit_lem native s) [
    | inl e ↦ rw e (close-WellFormed s v)
    | inr e ↦ rw e (wait_closed-WellFormed _ (close-WellFormed s v))
  ]
  step-WellFormed s Event.forever_cancelled v =
      rw serve_forever_cancelled_lem (close-WellFormed s v)
  step-WellFormed s Event.closes_clients v =
      SameBut-WellFormed s _ (ground (arith, close_clients_lem native s)) v
  step-WellFormed s Event.aborts_clients v =
      SameBut-WellFormed s _ (ground (arith, abort_clients_lem native s)) v
  step-WellFormed s Event.reads_sockets v = SameBut-WellFormed s _ (sockets-SameBut native s) v
  step-WellFormed s (Event.cancels w) v = cancel-WellFormed w s v

  run-WellFormed : (s : Server) (es : List Event) → WellFormed s → WellFormed (run native s es)
  unfolding run
  run-WellFormed s [] v = v
  run-WellFormed s (e ∷ es) v = run-WellFormed (step native s e) es (step-WellFormed s e v)

  init-WellFormed :
      (servers : Option (List ℕ)) (serving : Bool) → WellFormed (init native servers serving).1
  unfolding init
  init-WellFormed servers serving =
      SameBut-WellFormed (fresh servers serving) _
        (invoke_all-SameBut native set_server_ref (listeners servers) (fresh servers serving))
        (record { owned = λ i e. cc; settled = λ _ _. refl })

  -- The listeners' `close` does not raise. After any history of a new server: once it is closed and
  -- its count of connections is 0 or less, no future that `wait_closed` made is still pending.
  pub wait_closed_resumes :
      (servers : Option (List ℕ)) (serving : Bool) (es : List Event) (i : ℕ)
      → (from_start native servers serving es).servers ≡ none
      → is_nonpos (from_start native servers serving es).active_count ≡ true
      → get_elem? (from_start native servers serving es).futures i ≢ some pending
  wait_closed_resumes servers serving es i closed gone waits =
      let v = run-WellFormed _ es (init-WellFormed servers serving) in
      ground (arith, v.owned i, v.settled closed gone)
