-- ===== src/Loop/Reporting.antt =====
-- What becomes of an exception that is reported to the handlers of a loop.
use std.Path.{subst}
use talyn.Base.{
  if◌then◌else◌, Bool, sym, ◌∙◌, ap, true, some, Option, append-nil, Option-cases, Bool-cases, ◌≡◌,
  refl, ◌⊎◌, inl, inr, arith, ℕ, false, none, List, [], ◌∷◌, ◌++◌, append_assoc,
}
use talyn.Base.Exec.{◌>>◌, Result, ok, raised}
use talyn.Loop.Handlers.{
  object, error, generator, text, repr_of, log_or_raise, join_lines, first_failure, Key, repr_all,
  is_detail, Value, asyncgen_context, invoke_handler, build_context, not_callable, handler, nothing,
  Keywords, Given, report_asyncgens, get_message, get_exception_handler, set_exception_handler,
  first_line, call_exception_handler_with, call_alone, recover, call_with_loop, get_exception,
  or_log, is_exception, details, default_exception_handler, call_exception_handler, Handlers,
  Handler, Env, Context, Entry, Exn, default, user, with_loop, without_loop, logged,
  wrong_arguments, other_type_error, other_exception, base_exception,
}

pub Handler-cases : (h : Handler) → (h ≡ default) ⊎ ((n : ℕ) × (h ≡ user n))
Handler-cases default = inl refl
Handler-cases (user n) = inr (n, refl)

module _ (env : Env) where
  -- The context of this entry reached someone: a handler that returned, or the log.
  abbrev pub Takes : Context → Entry → Type 0
  Takes c (with_loop h c') = (c' ≡ c) × (env.handle_with_loop h c ≡ none)
  Takes c (without_loop h c') = (c' ≡ c) × (env.handle_alone h c ≡ none)
  Takes c (logged m d x) = (d ≡ details c) × (x ≡ get_exception c)

  -- The last thing that happened between the two states is that the context was taken.
  abbrev pub IsReported : Context → Handlers → Handlers → Type 0
  IsReported c s t =
      (before : List Entry) × (e : Entry) × (t.entries ≡ (s.entries ++ before) ++ e ∷ [])
      × Takes c e

  abbrev IsNoText : Value → Type 0
  IsNoText (text _) = ⊥
  IsNoText _ = Unit {0}

  -- The `repr` of a value of the context, other than its message and its exception, raises this.
  abbrev pub HasBadRepr : Context → Exn → Type 0
  HasBadRepr [] e = ⊥
  HasBadRepr ((k, v) ∷ c) e = ((is_detail k ≡ true) × (env.repr_raises v ≡ some e)) ⊎ HasBadRepr c e

  -- Why the default handler cannot log a context.
  abbrev pub IsUnprintable : Context → Exn → Type 0
  IsUnprintable c e =
      ((e ≡ other_type_error) × (v : Value) × (get_message c ≡ some v) × IsNoText v)
      ⊎ HasBadRepr c e

  -- How a report ends: taken, or a `BaseException` that goes on, or what the default handler raises
  -- of a context that it cannot log.
  abbrev pub Ends : Context → Handlers → Result Exn (Unit {0}) × Handlers → Type 0
  Ends c s (ok _, t) = IsReported c s t
  Ends c s (raised e, t) = (is_exception e ≡ false) ⊎ IsUnprintable c e

  repr_of-raises : (v : Value) (e : Exn) → repr_of env v ≡ some e → env.repr_raises v ≡ some e
  repr_of-raises (text _) e h = absurd cc
  repr_of-raises (generator _) e h = absurd cc
  repr_of-raises (object n) e h = h
  repr_of-raises (error x) e h = h

  repr_detail :
      (k : Key) (v : Value) (c : Context) (e : Exn) (b : Bool)
      → is_detail k ≡ b
      → (repr_all env (details c) ≡ some e → HasBadRepr c e)
      → repr_all env (if b then (k, v) ∷ details c else details c) ≡ some e
      → HasBadRepr ((k, v) ∷ c) e
  unfolding repr_all
  repr_detail k v c e false d ih h = inr (ih h)
  repr_detail k v c e true d ih h = elim (Option-cases (repr_of env v)) [
    | inl n ↦ inr (ih (rw n at h))
    | inr (x, n) ↦ inl (d, repr_of-raises v e (n ∙ (rw n at h)))
  ]

  repr_all-HasBadRepr : (c : Context) (e : Exn) → repr_all env (details c) ≡ some e → HasBadRepr c e
  unfolding repr_all
  repr_all-HasBadRepr [] e h = absurd cc
  repr_all-HasBadRepr ((k, v) ∷ c) e h =
      repr_detail k v c e (is_detail k) refl (repr_all-HasBadRepr c e) h

  join_lines-raises :
      (m : Option Value) (e : Exn)
      → join_lines env (first_line env m) ≡ some e
      → (e ≡ other_type_error) × (v : Value) × (m ≡ some v) × IsNoText v
  join_lines-raises none e h = absurd cc
  join_lines-raises (some (text [])) e h = absurd cc
  join_lines-raises (some (text (b ∷ l))) e h = absurd cc
  join_lines-raises (some (generator n)) e h = (cc, generator n, refl, tt)
  join_lines-raises (some (error x)) e h = (cc, error x, refl, tt)
  join_lines-raises (some (object n)) e h = elim (Bool-cases (env.is_falsy n)) [
    | inl b ↦ absurd (cc (rw b at h))
    | inr b ↦ (cc (rw b at h), object n, refl, tt)
  ]

  failure-IsUnprintable :
      (c : Context) (r : Option Exn) (e : Exn)
      → repr_all env (details c) ≡ r
      → first_failure env r (join_lines env (first_line env (get_message c))) ≡ some e
      → IsUnprintable c e
  failure-IsUnprintable c none e h f = inl (join_lines-raises (get_message c) e f)
  failure-IsUnprintable c (some x) e h f = inr (repr_all-HasBadRepr c e (h ∙ f))

  log_or_raise-Ends :
      (c : Context) (s : Handlers) (before : List Entry) (m : Value) (f : Option Exn)
      → ((e : Exn) → f ≡ some e → IsUnprintable c e)
      → Ends c s (
          log_or_raise env
            (logged m (details c) (get_exception c))
            f
            (record s { entries = s.entries ++ before }))
  log_or_raise-Ends c s before m none h = (before, _, refl, (refl, refl))
  log_or_raise-Ends c s before m (some e) h = inr (h e refl)

  log-Ends :
      (c : Context) (s : Handlers) (before : List Entry)
      → Ends c s (default_exception_handler env c (record s { entries = s.entries ++ before }))
  unfolding default_exception_handler
  log-Ends c s before =
      log_or_raise-Ends c s before _ _
        (λ e. failure-IsUnprintable c (repr_all env (details c)) e refl)

  or_log-Ends :
      (c : Context) (s : Handlers) (before : List Entry) (e : Exn)
      → Ends c s (or_log env c e (record s { entries = s.entries ++ before }))
  unfolding or_log
  or_log-Ends c s before e = elim (Bool-cases (is_exception e)) [
    | inl x ↦ rw x (log-Ends c s before)
    | inr x ↦ rw x (inl x)
  ]

  alone-Ends :
      (c : Context) (s : Handlers) (h : ℕ)
      → Ends c s
          (recover env h c wrong_arguments (record s { entries = s.entries ++ with_loop h c ∷ [] }))
  unfolding recover call_alone
  alone-Ends c s h = elim (Option-cases (env.handle_alone h c)) [
    | inl e ↦ rw e (with_loop h c ∷ [], without_loop h c, refl, (refl, e))
    | inr (x, e) ↦ rw (e, append_assoc) (or_log-Ends c s (with_loop h c ∷ without_loop h c ∷ []) x)
  ]

  recover-Ends :
      (c : Context) (s : Handlers) (h : ℕ) (e : Exn)
      → Ends c s (recover env h c e (record s { entries = s.entries ++ with_loop h c ∷ [] }))
  unfolding recover
  recover-Ends c s h wrong_arguments = alone-Ends c s h
  recover-Ends c s h other_type_error = log-Ends c s (with_loop h c ∷ [])
  recover-Ends c s h (other_exception n) = or_log-Ends c s (with_loop h c ∷ []) (other_exception n)
  recover-Ends c s h (base_exception n) = or_log-Ends c s (with_loop h c ∷ []) (base_exception n)

  call-cases :
      (c : Context) (s : Handlers)
      → (call_exception_handler env c s ≡ default_exception_handler env c s)
        ⊎ ((h : ℕ) × (env.handle_with_loop h c ≡ none)
            × (call_exception_handler env c s
                ≡ (ok tt, record s { entries = s.entries ++ with_loop h c ∷ [] })))
        ⊎ ((h : ℕ) × (e : Exn) × (call_exception_handler env c s
              ≡ recover env h c e (record s { entries = s.entries ++ with_loop h c ∷ [] })))
  unfolding call_exception_handler call_with_loop
  call-cases c s = elim (Handler-cases s.exception_handler) [
    | inl e ↦ inl (ground arith)
    | inr (h, e) ↦ elim (Option-cases (env.handle_with_loop h c)) [
      | inl n ↦ inr (inl (h, n, ground arith))
      | inr (x, n) ↦ inr (inr (h, x, ground arith))
    ]
  ]

  default-Ends : (c : Context) (s : Handlers) → Ends c s (default_exception_handler env c s)
  default-Ends c s =
      subst (λ es. Ends c s (default_exception_handler env c (record s { entries = es })))
        (append-nil s.entries) (log-Ends c s [])

  -- `call_exception_handler` with any handler, whatever that raises and whichever arguments it
  -- takes: the last thing done is that a handler took the context and returned or that the default
  -- handler logged it; or what goes on is a `BaseException` that is no Exception, or what the
  -- default handler raises of a context that it cannot log: the TypeError for a message that is no
  -- text, or what the repr of another of its values raises.
  pub call_exception_handler-Ends :
      (c : Context) (s : Handlers) → Ends c s (call_exception_handler env c s)
  call_exception_handler-Ends c s = elim (call-cases c s) [
    | inl e ↦ rw e (default-Ends c s)
    | inr (inl (h, n, e)) ↦ rw e ([], with_loop h c, rw append-nil, (refl, n))
    | inr (inr (h, x, e)) ↦ rw e (recover-Ends c s h x)
  ]

  invoke-user :
      (h : ℕ) (c : Context) (s : Handlers) (x : Exn)
      → s.exception_handler ≡ user h
      → env.handle_alone h c ≡ some x
      → invoke_handler env c s
        ≡ (raised x, record s { entries = s.entries ++ without_loop h c ∷ [] })
  unfolding invoke_handler call_alone
  invoke-user h c s x u a = ground arith

  -- A call whose outcome is known, then the rest of the loop.
  abbrev pub go_on :
      List (ℕ × Option Exn)
      → Handlers
      → Result Exn (Unit {0}) × Handlers
      → Result Exn (Unit {0}) × Handlers
  go_on rest s p = (do (λ _. p); report_asyncgens env rest) s

  report-user :
      (h g : ℕ) (x : Exn) (rest : List (ℕ × Option Exn)) (s : Handlers) (y : Exn)
      → is_exception x ≡ true
      → s.exception_handler ≡ user h
      → env.handle_alone h (asyncgen_context env g x) ≡ some y
      → let c = asyncgen_context env g x in
        report_asyncgens env ((g, some x) ∷ rest) s
        ≡ (raised y, record s { entries = s.entries ++ without_loop h c ∷ [] })
  unfolding report_asyncgens
  report-user h g x rest s y b u a =
      rw b (ap (go_on rest s) (invoke-user h (asyncgen_context env g x) s y u a))

  -- A handler of the user with the parameters (loop, context), called by
  -- `_call_exception_handler` or `shutdown_asyncgens`, makes them raise its `TypeError`, though
  -- `call_exception_handler` calls it as it is meant; the errors of later generators are not reported.
  pub two_parameters_fail :
      (h g : ℕ) (e x : Exn) (k : Keywords) (c : Context) (rest : List (ℕ × Option Exn))
      (s : Handlers)
      → s.exception_handler ≡ user h
      → ((c' : Context) → env.handle_alone h c' ≡ some wrong_arguments)
      → env.handle_with_loop h c ≡ none
      → is_exception x ≡ true
      → ((call_exception_handler env c s).0 ≡ ok tt)
        × ((call_exception_handler_with env e k s).0 ≡ raised wrong_arguments)
        × ((report_asyncgens env ((g, some x) ∷ rest) s).0 ≡ raised wrong_arguments)
        × (report_asyncgens env ((g, some x) ∷ rest) s ≡ report_asyncgens env ((g, some x) ∷ []) s)
  unfolding call_exception_handler call_with_loop call_exception_handler_with report_asyncgens
  two_parameters_fail h g e x k c rest s u a w b = (
    ground arith,
    rw (invoke-user h (build_context e k) s wrong_arguments u (a _)) refl,
    ap (λ r. r.0) (report-user h g x rest s wrong_arguments b u (a _)),
    report-user h g x rest s wrong_arguments b u (a _)
        ∙ sym (report-user h g x [] s wrong_arguments b u (a _)),
  )

-- What `set_exception_handler` was given is what `get_exception_handler` returns, until it is called
-- again: none for None; and a value that is not callable is refused and changes nothing.
pub set_exception_handler-get :
    (given : Given) (s : Handlers)
    → let (r, t) = set_exception_handler given s in
      (given ≡ nothing
        × r ≡ ok tt
        × get_exception_handler t ≡ (ok none, t)
        × t.exception_handler ≡ default)
      ⊎ ((h : Handler) × (given ≡ handler h)
          × (r ≡ ok tt)
          × (get_exception_handler t ≡ (ok (some h), t))
          × (t.exception_handler ≡ h))
      ⊎ (given ≡ not_callable × r ≡ raised other_type_error × t ≡ s)
unfolding set_exception_handler get_exception_handler
set_exception_handler-get nothing s = ground arith
set_exception_handler-get (handler h) s = ground arith
set_exception_handler-get not_callable s = ground arith
