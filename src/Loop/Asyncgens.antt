-- ===== src/Loop/Asyncgens.antt =====
-- `shutdown_asyncgens` of `class Loop`, talyn/loop.py. What closing a generator comes to, as `gather`
-- returns it, is an argument, and so is what the rest of the program does while `gather` waits.
use talyn.Loop.Reporting.{go_on, Handler-cases}
use talyn.Base.Exec.{Exec, ok}
use talyn.Base.{
  append_assoc, ◌∙◌, ap, Bool-cases, true, Option-cases, refl, arith, inr, inl, if◌then◌else◌, some,
  append-nil, [], ◌∷◌, ◌++◌, none, map, Option, ◌≡◌, ℕ, List,
}
use talyn.Loop.Handlers.{
  text, repr_all, join_lines, Handlers, Env, Exn, Handler, Entry, Context, default, user, logged,
  without_loop, first_line, is_exception, get_message, details, get_exception, asyncgen_context,
  report_asyncgens, invoke_handler, call_alone, default_exception_handler,
}

pub record Generators : Type 0 where
  pub handlers : Handlers
  -- `_asyncgens`, in the order in which the set is gone through
  pub asyncgens : List ℕ

-- `asyncio.gather(..., return_exceptions=True)` over the generators, and `zip` with them
unfoldable pub gather : (ℕ → Option Exn) → List ℕ → List (ℕ × Option Exn)
gather aclose [] = []
gather aclose (g ∷ gs) = (g, aclose g) ∷ gather aclose gs

module _ (env : Env) (aclose : ℕ → Option Exn) (meanwhile : Generators → Generators) where
  unfoldable pub shutdown_asyncgens : Exec Generators Exn (Unit {0})
  unfolding gather report_asyncgens
  shutdown_asyncgens s =
      let t = meanwhile (record s { asyncgens = [] }) in
      let (r, h) = report_asyncgens env (gather aclose s.asyncgens) t.handlers in
      (r, record t { handlers = h })

abbrev add_failure : ℕ → Option Exn → List (ℕ × Exn) → List (ℕ × Exn)
add_failure g none rest = rest
add_failure g (some e) rest = if is_exception e then (g, e) ∷ rest else rest

-- The generators whose closing failed with an `Exception`, and the exceptions.
pub failures : (ℕ → Option Exn) → List ℕ → List (ℕ × Exn)
failures aclose [] = []
failures aclose (g ∷ gs) = add_failure g (aclose g) (failures aclose gs)

module _ (env : Env) where
  -- What a handler that takes a context leaves behind.
  abbrev pub entry : Handler → Context → Entry
  entry default c = logged (first_line env (get_message c)) (details c) (get_exception c)
  entry (user h) c = without_loop h c

  -- The handler returns whatever context it is given.
  abbrev pub Returns : Handler → Type 0
  Returns default = Unit {0}
  Returns (user h) = (c : Context) → env.handle_alone h c ≡ none

  abbrev pub reports : Handler → List (ℕ × Exn) → List Entry
  reports h fs = map (λ f. entry h (asyncgen_context env f.0 f.1)) fs

  -- A message of the code itself is a text.
  join_lines-text : (t : List ℕ) → join_lines env (first_line env (some (text t))) ≡ none
  join_lines-text [] = refl
  join_lines-text (b ∷ t) = refl

  logs :
      (g : ℕ) (e : Exn) (s : Handlers)
      → default_exception_handler env (asyncgen_context env g e) s
        ≡ (ok tt, record s { entries = s.entries ++ entry default (asyncgen_context env g e) ∷ [] })
  unfolding default_exception_handler repr_all
  logs g e s = rw (join_lines-text (env.closing_text g)) refl

  invoke-Returns :
      (g : ℕ) (e : Exn) (s : Handlers)
      → Returns s.exception_handler
      → let c = asyncgen_context env g e in
        invoke_handler env c s
        ≡ (ok tt, record s { entries = s.entries ++ entry s.exception_handler c ∷ [] })
  unfolding invoke_handler call_alone
  invoke-Returns g e s r = elim (Handler-cases s.exception_handler) [
    | inl d ↦ rw d (logs g e (record s { exception_handler = default }))
    | inr (h, u) ↦ ground (arith, (rw u at r) (asyncgen_context env g e))
  ]

  abbrev noted : Handlers → ℕ → Exn → Handlers
  noted s g e = record s {
    entries = s.entries ++ entry s.exception_handler (asyncgen_context env g e) ∷ [];
  }

  report-cons :
      (g : ℕ) (e : Exn) (rest : List (ℕ × Option Exn)) (s : Handlers)
      → Returns s.exception_handler
      → is_exception e ≡ true
      → report_asyncgens env ((g, some e) ∷ rest) s
        ≡ report_asyncgens env rest (record s {
          entries = s.entries ++ entry s.exception_handler (asyncgen_context env g e) ∷ [];
        })
  unfolding report_asyncgens
  report-cons g e rest s r x = rw x (ap (go_on env rest s) (invoke-Returns g e s r))

  report_all :
      (aclose : ℕ → Option Exn) (gs : List ℕ) (s : Handlers)
      → Returns s.exception_handler
      → report_asyncgens env (gather aclose gs) s ≡ (
        ok tt,
        record s { entries = s.entries ++ reports s.exception_handler (failures aclose gs) },
      )
  unfolding gather report_asyncgens failures
  report_all aclose [] s r = rw append-nil refl
  report_all aclose (g ∷ gs) s r = elim (Option-cases (aclose g)) [
    | inl e ↦ rw e (report_all aclose gs s r)
    | inr (x, e) ↦ elim (Bool-cases (is_exception x)) [
      | inl y ↦ rw e (
          report-cons g x (gather aclose gs) s r y
          ∙ report_all aclose gs (noted s g x) r
          ∙ ap (λ es. (ok tt, record s { entries = es })) (rw (y, append_assoc) refl))
      | inr y ↦ rw (e, y) (report_all aclose gs s r)
    ]
  ]

  -- If the exception handler returns whatever it is given: `shutdown_asyncgens` returns, and has
  -- reported to it each generator whose closing failed with an `Exception`, once and in order; the
  -- loop's set of generators holds only what was added while the closing went on.
  pub shutdown_asyncgens-reports :
      (aclose : ℕ → Option Exn) (meanwhile : Generators → Generators) (s : Generators)
      → Returns (meanwhile (record s { asyncgens = [] })).handlers.exception_handler
      → let t = meanwhile (record s { asyncgens = [] }) in
        shutdown_asyncgens env aclose meanwhile s ≡ (
          ok tt,
          record {
            handlers = record t.handlers {
              entries =
                  t.handlers.entries
                  ++ reports t.handlers.exception_handler (failures aclose s.asyncgens);
            };
            asyncgens = t.asyncgens;
          },
        )
  unfolding shutdown_asyncgens
  shutdown_asyncgens-reports aclose meanwhile s r =
      rw (report_all aclose s.asyncgens (meanwhile (record s { asyncgens = [] })).handlers r) refl
