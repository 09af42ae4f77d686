-- ===== src/Subprocess/Pipes.antt =====
-- The arguments of `subprocess_shell` and `subprocess_exec`, and the pipe transports and exit waiters
-- of a child.
use talyn.Base.{
  elem, Option-cases, Bool-cases, ==_refl, if◌then◌else◌, suc, zero, ◌≡◌, ◌≢◌, ◌↔◌, refl, ◌∙◌, ◌⊎◌,
  inl, inr, arith, ℕ, Bool, true, false, Option, none, some, List, [], ◌∷◌, get_elem?, ◌<◌,
}
use talyn.Base.Exec.{Result}
use talyn.Base.Int.{ℤ, pos, negsuc}
use talyn.Subprocess.Command.{is_zero, shell_error, ShellArgs}
use talyn.Subprocess.Wrapper.{
  new_child, make_own, exit_code, connection_made, ask_all, cancelled, lookup, has_file, make_pipe,
  get_pipe_transport, Child, Waiter, Open, pending, returned, close, connection_lost, resolve_all,
}

is_zero_lem : (b : ℤ) → is_zero b ≡ true → b ≡ pos 0
is_zero_lem (pos zero) h = refl
is_zero_lem (pos (suc n)) h = absurd cc
is_zero_lem (negsuc n) h = absurd cc

-- `subprocess_shell` goes on exactly if the command is a text, `shell` holds, the buffer size is 0,
-- and none of the options of text mode is set.
pub shell_error_iff :
    (a : ShellArgs)
    → (shell_error a ≡ none) ↔ (
        (a.is_text ≡ true)
        × (a.universal_newlines ≡ false)
        × (a.shell ≡ true)
        × (a.bufsize ≡ pos 0)
        × (a.text ≡ false)
        × (a.encoding ≡ none)
        × (a.errors ≡ none))
unfolding shell_error
shell_error_iff a = (
  λ h. ground (arith, is_zero_lem a.bufsize, Option-cases a.encoding, Option-cases a.errors),
  λ h. ground arith,
)

module _ (is_open : Open) where
  -- A second `get_pipe_transport` for a descriptor gives what the first gave, and makes nothing.
  pub get_pipe_transport_twice :
      (fd : ℕ) (s : Child)
      → let (t, s') = get_pipe_transport is_open fd s in get_pipe_transport is_open fd s' ≡ (t, s')
  unfolding get_pipe_transport make_pipe
  get_pipe_transport_twice fd s = elim (Option-cases (lookup fd s.pipes)) [
    | inr (t, e) ↦ ground arith
    | inl e ↦ elim (Option-cases (lookup fd s.cached)) [
      | inr (t, f) ↦ ground arith
      | inl f ↦ elim (Bool-cases (has_file is_open fd)) [
        | inl g ↦ ground (arith, ==_refl fd)
        | inr g ↦ ground arith
      ]
    ]
  ]

  -- The transports made on demand are different ones, and their numbers are taken.
  abbrev pub IsInjective : Child → Type 0
  IsInjective s =
      ((fd t : ℕ) → lookup fd s.cached ≡ some t → t < s.made)
      × ((fd fd' t : ℕ) → lookup fd s.cached ≡ some t → lookup fd' s.cached ≡ some t → fd ≡ fd')

  ask-cases :
      (fd : ℕ) (s : Child)
      → let s' = (get_pipe_transport is_open fd s).1 in
        (s' ≡ s)
        ⊎ ((lookup fd s.cached ≡ none)
            × (s' ≡ record s { cached = (fd, s.made) ∷ s.cached; made = suc s.made }))
  unfolding get_pipe_transport make_pipe
  ask-cases fd s =
      ground (arith, Option-cases (lookup fd s.pipes), Option-cases (lookup fd s.cached))

  ask-IsInjective :
      (fd : ℕ) (s : Child) → IsInjective s → IsInjective (get_pipe_transport is_open fd s).1
  ask-IsInjective fd s (b, i) = elim (ask-cases fd s) [
    | inl e ↦ rw e (b, i)
    | inr (n, e) ↦
        rw e (λ k t h. ground (arith, b k t), λ k l t h h'. ground (arith, i k l t, b k t, b l t))
  ]

  ask_all-IsInjective :
      (fds : List ℕ) (s : Child) → IsInjective s → IsInjective (ask_all is_open fds s)
  unfolding ask_all
  ask_all-IsInjective [] s h = h
  ask_all-IsInjective (fd ∷ fds) s h = ask_all-IsInjective fds _ (ask-IsInjective fd s h)

  ask-lookup :
      (fd t : ℕ) (s : Child)
      → s.pipes ≡ []
      → (get_pipe_transport is_open fd s).0 ≡ some t
      → (lookup fd (get_pipe_transport is_open fd s).1.cached ≡ some t)
        × ((get_pipe_transport is_open fd s).1.pipes ≡ [])
  unfolding get_pipe_transport make_pipe
  ask-lookup fd t s p h =
      ground
        (arith, Option-cases (lookup fd s.cached), Bool-cases (has_file is_open fd), ==_refl fd)

  ask-keeps :
      (fd k t : ℕ) (s : Child)
      → lookup k s.cached ≡ some t
      → lookup k (get_pipe_transport is_open fd s).1.cached ≡ some t
  ask-keeps fd k t s h = elim (ask-cases fd s) [ inl e ↦ rw e h | inr (n, e) ↦ rw e (ground arith) ]

  ask_all-pipes : (fds : List ℕ) (s : Child) → (ask_all is_open fds s).pipes ≡ s.pipes
  unfolding ask_all get_pipe_transport make_pipe
  ask_all-pipes [] s = refl
  ask_all-pipes (fd ∷ fds) s = ask_all-pipes fds _ ∙ ground (arith, ask-cases fd s)

  -- Where no pipe transport was made beforehand, and after any calls of `get_pipe_transport`, two
  -- calls that give the same transport were for the same descriptor.
  pub get_pipe_transport_distinct :
      (asks : List ℕ) (made fd fd' t : ℕ)
      → (get_pipe_transport is_open fd (ask_all is_open asks (new_child [] made))).0 ≡ some t
      → (get_pipe_transport is_open fd'
          (get_pipe_transport is_open fd (ask_all is_open asks (new_child [] made))).1).0
        ≡ some t
      → fd ≡ fd'
  get_pipe_transport_distinct asks made fd fd' t h h' =
      let start = new_child [] made in
      let s = ask_all is_open asks start in
      let s' = (get_pipe_transport is_open fd s).1 in
      let (l, p) = ask-lookup fd t s (ask_all-pipes asks start) h in
      let (l', p') = ask-lookup fd' t s' p h' in
      let first = ask_all-IsInjective asks start (λ k t e. absurd cc, λ k k' t e. absurd cc) in
      let (b, i) = ask-IsInjective fd' s' (ask-IsInjective fd s first) in
      i fd fd' t (ask-keeps fd' fd t s' l) l'

abbrev is_pending : Option Waiter → Bool
is_pending (some pending) = true
is_pending _ = false

resolve_all-lookup :
    (rc : ℤ) (ws : List Waiter) (i : ℕ)
    → get_elem? (resolve_all rc ws) i
      ≡ (if is_pending (get_elem? ws i) then some (returned rc) else get_elem? ws i)
unfolding resolve_all
resolve_all-lookup rc [] i = refl
resolve_all-lookup rc (pending ∷ ws) zero = refl
resolve_all-lookup rc (cancelled ∷ ws) zero = refl
resolve_all-lookup rc (returned x ∷ ws) zero = refl
resolve_all-lookup rc (pending ∷ ws) (suc i) = resolve_all-lookup rc ws i
resolve_all-lookup rc (cancelled ∷ ws) (suc i) = resolve_all-lookup rc ws i
resolve_all-lookup rc (returned x ∷ ws) (suc i) = resolve_all-lookup rc ws i

-- When the child's connection is lost, every pending exit waiter gets the exit code, or -1 if there
-- is none, the others stay as they are, and none is pending, whether or not the user's own
-- `connection_lost` raises, which is raised again.
pub connection_lost_wakes :
    (user : Result ℕ (Unit {0})) (code : Result ℕ (Option ℤ)) (s : Child) (i : ℕ)
    → let (r, t) = connection_lost user code s in
      (r ≡ user)
      × (get_elem? t.exit_waiters i ≢ some pending)
      × (get_elem? s.exit_waiters i ≡ some pending
          → get_elem? t.exit_waiters i ≡ some (returned (exit_code code)))
unfolding connection_lost
connection_lost_wakes user code s i = (
  refl,
  λ e. ground (arith, resolve_all-lookup (exit_code code) s.exit_waiters i),
  λ e. ground (arith, resolve_all-lookup (exit_code code) s.exit_waiters i),
)

-- For a protocol that is not a stream protocol, the transport that `get_pipe_transport` gives for a
-- pipe of the child is a second one for that file, and `close` does not close it.
pub close_misses_pipe :
    (is_open : Open) (fd : ℕ)
    → has_file is_open fd ≡ true
    → let s = connection_made is_open false [] (new_child [] 0) in
      let (t, s') = get_pipe_transport is_open fd s in
      (t ≡ some s.made) × (elem s.made s'.own ≡ false) × (elem s.made (close s').closed ≡ false)
unfolding connection_made make_own ask_all get_pipe_transport make_pipe close
close_misses_pipe is_open zero h = ground arith
close_misses_pipe is_open (suc zero) h = ground arith
close_misses_pipe is_open (suc (suc zero)) h = ground arith
close_misses_pipe is_open (suc (suc (suc fd))) h = absurd cc
