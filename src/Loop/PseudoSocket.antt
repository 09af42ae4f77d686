-- ===== src/Loop/PseudoSocket.antt =====
-- `class PseudoSocket` of talyn/loop.py, the stand-in for the socket of a transport, and the file
-- descriptors of the process.
use talyn.Base.{
  ◌∙◌, ap, none, some, ==_refl, ==_refl, arith, false, ◌≡◌, [], ◌∷◌, Option, ℕ, List, Bool, discard,
  elem, refl,
}
use talyn.Base.Exec.{◌>>=◌, raised, modify, pure, ok, Result, Exec}

pub record PseudoSocket : Type 0 where
  pub fd : ℕ
  pub family : ℕ
  pub kind : ℕ
  pub proto : ℕ

-- `proto=0`
unfoldable pub new_socket : ℕ → ℕ → ℕ → Option ℕ → PseudoSocket
new_socket fd family kind proto = record {
  fd = fd;
  family = family;
  kind = kind;
  proto = elim proto [ none ↦ 0 | some p ↦ p ];
}

-- The open file descriptors; exceptions are numbers.
abbrev pub Action : Type 0 → Type 0
Action A = Exec (List ℕ) ℕ A

-- What the operating system answers: `socket.fromfd` the number of a duplicate, among the open ones
-- given, and the two questions an address.
pub record Os : Type 0 where
  pub duplicate : List ℕ → ℕ → ℕ → ℕ → Result ℕ ℕ
  pub sockname : ℕ → Result ℕ ℕ
  pub peername : ℕ → Result ℕ ℕ

pub data Request : Type 0 where
  asks_sockname asks_peername closes : Request
  sets_blocking : Bool → Request

-- `try: return m finally: k`
abbrev pub finally : {A : Type 0} → Action A → Action (Unit {0}) → Action A
finally m k s =
    let (r, t) = m s in let (c, u) = k t in elim c [ ok _ ↦ (r, u) | raised e ↦ (raised e, u) ]

abbrev pub opened : Result ℕ ℕ → Action ℕ
opened (ok fd) fds = (ok fd, fd ∷ fds)
opened (raised e) fds = (raised e, fds)

abbrev pub close_duplicate : ℕ → Action (Unit {0})
close_duplicate fd = modify (discard fd)

module _ (os : Os) where
  unfoldable pub fromfd : PseudoSocket → Action ℕ
  fromfd p fds = opened (os.duplicate fds p.fd p.family p.kind) fds

  unfoldable pub getsockname : PseudoSocket → Action ℕ
  unfolding fromfd
  getsockname p = do tmp ← fromfd p; finally (λ fds. (os.sockname tmp, fds)) (close_duplicate tmp)

  unfoldable pub getpeername : PseudoSocket → Action ℕ
  unfolding fromfd
  getpeername p = do tmp ← fromfd p; finally (λ fds. (os.peername tmp, fds)) (close_duplicate tmp)

  -- `setblocking` and `close` do nothing: the descriptor belongs to the transport.
  unfoldable pub setblocking : PseudoSocket → Bool → Action (Unit {0})
  setblocking p blocking = pure tt

  unfoldable pub close : PseudoSocket → Action (Unit {0})
  close p = pure tt

  -- A method call, after which only the open descriptors count.
  unfoldable pub step : PseudoSocket → Request → List ℕ → List ℕ
  unfolding getsockname getpeername setblocking close
  step p asks_sockname fds = (getsockname p fds).1
  step p asks_peername fds = (getpeername p fds).1
  step p (sets_blocking b) fds = (setblocking p b fds).1
  step p closes fds = (close p fds).1

  unfoldable pub run : PseudoSocket → List Request → List ℕ → List ℕ
  unfolding step
  run p [] fds = fds
  run p (q ∷ qs) fds = run p qs (step p q fds)

discard-absent : (a : ℕ) (xs : List ℕ) → elem a xs ≡ false → discard a xs ≡ xs
discard-absent a [] h = refl
discard-absent a (x ∷ xs) h = ground (arith, discard-absent a xs)

pub discard-duplicate : (a : ℕ) (xs : List ℕ) → elem a xs ≡ false → discard a (a ∷ xs) ≡ xs
discard-duplicate a xs h = ground (arith, discard-absent a xs h, ==_refl a)

module _ (os : Os)
    (unused : (fds : List ℕ) (a b c fd : ℕ)
      → os.duplicate fds a b c ≡ ok fd
      → elem fd fds ≡ false) where
  asked-same :
      (answer : Result ℕ ℕ) (question : ℕ → Result ℕ ℕ) (fds : List ℕ)
      → ((fd : ℕ) → answer ≡ ok fd → elem fd fds ≡ false)
      → (opened answer >>= λ tmp. finally (λ u. (question tmp, u)) (close_duplicate tmp)) fds
        ≡ (elim answer [ ok fd ↦ question fd | raised e ↦ raised e ], fds)
  asked-same (ok fd) question fds h =
      ap (λ l. (question fd, l)) (discard-duplicate fd fds (h fd refl))
  asked-same (raised e) question fds h = refl

  step-same : (p : PseudoSocket) (q : Request) (fds : List ℕ) → step os p q fds ≡ fds
  unfolding step getsockname getpeername setblocking close fromfd
  step-same p asks_sockname fds =
      ap (λ r. r.1)
        (asked-same (os.duplicate fds p.fd p.family p.kind) os.sockname fds
          (unused fds p.fd p.family p.kind))
  step-same p asks_peername fds =
      ap (λ r. r.1)
        (asked-same (os.duplicate fds p.fd p.family p.kind) os.peername fds
          (unused fds p.fd p.family p.kind))
  step-same p (sets_blocking b) fds = refl
  step-same p closes fds = refl

  -- If `socket.fromfd` gives descriptors that are not open: over any sequence of calls of the methods
  -- of a `PseudoSocket`, whatever the operating system answers, the descriptors of the process
  -- that are open at the end are those that were open at first. No duplicate stays open, and the
  -- descriptor of the transport is not closed.
  pub run-leaves : (p : PseudoSocket) (qs : List Request) (fds : List ℕ) → run os p qs fds ≡ fds
  unfolding run
  run-leaves p [] fds = refl
  run-leaves p (q ∷ qs) fds = run-leaves p qs (step os p q fds) ∙ step-same p q fds
