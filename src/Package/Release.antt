-- ===== src/Package/Release.antt =====
-- Releases that talyn/__init__.py reads: a printed version number and what it makes of it.
use talyn.Base.Text.{Text}
use talyn.Base.Exec.{raised, ok, Result}
use talyn.Ssl.Bio.{is_empty}
use talyn.Base.{
  inr, inl, ◌≢◌, ◌⊎◌, some, length, ◌%◌, ltb, ◌&&◌, if◌then◌else◌, ◌≤◌, ◌/◌, ◌-◌, Bool, refl, true,
  false, [], ◌∷◌, ℕ, suc, zero, ◌≡◌, ◌++◌, ◌*◌, ◌+◌, arith,
}
use talyn.Package.{
  ignore, value_error, attribute_error, runtime_error, parse_groups, Exn, parse, check_release,
  match_release, int_of, install, dot, digits, is_digit, value_from,
}

-- A number in decimal, as the kernel prints it; the fuel `n` is more than its digits.
unfoldable pub show_within : ℕ → ℕ → Text
show_within zero n = (b'0' + n) ∷ []
show_within (suc fuel) n =
    let more = show_within fuel (n / 10) in
    if ltb n 10 then (b'0' + n) ∷ [] else more ++ (b'0' + n % 10) ∷ []

unfoldable pub show : ℕ → Text
unfolding show_within
show n = show_within n n

abbrev all_digits : Text → Bool
all_digits [] = true
all_digits (c ∷ s) = is_digit c && all_digits s

all_digits-append :
    (a b : Text) → all_digits a ≡ true → all_digits b ≡ true → all_digits (a ++ b) ≡ true
all_digits-append [] b h g = g
all_digits-append (c ∷ a) b h g = ground (arith, all_digits-append a b)

value_from-snoc :
    (n c : ℕ) (s : Text) → value_from n (s ++ c ∷ []) ≡ value_from n s * 10 + (c - b'0')
unfolding value_from
value_from-snoc n c [] = refl
value_from-snoc n c (d ∷ s) = value_from-snoc (n * 10 + (d - b'0')) c s

value_from-show : (fuel n : ℕ) → n ≤ fuel → value_from 0 (show_within fuel n) ≡ n
unfolding show_within value_from
value_from-show zero n h = ground arith
value_from-show (suc fuel) n h = ground (
  arith,
  value_from-snoc 0 (b'0' + n % 10) (show_within fuel (n / 10)),
  value_from-show fuel (n / 10),
)

all_digits-show : (fuel n : ℕ) → n ≤ fuel → all_digits (show_within fuel n) ≡ true
unfolding show_within
all_digits-show zero n h = ground arith
all_digits-show (suc fuel) n h = ground (
  arith,
  all_digits-append (show_within fuel (n / 10)) ((b'0' + n % 10) ∷ []),
  all_digits-show fuel (n / 10),
)

is_empty-snoc : (s : Text) (c : ℕ) → is_empty (s ++ c ∷ []) ≡ false
is_empty-snoc [] c = refl
is_empty-snoc (_ ∷ s) c = refl

show_within_cons : (fuel n : ℕ) → is_empty (show_within fuel n) ≡ false
unfolding show_within
show_within_cons zero n = refl
show_within_cons (suc fuel) n =
    ground (arith, is_empty-snoc (show_within fuel (n / 10)) (b'0' + n % 10))

-- The digits at the front are all of `a` if what follows starts with no digit.
digits-append :
    (a rest : Text)
    → all_digits a ≡ true
    → digits rest ≡ ([], rest)
    → digits (a ++ rest) ≡ (a, rest)
unfolding digits
digits-append [] rest h g = g
digits-append (c ∷ a) rest h g = ground (arith, digits-append a rest)

-- `M.N` and what follows, as in `6.8.0-41-generic`
abbrev pub release_text : ℕ → ℕ → Text → Text
release_text major minor rest = show major ++ dot ∷ (show minor ++ rest)

groups-release :
    (major minor : ℕ) (rest : Text)
    → digits rest ≡ ([], rest)
    → match_release (release_text major minor rest) ≡ some (show major, show minor)
unfolding match_release show
groups-release major minor rest h =
    rw
      (
        digits-append (show major) (dot ∷ (show minor ++ rest))
            (all_digits-show major major (omega arith)) (unfold digits in refl),
        show_within_cons major major,
        digits-append (show minor) rest (all_digits-show minor minor (omega arith)) h,
        show_within_cons minor minor,
      )
      refl

int_of-show : (n : ℕ) → length (show n) ≤ 4300 → int_of (show n) ≡ ok n
unfolding int_of show
int_of-show n h = ground (arith, value_from-show n n (omega arith))

-- A printed version number, with anything after it that starts with no digit, is read back, if its
-- numbers are not longer than `int` allows.
pub parse-release :
    (major minor : ℕ) (rest : Text)
    → digits rest ≡ ([], rest)
    → length (show major) ≤ 4300
    → length (show minor) ≤ 4300
    → parse (release_text major minor rest) ≡ some (ok (major, minor))
unfolding parse parse_groups
parse-release major minor rest h a b =
    ground (arith, groups-release major minor rest h, int_of-show major a, int_of-show minor b)

-- On such a release `install` refuses with RuntimeError, and sets no policy, exactly if the major
-- number is below 6; else it sets the policy.
pub install-release :
    (major minor : ℕ) (rest : Text) (set : Bool)
    → digits rest ≡ ([], rest)
    → length (show major) ≤ 4300
    → length (show minor) ≤ 4300
    → install true (ok (release_text major minor rest)) set
      ≡ (if ltb major 6 then (raised runtime_error, set) else (ok tt, true))
unfolding install check_release
install-release major minor rest set h a b = ground (arith, parse-release major minor rest h a b)

-- What is not caught.
abbrev IsIgnored : Result Exn (Unit {0}) → Type 0
IsIgnored r =
    (ignore r ≡ ok tt)
    ⊎ ((e : Exn) × (ignore r ≡ raised e) × (e ≢ attribute_error) × (e ≢ value_error))

ignore-IsIgnored : (r : Result Exn (Unit {0})) → IsIgnored r
ignore-IsIgnored (ok _) = inl refl
ignore-IsIgnored (raised attribute_error) = inl refl
ignore-IsIgnored (raised value_error) = inl refl
ignore-IsIgnored (raised e) = inr (e, refl, λ h. cc, λ h. cc)

-- Whatever the system says of its release: `install` sets the policy and returns, or leaves the
-- policy as it was and raises an exception that is no AttributeError and no ValueError; and on a
-- system that is not POSIX it returns.
pub install_sets_or_raises :
    (posix : Bool) (uname : Result Exn Text) (set : Bool)
    → (install posix uname set ≡ (ok tt, true))
      ⊎ ((e : Exn) × (install posix uname set ≡ (raised e, set))
          × (posix ≡ true)
          × (e ≢ attribute_error)
          × (e ≢ value_error))
unfolding install
install_sets_or_raises false uname set = inl refl
install_sets_or_raises true uname set = elim (ignore-IsIgnored (check_release uname)) [
  | inl h ↦ inl (ground (arith, h))
  | inr (e, h, a, v) ↦ inr (e, ground (arith, h), refl, a, v)
]
