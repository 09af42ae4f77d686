-- ===== src/Package.antt =====
-- `install` of talyn/__init__.py: the check of the kernel release before the event loop policy is
-- set. A text is its code points; the release is ASCII.
pub mod Release
mod Tests
use talyn.Base.Text.{Text}
use talyn.Ssl.Bio.{is_empty}
use talyn.Base.{
  ◌-◌, ◌+◌, ◌*◌, not, ◌&&◌, length, ◌==◌, ltb, leb, if◌then◌else◌, Option, Bool, none, some, true,
  [], ◌∷◌, ℕ,
}
use talyn.Base.Exec.{Exec, Result, ok, raised}

-- `other` is any exception that `install` does not catch.
pub data Exn : Type 0 where
  runtime_error attribute_error value_error other : Exn

abbrev pub dot : ℕ
dot = b'.'

abbrev pub is_digit : ℕ → Bool
is_digit c = leb b'0' c && leb c b'9'

-- `\d*`, greedy: the digits at the front, and the rest
unfoldable pub digits : Text → Text × Text
digits [] = ([], [])
digits (c ∷ s) = let (d, rest) = digits s in if is_digit c then (c ∷ d, rest) else ([], c ∷ s)

-- The second group and what follows it does not matter: `match` is not anchored at the end.
abbrev second_group : Text → Text → Option (Text × Text)
second_group major [] = none
second_group major (c ∷ rest) =
    let minor = (digits rest).0 in
    if c == dot && not (is_empty minor) then some (major, minor) else none

-- `re.match(r"^(\d+)\.(\d+)", release)` and its groups
unfoldable pub match_release : Text → Option (Text × Text)
match_release release =
    let (major, rest) = digits release in if is_empty major then none else second_group major rest

-- The value of a text of digits, after `n`
unfoldable pub value_from : ℕ → Text → ℕ
value_from n [] = n
value_from n (c ∷ s) = value_from (n * 10 + (c - b'0')) s

-- `int(s)` for a text of digits: a ValueError if it is longer than the interpreter allows.
unfoldable pub int_of : Text → Result Exn ℕ
int_of s = if ltb 4300 (length s) then raised value_error else ok (value_from 0 s)

-- `major, minor = map(int, match.groups())`
unfoldable pub parse_groups : Text × Text → Result Exn (ℕ × ℕ)
parse_groups (a, b) = elim (int_of a) [
  | raised e ↦ raised e
  | ok major ↦ elim (int_of b) [ raised e ↦ raised e | ok minor ↦ ok (major, minor) ]
]

-- The numbers of a release; none if it does not match.
unfoldable pub parse : Text → Option (Result Exn (ℕ × ℕ))
parse release = elim (match_release release) [ none ↦ none | some g ↦ some (parse_groups g) ]

abbrev refuse_old : Option (Result Exn (ℕ × ℕ)) → Result Exn (Unit {0})
refuse_old none = ok tt
refuse_old (some (raised e)) = raised e
refuse_old (some (ok (major, _))) = if ltb major 6 then raised runtime_error else ok tt

-- The body of the `try`; `uname` is what `os.uname().release` gives or raises.
unfoldable pub check_release : Result Exn Text → Result Exn (Unit {0})
check_release (raised e) = raised e
check_release (ok release) = refuse_old (parse release)

-- `except (AttributeError, ValueError): pass`
abbrev ignore : Result Exn (Unit {0}) → Result Exn (Unit {0})
ignore (raised attribute_error) = ok tt
ignore (raised value_error) = ok tt
ignore r = r

-- The state is whether the policy has been set.
unfoldable pub install : Bool → Result Exn Text → Exec Bool Exn (Unit {0})
install posix uname set = elim (if posix then ignore (check_release uname) else ok tt) [
  | raised e ↦ (raised e, set)
  | ok _ ↦ (ok tt, true)
]
