-- ===== src/Package/Tests.antt =====
-- Runs of `install` of talyn/__init__.py on concrete releases, and the theorems about it at concrete
-- inputs.
use talyn.Base.Text.{Text}
use talyn.Base.{arith, refl, none, some, true, false, [], ◌∷◌, ◌≡◌}
use talyn.Base.Exec.{ok}
use talyn.Package.{digits, install, check_release, parse, match_release}
use talyn.Package.Release.{release_text, show, parse-release}

-- `-41-generic`
abbrev suffix : Text
suffix = b'-' ∷ b'4' ∷ b'1' ∷ b'-' ∷ b'g' ∷ []

parse-release_example : parse (release_text 6 12 suffix) ≡ some (ok (6, 12))
unfolding digits show
parse-release_example = parse-release 6 12 suffix refl (omega arith) (omega arith)

-- A release without a number is let through.
no_number : install true (ok suffix) false ≡ (ok tt, true)
unfolding install check_release parse match_release digits
no_number = refl

-- `6.x` does not match.
no_minor : match_release (b'6' ∷ b'.' ∷ b'x' ∷ []) ≡ none
unfolding match_release digits
no_minor = refl
