-- ===== src/Base/Text.antt =====
-- Texts as lists of code points.
use talyn.Base.{ltb}
use Prim.Native.Char.{code}
use Prim.Native.String.{String}
use talyn.Base.Tests.{◌==◌, if◌then◌else◌}
use talyn.Base.Lists.{length, drop}
use Prim.Native.Nat.{ℕ, ◌-◌}
use mathlib.Core.Bool.{Bool, true, false, ◌&&◌, ◌||◌}
use mathlib.Core.List.{List, [], ◌∷◌}

abbrev pub Text : Type 0
Text = List ℕ

-- The code points of a literal.
abbrev pub codes : String → Text
codes String.[] = []
codes (String.◌∷◌ c s) = code c ∷ codes s

-- `s == t`
abbrev pub same : Text → Text → Bool
same [] [] = true
same [] (d ∷ t) = false
same (c ∷ s) [] = false
same (c ∷ s) (d ∷ t) = (c == d) && same s t

-- `t.startswith(s)`
abbrev pub is_prefix : Text → Text → Bool
is_prefix [] t = true
is_prefix (c ∷ s) [] = false
is_prefix (c ∷ s) (d ∷ t) = (c == d) && is_prefix s t

-- `t.endswith(s)`
abbrev pub is_suffix : Text → Text → Bool
is_suffix s t = if ltb (length t) (length s) then false else same s (drop (length t - length s) t)

-- `word in text`
unfoldable pub contains : Text → Text → Bool
contains word [] = is_prefix word []
contains word (c ∷ text) = let later = contains word text in is_prefix word (c ∷ text) || later
