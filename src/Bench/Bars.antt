-- ===== src/Bench/Bars.antt =====
-- The error bars of the plots of benchmark.py.
use talyn.Base.Text.{Text}
use talyn.Base.Exec.{raised, ok, Result}
use talyn.Base.Int.{pos}
use talyn.Base.{◌⊎◌, ◌≡◌, some, List, ◌+◌, ◌*◌, [], ◌∷◌, ◌≤◌, ℕ}
use talyn.Bench.{result_of, benchmark_with_event_loops, Run, Results, Times}
use talyn.Bench.Plot
use talyn.Bench.Plot.{Point, Exn, Shown, count}

abbrev pub Occurs : ℕ → Times → Type 0
Occurs x [] = ⊥
Occurs x (t ∷ ts) = (x ≡ t) ⊎ Occurs x ts

abbrev pub AllFrom : ℕ → Times → Type 0
AllFrom x [] = Unit {0}
AllFrom x (t ∷ ts) = (x ≤ t) × AllFrom x ts

abbrev pub AllUpTo : ℕ → Times → Type 0
AllUpTo x [] = Unit {0}
AllUpTo x (t ∷ ts) = (t ≤ x) × AllUpTo x ts

-- The point of these times: the mean less `low` is their minimum, the mean and `high` together are
-- their maximum, and neither of the two is negative.
abbrev pub HasBars : ℕ × Times → Point → Type 0
HasBars (m, ts) p =
    (p.m ≡ m)
    × (p.count ≡ count ts)
    × (p.total ≡ Plot.total ts)
    × ((lo : ℕ) × (n : ℕ) × Occurs lo ts
        × AllFrom lo ts
        × (p.low ≡ pos n)
        × (p.total ≡ n + p.count * lo))
    × ((hi : ℕ) × (k : ℕ) × Occurs hi ts
        × AllUpTo hi ts
        × (p.high ≡ pos k)
        × (p.total + k ≡ p.count * hi))

-- Every element of a result, if there is one.
abbrev pub Each : {A : Type 0} → (A → Type 0) → Result Exn (List A) → Type 0
Each P (raised e) = Unit {0}
Each P (ok []) = Unit {0}
Each P (ok (x ∷ xs)) = P x × Each P (ok xs)

abbrev One : {A : Type 0} → (A → Type 0) → Result Exn A → Type 0
One P (raised e) = Unit {0}
One P (ok x) = P x

-- The points of a curve, one for each size in turn.
abbrev pub AreBars : List (ℕ × Times) → List Point → Type 0
AreBars [] [] = Unit {0}
AreBars (x ∷ xs) (p ∷ ps) = HasBars x p × AreBars xs ps
AreBars _ _ = ⊥

-- A curve belongs to a loop with results, and has a point for each size in turn.
abbrev pub CurveHasBars : Results → Text × List Point → Type 0
CurveHasBars results (l, ps) =
    (measured : List (ℕ × Times)) × (result_of l results ≡ some measured) × AreBars measured ps

-- What was shown of a benchmark is the plot of what its runs have measured.
abbrev pub PlotHasBars : (Text → Text → ℕ → Run) → List Text → Shown → Type 0
PlotHasBars run ls s =
    (results : Results) × (benchmark_with_event_loops (run s.name) ls ≡ ok results)
    × Each (CurveHasBars results) s.plot

abbrev pub ShowsBars : (Text → Text → ℕ → Run) → List Text → List Shown → Type 0
ShowsBars run ls [] = Unit {0}
ShowsBars run ls (s ∷ l) = PlotHasBars run ls s × ShowsBars run ls l
