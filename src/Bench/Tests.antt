-- ===== src/Bench/Tests.antt =====
-- Runs of benchmark.py on concrete outcomes, and the theorems about it at concrete inputs.
use talyn.Bench.Plot.{no_times, point, points, curves, checked_rows, run_all}
use talyn.Base.{leb, if◌then◌else◌, refl, none, some, [], ◌∷◌, ℕ, ◌≡◌}
use talyn.Base.Exec.{ok}
use talyn.Base.Text.{same, Text, codes}
use talyn.Bench.{
  benchmark_with_event_loops, Run, finished, expired, sweep, create_comparison_table, table_rows,
  result_of, measured_rows, missing_rows, not_available, measured_against,
}

-- Sizes above 2048 run into the timeout.
abbrev slow : ℕ → Run
slow m = if leb m 2048 then finished (m ∷ []) else expired

gives_up : sweep slow 8 1024 [] ≡ ok none
unfolding sweep
gives_up = refl

-- A loop that failed gets a row without times for each size of the first loop.
abbrev l1 : Text
l1 = codes "asyncio"

abbrev l2 : Text
l2 = codes "talyn"

table :
    create_comparison_table
      ((l1, some ((1024, 3 ∷ []) ∷ (2048, 6 ∷ []) ∷ [])) ∷ (l2, none) ∷ [])
      (l1 ∷ l2 ∷ [])
    ≡ record { loop_name = l1; m = 1024; cells = measured_against (3 ∷ []) (some (1024, 3 ∷ [])) }
      ∷ record { loop_name = l1; m = 2048; cells = measured_against (6 ∷ []) (some (2048, 6 ∷ [])) }
      ∷ record { loop_name = l2; m = 1024; cells = not_available }
      ∷ record { loop_name = l2; m = 2048; cells = not_available }
      ∷ []
unfolding create_comparison_table table_rows result_of measured_rows missing_rows
table = refl

-- Two benchmarks on two loops; the second benchmark ends the script.
abbrev runs : Text → Text → ℕ → Run
runs name l m = if same name l1 then finished (m ∷ 3 ∷ []) else finished []

-- What they show: the last of the seven points of the first loop, and the exception.
ends_early : (run_all runs (l1 ∷ l2 ∷ []) (l1 ∷ l2 ∷ [])).ended_by ≡ some no_times
unfolding run_all checked_rows curves points point benchmark_with_event_loops sweep
    create_comparison_table table_rows result_of measured_rows
ends_early = refl
