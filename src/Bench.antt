-- ===== src/Bench.antt =====
-- The runner of the benchmarks, benchmark.py: the choice of the benchmarks, the runs of growing size
-- for each event loop, and the rows of the table that compares them. What a run in a child process
-- comes to is an argument; `strip` and `lower` are the methods of `str`.
pub mod Sizes
pub mod Names
pub mod Plot
pub mod Bars
mod Tests
use talyn.Ssl.Bio.{is_empty}
use talyn.Base.{
  ◌-◌, ◌^◌, ◌||◌, ◌*◌, get_elem?, drop, ◌==◌, ◌++◌, map, leb, Bool, if◌then◌else◌, Option, List,
  none, some, false, [], ◌∷◌, ℕ, suc, zero,
}
use talyn.Base.Exec.{Result, ok, raised}
use talyn.Base.Text.{Text, codes, same, is_prefix}

abbrev pub n_sizes : ℕ
n_sizes = 7

abbrev pub m_initial : ℕ
m_initial = 1024

abbrev pub m_multiplier : ℕ
m_multiplier = 2

-- The times of the iterations, in some unit.
abbrev pub Times : Type 0
Times = List ℕ

-- How the child process of one size ends: with times on its last line of output, with another exit
-- code than 0, by the timeout, or the parent raises, as when there is no such line.
pub data Run : Type 0 where
  finished : Times → Run
  exited expired broken : Run

-- `broken_run` is what a broken run raises; `out_of_fuel` is of the model only.
pub data Exn : Type 0 where
  broken_run out_of_fuel : Exn

-- What is kept for one loop: none after a failure.
abbrev pub Measured : Type 0
Measured = Option (List (ℕ × Times))

-- `while m <= M_INITIAL * (2 ** (N - 1))`
unfoldable pub sweep : (ℕ → Run) → ℕ → ℕ → List (ℕ × Times) → Result Exn Measured
sweep run zero m all_times = raised out_of_fuel
sweep run (suc fuel) m all_times =
    if leb m (m_initial * 2 ^ (n_sizes - 1))
    then elim (run m) [
      | finished times ↦ sweep run fuel (m * m_multiplier) (all_times ++ (m, times) ∷ [])
      | exited ↦ ok none
      | expired ↦ ok none
      | broken ↦ raised broken_run
    ]
    else ok (some all_times)

abbrev pub Results : Type 0
Results = List (Text × Measured)

-- `benchmark_with_event_loops`: every loop in turn. `run` is given the type of the loop.
unfoldable pub benchmark_with_event_loops : (Text → ℕ → Run) → List Text → Result Exn Results
benchmark_with_event_loops run [] = ok []
benchmark_with_event_loops run (l ∷ loops) = elim (sweep (run l) (suc n_sizes) m_initial []) [
  | raised e ↦ raised e
  | ok measured ↦ elim (benchmark_with_event_loops run loops) [
    | raised e ↦ raised e
    | ok results ↦ ok ((l, measured) ∷ results)
  ]
]

-- `results.get(loop_name)`, none also for a key that is missing
unfoldable pub result_of : Text → Results → Measured
result_of l [] = none
result_of l ((k, measured) ∷ results) =
    let rest = result_of l results in if same l k then measured else rest

-- The cells of a row: N/A, or the times of this loop and those of the first loop that they are
-- compared with, if it has any there.
pub data Cells : Type 0 where
  not_available : Cells
  measured_against : Times → Option (ℕ × Times) → Cells

pub record Row : Type 0 where
  pub loop_name : Text
  pub m : ℕ
  pub cells : Cells

unfoldable pub missing_rows : Text → List (ℕ × Times) → List Row
missing_rows l [] = []
missing_rows l ((m, _) ∷ base) =
    record { loop_name = l; m = m; cells = not_available } ∷ missing_rows l base

-- `for i, (m, times) in enumerate(loop_results)`, from `i` on; a size without times is left out.
unfoldable pub measured_rows : Text → List (ℕ × Times) → ℕ → List (ℕ × Times) → List Row
measured_rows l base i [] = []
measured_rows l base i ((m, times) ∷ rest) =
    let rows = measured_rows l base (suc i) rest in
    if is_empty times
    then rows
    else record { loop_name = l; m = m; cells = measured_against times (get_elem? base i) } ∷ rows

abbrev pub rows_of : Text → List (ℕ × Times) → Measured → List Row
rows_of l base none = missing_rows l base
rows_of l base (some results) = measured_rows l base 0 results

unfoldable pub table_rows : Results → List (ℕ × Times) → List Text → List Row
table_rows results base [] = []
table_rows results base (l ∷ loops) =
    rows_of l base (result_of l results) ++ table_rows results base loops

-- `results.get(base_name) or []`
abbrev pub base_of : Measured → List (ℕ × Times)
base_of none = []
base_of (some results) = results

-- `create_comparison_table` for the loops, of which the first is the base; nothing is shown where
-- there are no results.
unfoldable pub create_comparison_table : Results → List Text → List Row
create_comparison_table results [] = []
create_comparison_table [] (b ∷ loops) = []
create_comparison_table (r ∷ results) (b ∷ loops) =
    table_rows (r ∷ results) (base_of (result_of b (r ∷ results))) (b ∷ loops)

-- A character in front of the first part.
abbrev pub add_to_first : ℕ → List Text → List Text
add_to_first c [] = (c ∷ []) ∷ []
add_to_first c (part ∷ parts) = (c ∷ part) ∷ parts

-- `name in names`
abbrev pub elem_text : Text → List Text → Bool
elem_text s [] = false
elem_text s (t ∷ ts) = same s t || elem_text s ts

-- `s.split(",")`
unfoldable pub split_commas : Text → List Text
split_commas [] = [] ∷ []
split_commas (c ∷ s) = if c == b',' then [] ∷ split_commas s else add_to_first c (split_commas s)

module _ (strip lower : Text → Text) where
  -- The names in the first argument that starts with `--bench=`; none if no argument does.
  unfoldable pub selected_names : List Text → Option (List Text)
  selected_names [] = none
  selected_names (arg ∷ args) =
      let rest = selected_names args in
      if is_prefix (codes "--bench=") arg
      then some (map (λ name. lower (strip name)) (split_commas (drop 8 arg)))
      else rest

  -- The benchmarks that are run, by their names.
  unfoldable pub selected : Option (List Text) → List Text → List Text
  selected none names = names
  selected (some wanted) [] = []
  selected (some wanted) (name ∷ names) =
      let rest = selected (some wanted) names in
      if elem_text (lower name) wanted then name ∷ rest else rest
