-- ===== src/Bench/Plot.antt =====
-- The rest of benchmark.py: the event loops that are compared, the imports of the script of a child
-- process, the plot, and the loop over the benchmarks.
use talyn.Base.Int.{ℤ, minus}
use talyn.Base.{
  ◌*◌, Option, none, some, ◌+◌, suc, ◌∷◌, [], ◌++◌, ℕ, List, Bool, ltb, if◌then◌else◌, ◌&&◌, not,
}
use talyn.Base.Text.{Text, codes, contains}
use talyn.Base.Exec.{Result, ok, raised}
use talyn.Bench.{
  not_available, measured_against, Cells, Times, Measured, Results, Run, Row, result_of,
  benchmark_with_event_loops, create_comparison_table, elem_text, selected_names, selected,
}

-- LOOPS: their names and types; `has_uvloop` is whether uvloop can be imported.
unfoldable pub loops : (has_uvloop : Bool) → List Text → List (Text × Text)
loops has_uvloop argv =
    (codes "asyncio", codes "asyncio.new_event_loop()")
    ∷ ((if has_uvloop && not (elem_text (codes "--without-uvloop") argv)
          then (codes "uvloop", codes "uvloop.new_event_loop()") ∷ []
          else [])
        ++ (codes "talyn", codes "talyn.Loop()") ∷ [])

-- The first line of `make_script`
unfoldable pub imports : Text → Text
imports loop_type =
    codes "import asyncio, sys, json, time, os"
    ++ ((if contains (codes "talyn") loop_type then codes ", talyn" else [])
        ++ (if contains (codes "uvloop") loop_type then codes ", uvloop" else []))

abbrev pub total : Times → ℕ
total [] = 0
total (t ∷ ts) = t + total ts

abbrev pub count : Times → ℕ
count [] = 0
count (t ∷ ts) = suc (count ts)

-- `min(times)` and `max(times)` of a time and others
abbrev pub least : ℕ → Times → ℕ
least a [] = a
least a (t ∷ ts) = let b = least t ts in if ltb b a then b else a

abbrev pub greatest : ℕ → Times → ℕ
greatest a [] = a
greatest a (t ∷ ts) = let b = greatest t ts in if ltb a b then b else a

-- A point of the plot, with `low` and `high` of its error bar. `y` is `total / count`, and the two are
-- counted in the same fractions, so that `mean - min` is `(total - count * min) / count`.
pub record Point : Type 0 where
  pub m : ℕ
  pub total : ℕ
  pub count : ℕ
  pub low : ℤ
  pub high : ℤ

-- `statistics.mean` raises StatisticsError where there are no times.
pub data Exn : Type 0 where
  no_times : Exn
  by_run : talyn.Bench.Exn → Exn

-- `lows` and `highs` are `mean - min` and `max - mean`.
unfoldable pub point : ℕ → Times → Result Exn Point
point m [] = raised no_times
point m (t ∷ ts) = ok (record {
  m = m;
  total = t + total ts;
  count = suc (count ts);
  low = minus (t + total ts) (suc (count ts) * least t ts);
  high = minus (suc (count ts) * greatest t ts) (t + total ts);
})

-- One result before others, of which the first exception goes on.
abbrev pub before_all : {A : Type 0} → Result Exn A → Result Exn (List A) → Result Exn (List A)
before_all (raised e) rest = raised e
before_all (ok a) (raised e) = raised e
before_all (ok a) (ok bs) = ok (a ∷ bs)

unfoldable pub points : List (ℕ × Times) → Result Exn (List Point)
unfolding point
points [] = ok []
points ((m, times) ∷ rest) = before_all (point m times) (points rest)

abbrev pub named : Text → Result Exn (List Point) → Result Exn (Text × List Point)
named l (raised e) = raised e
named l (ok ps) = ok (l, ps)

abbrev pub add_curve :
    Text → Measured → Result Exn (List (Text × List Point)) → Result Exn (List (Text × List Point))
add_curve l none rest = rest
add_curve l (some measured) rest = before_all (named l (points measured)) rest

-- `plot_results`, the curves; a loop without results has none.
unfoldable pub curves : Results → List Text → Result Exn (List (Text × List Point))
curves results [] = ok []
curves results (l ∷ ls) = add_curve l (result_of l results) (curves results ls)

-- A row of `create_comparison_table`; the mean of the first loop is that of no times where it has
-- none for the size.
abbrev pub checked_row : Row → Cells → Result Exn Row
checked_row row not_available = ok row
checked_row row (measured_against times none) = ok row
checked_row row (measured_against times (some (m, []))) = raised no_times
checked_row row (measured_against times (some (m, t ∷ ts))) = ok row

unfoldable pub checked_rows : List Row → Result Exn (List Row)
checked_rows [] = ok []
checked_rows (row ∷ rows) = before_all (checked_row row row.cells) (checked_rows rows)

-- What one benchmark shows: the rows of the table and, if no exception is raised by then, the curves
-- of the plot.
pub record Shown : Type 0 where
  pub name : Text
  pub table : List Row
  pub plot : Result Exn (List (Text × List Point))

-- What the benchmarks have shown when the script ends, and the exception that ends it, if any.
pub record Output : Type 0 where
  pub shown : List Shown
  pub ended_by : Option Exn

abbrev pub show_plot : Text → List Row → Result Exn (List (Text × List Point)) → Output → Output
show_plot name rows (raised e) rest = record {
  shown = record { name = name; table = rows; plot = raised e } ∷ [];
  ended_by = some e;
}
show_plot name rows (ok cs) rest = record {
  shown = record { name = name; table = rows; plot = ok cs } ∷ rest.shown;
  ended_by = rest.ended_by;
}

abbrev pub show_table :
    Text → Result Exn (List Row) → Result Exn (List (Text × List Point)) → Output → Output
show_table name (raised e) cs rest = record { shown = []; ended_by = some e }
show_table name (ok rows) cs rest = show_plot name rows cs rest

abbrev pub show_benchmark : Text → List Text → Result talyn.Bench.Exn Results → Output → Output
show_benchmark name ls (raised e) rest = record { shown = []; ended_by = some (by_run e) }
show_benchmark name ls (ok results) rest =
    show_table name (checked_rows (create_comparison_table results ls)) (curves results ls) rest

-- The loop over the benchmarks. `run` is given the benchmark, the loop and the size.
unfoldable pub run_all : (Text → Text → ℕ → Run) → List Text → List Text → Output
run_all run ls [] = record { shown = []; ended_by = none }
run_all run ls (name ∷ names) =
    show_benchmark name ls (benchmark_with_event_loops (run name) ls) (run_all run ls names)

-- The script, after its arguments are read.
unfoldable pub main :
    (strip lower : Text → Text)
    → (Text → Text → ℕ → Run)
    → List Text
    → List Text
    → List Text
    → Output
unfolding run_all selected selected_names
main strip lower run argv ls names =
    run_all run ls (selected strip lower (selected_names strip lower argv) names)
