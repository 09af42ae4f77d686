-- ===== src/Linter/Tests.antt =====
-- Runs of the Python linter on small trees, and the theorems about it at concrete inputs.
use talyn.Base.{Option, List, refl, none, some, [], ◌∷◌, ◌≡◌}
use talyn.Base.Text.{Text, codes}
use talyn.Linter.{
  Node, Position, lambda, except_handler, name, pass_statement, other, no_nodes, node, anything,
  handled, visit, check_file, main, no_lambda, no_silent_except,
}
use talyn.Linter.Visiting.{check_file-report, report, preorder}

abbrev place : Position
place = record { line = 7; col_offset = 4 }

-- `try: … except Exception: pass` with a lambda in its body
abbrev silent : Node
silent = other (
    node (lambda place (node pass_statement no_nodes)) (
      node
        (except_handler place (handled (name (codes "Exception") no_nodes))
          (node pass_statement no_nodes))
        no_nodes))

abbrev path : Text
path = codes "talyn/a.py"

finds_both :
    check_file path (some silent)
    ≡ record { file_path = path; line = 7; col = 5; rule = no_lambda }
      ∷ record { file_path = path; line = 7; col = 5; rule = no_silent_except }
      ∷ []
unfolding check_file visit
finds_both = refl

check_file-report_example : check_file path (some silent) ≡ report path (preorder silent)
check_file-report_example = check_file-report path silent

-- One directory with a Python file, which does not parse, and another file.
abbrev walked : List (Text × List Text)
walked = (codes "talyn", codes "a.py" ∷ codes "a.zig" ∷ []) ∷ []

abbrev unreadable : Text → Option Node
unreadable p = none

fails : (main unreadable (some walked)).0 ≡ 1
unfolding main check_file
fails = refl

-- The same in a directory of tests.
lets_tests :
    check_file
      (codes "tests/a.py")
      (some (except_handler place anything (node pass_statement no_nodes)))
    ≡ []
unfolding check_file visit
lets_tests = refl
