-- ===== src/Linter.antt =====
-- The Python linter, tools/linter/rules/python_rules.py: its visitor over a syntax tree, the check of
-- a file, and `main`. What `ast.parse` makes of a file is an argument.
pub mod Visiting
pub mod Exit
mod Tests
use talyn.Ssl.Bio.{is_empty}
use talyn.Base.{
  not, ◌&&◌, ◌||◌, if◌then◌else◌, ◌+◌, ◌++◌, Option, List, Bool, none, some, true, false, [], ◌∷◌,
  ℕ, suc,
}
use talyn.Base.Text.{Text, codes, same, is_prefix, is_suffix}

-- `lineno` and `col_offset`
pub record Position : Type 0 where
  pub line : ℕ
  pub col_offset : ℕ

-- A node of `ast`, with the nodes in its fields in the order of the fields. The classes that the
-- visitor looks at have constructors of their own; `type` of a handler may be None.
mutual
  pub data Node : Type 0 where
    lambda : Position → Nodes → Node
    except_handler : Position → Handled → Nodes → Node
    name : Text → Nodes → Node
    pass_statement : Node
    other : Nodes → Node

  pub data Handled : Type 0 where
    anything : Handled
    handled : Node → Handled

  pub data Nodes : Type 0 where
    no_nodes : Nodes
    node : Node → Nodes → Nodes

pub data Rule : Type 0 where
  syntax_error no_lambda no_silent_except : Rule

-- The rule stands for the texts that belong to it.
pub record Issue : Type 0 where
  pub file_path : Text
  pub line : ℕ
  pub col : ℕ
  pub rule : Rule

abbrev pub issue_at : Rule → Text → Position → Issue
issue_at rule path p = record {
  file_path = path;
  line = p.line;
  col = p.col_offset + 1;
  rule = rule;
}

-- `is_broad`
abbrev pub is_broad : Handled → Bool
is_broad anything = true
is_broad (handled (name id _)) = same id (codes "Exception") || same id (codes "BaseException")
is_broad (handled _) = false

-- `len(node.body) == 1 and isinstance(node.body[0], ast.Pass)`
abbrev pub only_passes : Nodes → Bool
only_passes (node pass_statement no_nodes) = true
only_passes _ = false

abbrev pub in_tests : Text → Bool
in_tests path = is_prefix (codes "tests/") path

-- `visit` of a visitor of the file `path`, with `generic_visit`, on the issues so far
unfoldable mutual
  pub visit : Text → Node → List Issue → List Issue
  visit path (lambda p fields) issues =
      visit_nodes path fields (issues ++ issue_at no_lambda path p ∷ [])
  visit path (except_handler p type body) issues = visit_nodes path body (
      visit_type path type (
        if is_broad type && only_passes body && not (in_tests path)
        then issues ++ issue_at no_silent_except path p ∷ []
        else issues))
  visit path (name _ fields) issues = visit_nodes path fields issues
  visit path pass_statement issues = issues
  visit path (other fields) issues = visit_nodes path fields issues

  pub visit_type : Text → Handled → List Issue → List Issue
  visit_type path anything issues = issues
  visit_type path (handled n) issues = visit path n issues

  pub visit_nodes : Text → Nodes → List Issue → List Issue
  visit_nodes path no_nodes issues = issues
  visit_nodes path (node n ns) issues = visit_nodes path ns (visit path n issues)

-- `parsed` is the tree; none if reading or parsing the file raises.
unfoldable pub check_file : Text → Option Node → List Issue
check_file path none = record { file_path = path; line = 1; col = 1; rule = syntax_error } ∷ []
check_file path (some tree) = visit path tree []

-- `os.path.join(root, file)`
abbrev join_path : Text → Text → Text
join_path root file = root ++ b'/' ∷ file

-- The files of one directory, then those of all that `os.walk` yields: the number of the Python
-- files and their issues.
unfoldable pub scan_files : (Text → Option Node) → Text → List Text → ℕ × List Issue
scan_files parse root [] = (0, [])
scan_files parse root (file ∷ files) =
    let (n, issues) = scan_files parse root files in
    let path = join_path root file in
    if is_suffix (codes ".py") file
    then (suc n, check_file path (parse path) ++ issues)
    else (n, issues)

unfoldable pub scan_roots : (Text → Option Node) → List (Text × List Text) → ℕ × List Issue
unfolding scan_files
scan_roots parse [] = (0, [])
scan_roots parse ((root, files) ∷ roots) =
    let (n, issues) = scan_files parse root files in
    let (m, more) = scan_roots parse roots in (n + m, issues ++ more)

-- `main`: the exit code, the number of files and the issues that are printed. `walk` is what
-- `os.walk("talyn")` yields, none if there is no such directory.
unfoldable pub main : (Text → Option Node) → Option (List (Text × List Text)) → ℕ × ℕ × List Issue
unfolding scan_roots
main parse none = (0, 0, [])
main parse (some roots) =
    let (n, issues) = scan_roots parse roots in (if is_empty issues then 0 else 1, n, issues)
