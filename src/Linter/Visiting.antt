-- ===== src/Linter/Visiting.antt =====
-- What the visitor of tools/linter/rules/python_rules.py finds: the walk with an accumulator against
-- the list of all nodes of the tree.
use talyn.Base.{
  ◌||◌, ◌+◌, arith, ap, ◌∙◌, Bool, not, ◌&&◌, sym, if◌then◌else◌, List, refl, some, true, false, [],
  ◌∷◌, ◌≡◌, ◌++◌, append_assoc, append-nil,
}
use talyn.Base.Text.{same, is_prefix, codes, Text}
use talyn.Linter.{
  check_file, Node, Nodes, Handled, Issue, lambda, except_handler, name, pass_statement, other,
  no_nodes, node, anything, handled, visit, visit_type, visit_nodes, is_broad, only_passes,
  in_tests, issue_at, no_lambda, no_silent_except,
}

-- Every node of a tree, a node before what it holds, in the order of the fields of `ast`.
unfoldable mutual
  pub preorder : Node → List Node
  preorder (lambda p fields) = lambda p fields ∷ preorder_nodes fields
  preorder (except_handler p type body) =
      except_handler p type body ∷ (preorder_type type ++ preorder_nodes body)
  preorder (name id fields) = name id fields ∷ preorder_nodes fields
  preorder pass_statement = pass_statement ∷ []
  preorder (other fields) = other fields ∷ preorder_nodes fields

  pub preorder_type : Handled → List Node
  preorder_type anything = []
  preorder_type (handled n) = preorder n

  pub preorder_nodes : Nodes → List Node
  preorder_nodes no_nodes = []
  preorder_nodes (node n ns) = preorder n ++ preorder_nodes ns

-- The names of the classes that a handler must not catch in silence.
abbrev broad_names : List Text
broad_names = codes "Exception" ∷ codes "BaseException" ∷ []

abbrev is_named : Text → List Text → Bool
is_named id [] = false
is_named id (t ∷ ts) = same id t || is_named id ts

-- A handler without a class, or whose class is written as one of these names.
abbrev pub catches_all : Handled → Bool
catches_all anything = true
catches_all (handled (name id _)) = is_named id broad_names
catches_all (handled _) = false

abbrev pub is_pass : Node → Bool
is_pass pass_statement = true
is_pass _ = false

-- The statements of a body are `pass`, once.
abbrev pub does_nothing : Nodes → Bool
does_nothing no_nodes = false
does_nothing (node n no_nodes) = is_pass n
does_nothing (node n (node _ _)) = false

-- What a node by itself breaks: a lambda is forbidden everywhere, and a handler that catches all and
-- does nothing in every file whose path does not start with `tests/`.
unfoldable pub violations : Text → Node → List Issue
violations path (lambda p _) =
    record { file_path = path; line = p.line; col = p.col_offset + 1; rule = no_lambda } ∷ []
violations path (except_handler p type body) =
    if catches_all type && (does_nothing body && not (is_prefix (codes "tests/") path))
    then record { file_path = path; line = p.line; col = p.col_offset + 1; rule = no_silent_except }
      ∷ []
    else []
violations path _ = []

is_broad_lem : (h : Handled) → is_broad h ≡ catches_all h
is_broad_lem anything = refl
is_broad_lem (handled (name id _)) = ground arith
is_broad_lem (handled (lambda _ _)) = refl
is_broad_lem (handled (except_handler _ _ _)) = refl
is_broad_lem (handled pass_statement) = refl
is_broad_lem (handled (other _)) = refl

only_passes_lem : (ns : Nodes) → only_passes ns ≡ does_nothing ns
only_passes_lem no_nodes = refl
only_passes_lem (node (lambda _ _) no_nodes) = refl
only_passes_lem (node (except_handler _ _ _) no_nodes) = refl
only_passes_lem (node (name _ _) no_nodes) = refl
only_passes_lem (node pass_statement no_nodes) = refl
only_passes_lem (node (other _) no_nodes) = refl
only_passes_lem (node (lambda _ _) (node _ _)) = refl
only_passes_lem (node (except_handler _ _ _) (node _ _)) = refl
only_passes_lem (node (name _ _) (node _ _)) = refl
only_passes_lem (node pass_statement (node _ _)) = refl
only_passes_lem (node (other _) (node _ _)) = refl

and_assoc : (a b c : Bool) → ((a && b) && c) ≡ (a && (b && c))
and_assoc true b c = refl
and_assoc false b c = refl

-- The test of the visitor is that of the rule.
silent_lem :
    (path : Text) (type : Handled) (body : Nodes)
    → (is_broad type && only_passes body && not (in_tests path))
      ≡ (catches_all type && (does_nothing body && not (is_prefix (codes "tests/") path)))
silent_lem path type body =
    rw (is_broad_lem type, only_passes_lem body)
      (and_assoc (catches_all type) (does_nothing body) (not (is_prefix (codes "tests/") path)))

unfoldable pub report : Text → List Node → List Issue
report path [] = []
report path (n ∷ ns) = violations path n ++ report path ns

report-append :
    (path : Text) (a b : List Node) → report path (a ++ b) ≡ report path a ++ report path b
unfolding report
report-append path [] b = refl
report-append path (n ∷ a) b = rw (report-append path a b, append_assoc) refl

append_if :
    (b : Bool) (issues : List Issue) (i : Issue)
    → (if b then issues ++ i ∷ [] else issues) ≡ issues ++ (if b then i ∷ [] else [])
append_if true issues i = refl
append_if false issues i = sym (append-nil issues)

regroup : (a b c d : List Issue) → ((a ++ b) ++ c) ++ d ≡ a ++ (b ++ (c ++ d))
regroup a b c d = append_assoc (a ++ b) c d ∙ append_assoc a b (c ++ d)

mutual
  unfolding visit preorder report violations

  visit-preorder :
      (path : Text) (n : Node) (issues : List Issue)
      → visit path n issues ≡ issues ++ report path (preorder n)
  visit-preorder path (lambda p fields) issues =
      visit_nodes-preorder path fields (issues ++ issue_at no_lambda path p ∷ [])
      ∙ append_assoc issues (issue_at no_lambda path p ∷ []) (report path (preorder_nodes fields))
  visit-preorder path (except_handler p type body) issues =
      let found = violations path (except_handler p type body) in
      let here = issues ++ found in
      ap
        (λ b. visit_nodes path body (
          visit_type path type
            (if b then issues ++ issue_at no_silent_except path p ∷ [] else issues)))
        (silent_lem path type body)
      ∙ ap (λ l. visit_nodes path body (visit_type path type l)) (append_if _ issues _)
      ∙ visit_nodes-preorder path body (visit_type path type here)
      ∙ ap (λ l. l ++ report path (preorder_nodes body)) (visit_type-preorder path type here)
      ∙ regroup issues found (report path (preorder_type type)) (report path (preorder_nodes body))
      ∙ ap (λ l. issues ++ (found ++ l))
          (sym (report-append path (preorder_type type) (preorder_nodes body)))
  visit-preorder path (name id fields) issues = visit_nodes-preorder path fields issues
  visit-preorder path pass_statement issues = sym (append-nil issues)
  visit-preorder path (other fields) issues = visit_nodes-preorder path fields issues

  visit_type-preorder :
      (path : Text) (t : Handled) (issues : List Issue)
      → visit_type path t issues ≡ issues ++ report path (preorder_type t)
  visit_type-preorder path anything issues = sym (append-nil issues)
  visit_type-preorder path (handled n) issues = visit-preorder path n issues

  visit_nodes-preorder :
      (path : Text) (ns : Nodes) (issues : List Issue)
      → visit_nodes path ns issues ≡ issues ++ report path (preorder_nodes ns)
  visit_nodes-preorder path no_nodes issues = sym (append-nil issues)
  visit_nodes-preorder path (node n ns) issues =
      rw
        (
          visit-preorder path n issues,
          visit_nodes-preorder path ns (issues ++ report path (preorder n)),
          report-append path (preorder n) (preorder_nodes ns),
          append_assoc,
        )
        refl

-- The issues of a file that parses are what its nodes break, one by one, a node before what it
-- holds and the fields in the order of ast: every lambda, and outside of paths that start with
-- tests/ every handler without a class, or for the name Exception or `BaseException`, whose body is
-- one pass.
pub check_file-report :
    (path : Text) (tree : Node) → check_file path (some tree) ≡ report path (preorder tree)
unfolding check_file
check_file-report path tree = visit-preorder path tree []
