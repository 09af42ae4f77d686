-- ===== src/Linter/Exit.antt =====
-- The exit code of tools/linter/rules/python_rules.py, against a description of clean files.
use talyn.Ssl.Bio.{is_empty}
use talyn.Base.{
  ◌∙◌, sym, length-append, ap, length, if◌then◌else◌, Option, List, refl, none, some, [], ◌∷◌, ℕ,
  ◌≡◌, ◌++◌, append_assoc, arith, ◌↔◌,
}
use talyn.Base.Text.{Text, codes, is_suffix}
use talyn.Linter.{Node, Issue, check_file, scan_files, scan_roots, main, join_path}
use talyn.Linter.Visiting.{preorder, violations, report, check_file-report}

abbrev pub Every {ℓ} : {A : Type ℓ} → (A → Type 0) → List A → Type 0
Every P [] = Unit
Every P (x ∷ xs) = P x × Every P xs

-- The paths of the Python files that a walk meets.
abbrev pub python_files : Text → List Text → List Text
python_files root [] = []
python_files root (file ∷ files) =
    let rest = python_files root files in
    if is_suffix (codes ".py") file then join_path root file ∷ rest else rest

abbrev pub python_paths : List (Text × List Text) → List Text
python_paths [] = []
python_paths ((root, files) ∷ roots) = python_files root files ++ python_paths roots

-- A file that parses and none of whose nodes breaks a rule.
abbrev pub IsClean : (Text → Option Node) → Text → Type 0
IsClean parse path =
    (tree : Node) × (parse path ≡ some tree) × Every (λ n. violations path n ≡ []) (preorder tree)

append_nil_iff {ℓ} : {A : Type ℓ} (a b : List A) → (a ++ b ≡ []) ↔ ((a ≡ []) × (b ≡ []))
append_nil_iff [] b = (λ h. (refl, h), λ h. h.1)
append_nil_iff (x ∷ a) b = (λ h. absurd (cc), λ h. absurd (cc (h.0)))

report_nil_iff :
    (path : Text) (ns : List Node) → (report path ns ≡ []) ↔ Every (λ n. violations path n ≡ []) ns
unfolding report
report_nil_iff path [] = (λ h. tt, λ h. refl)
report_nil_iff path (n ∷ ns) =
    let both = append_nil_iff (violations path n) (report path ns) in
    let rest = report_nil_iff path ns in
    (λ h. ((both.0 h).0, rest.0 (both.0 h).1), λ h. both.1 (h.0, rest.1 h.1))

check_all : (Text → Option Node) → List Text → List Issue
check_all parse [] = []
check_all parse (path ∷ paths) = check_file path (parse path) ++ check_all parse paths

some_inj {ℓ} : {A : Type ℓ} (x y : A) → some x ≡ some y → x ≡ y
some_inj x y h = cc

check_file-IsClean :
    (parse : Text → Option Node) (path : Text) (o : Option Node)
    → parse path ≡ o
    → (check_file path o ≡ []) ↔ IsClean parse path
unfolding check_file
check_file-IsClean parse path none e = (λ h. absurd (cc), λ (tree, g, _). absurd (cc))
check_file-IsClean parse path (some tree) e =
    let all = report_nil_iff path (preorder tree) in
    let found = check_file-report path tree in
    (
      λ h. (tree, e, all.0 (sym found ∙ h)),
      λ (tree', g, every). found ∙ all.1 (rw⁻¹ (some_inj tree' tree (sym g ∙ e)) every),
    )

check_file_nil_iff :
    (parse : Text → Option Node) (path : Text)
    → (check_file path (parse path) ≡ []) ↔ IsClean parse path
check_file_nil_iff parse path = check_file-IsClean parse path (parse path) refl

check_all_nil_iff :
    (parse : Text → Option Node) (paths : List Text)
    → (check_all parse paths ≡ []) ↔ Every (IsClean parse) paths
unfolding check_all
check_all_nil_iff parse [] = (λ h. tt, λ h. refl)
check_all_nil_iff parse (path ∷ paths) =
    let both = append_nil_iff (check_file path (parse path)) (check_all parse paths) in
    let here = check_file_nil_iff parse path in
    let rest = check_all_nil_iff parse paths in
    (λ h. (here.0 (both.0 h).0, rest.0 (both.0 h).1), λ h. both.1 (here.1 h.0, rest.1 h.1))

check_all-append :
    (parse : Text → Option Node) (a b : List Text)
    → check_all parse (a ++ b) ≡ check_all parse a ++ check_all parse b
unfolding check_all
check_all-append parse [] b = refl
check_all-append parse (path ∷ a) b = rw (check_all-append parse a b, append_assoc) refl

scan_files-all :
    (parse : Text → Option Node) (root : Text) (files : List Text)
    → scan_files parse root files
      ≡ (length (python_files root files), check_all parse (python_files root files))
unfolding scan_files check_all
scan_files-all parse root [] = refl
scan_files-all parse root (file ∷ files) = ground (arith, scan_files-all parse root files)

scan_roots-all :
    (parse : Text → Option Node) (roots : List (Text × List Text))
    → scan_roots parse roots ≡ (length (python_paths roots), check_all parse (python_paths roots))
unfolding scan_roots check_all
scan_roots-all parse [] = refl
scan_roots-all parse ((root, files) ∷ roots) =
    rw
      (
        scan_files-all parse root files,
        scan_roots-all parse roots,
        length-append (python_files root files) (python_paths roots),
        check_all-append parse (python_files root files) (python_paths roots),
      )
      refl

abbrev code_of {ℓ} : {A : Type ℓ} → List A → ℕ
code_of l = if is_empty l then 0 else 1

exit_iff {ℓ} : {A : Type ℓ} (l : List A) → (code_of l ≡ 0) ↔ (l ≡ [])
exit_iff [] = (λ h. refl, λ h. refl)
exit_iff (x ∷ l) = (λ h. absurd (omega (arith, h)), λ h. absurd (cc))

-- The linter exits with 0 exactly if every Python file of the walk parses and none of its nodes, at
-- any depth, breaks a rule; it counts those files, clean or not.
pub main_iff :
    (parse : Text → Option Node) (roots : List (Text × List Text))
    → ((main parse (some roots)).0 ≡ 0 ↔ Every (IsClean parse) (python_paths roots))
      × ((main parse (some roots)).1 ≡ length (python_paths roots))
unfolding main
main_iff parse roots =
    let all = scan_roots-all parse roots in
    let exits = exit_iff (scan_roots parse roots).1 in
    let found = ap (λ r. r.1) all in
    let clean = check_all_nil_iff parse (python_paths roots) in
    ((λ h. clean.0 (sym found ∙ exits.0 h), λ h. exits.1 (found ∙ clean.1 h)), ap (λ r. r.0) all)
