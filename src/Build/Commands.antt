-- ===== src/Build/Commands.antt =====
-- The commands of setup.py: `build_ext`, `build`, `develop`, `bench` and `test`, as steps that may
-- fail. How setuptools runs a command by its name, and what the commands inherit from it, are
-- arguments.
use talyn.Base.Int.{ℤ}
use talyn.Base.{
  if◌then◌else◌, false, [], none, ◌∷◌, some, ◌++◌, ℕ, true, Option, List, Bool, ltb, ◌||◌, ◌&&◌,
  ◌==◌,
}
use talyn.Base.Text.{Text, codes}
use talyn.Base.Exec.{ok, raised, ◌>>◌, raise, modify, Exec}
use talyn.Build.{Setting, BuildOption, zig_compiler_options, module_suffix}

-- `sys.version_info < (3, 13)`
unfoldable pub is_too_old : (major minor : ℕ) → Bool
is_too_old major minor = ltb major 3 || ((major == 3) && ltb minor 13)

-- `os.environ.get("TALYN_OPTIMIZE", "Debug")`
unfoldable pub initial_mode : Option Text → Text
initial_mode none = codes "Debug"
initial_mode (some s) = s

pub data Step : Type 0 where
  zig_test : List BuildOption → Step
  zig_install : Text → List BuildOption → Step
  build_py copy_tests make_module_dir stat_module inherited_develop : Step
  copy_module chmod_module : Text → Step
  copy_benchmarks copy_script run_benchmark remove_benchmarks remove_script run_pytest : Step

pub data Exn : Type 0 where
  failed : Step → Exn
  assertion_error : Exn
  system_exit : ℤ → Exn

-- The bits of `st_mode`: who may execute the file, and the others.
pub record FileMode : Type 0 where
  pub user : Bool
  pub group : Bool
  pub others : Bool
  pub rest : ℕ

-- `st.st_mode | stat.S_IXUSR | stat.S_IXGRP | stat.S_IXOTH`
abbrev pub executable : FileMode → FileMode
executable m = record { user = true; group = true; others = true; rest = m.rest }

-- `zig_mode`, the steps that were begun, and what they have left: the native module under its
-- name, and what `bench` has copied into the build.
pub record World : Type 0 where
  pub zig_mode : Text
  pub begun : List Step
  pub module_file : Option (Text × FileMode)
  pub has_tests : Bool
  pub has_benchmarks : Bool
  pub has_script : Bool

abbrev pub Action : Type 0
Action = Exec World Exn (Unit {0})

pub data CommandName : Type 0 where
  build build_ext : CommandName

-- Which steps raise, what `subprocess.call` returns for a process, negative if a signal
-- has ended it, and the mode of the
-- library that Zig has built.
pub record Env : Type 0 where
  pub setting : Setting
  pub fails : Step → Bool
  pub status : Step → ℤ
  pub built_mode : FileMode

abbrev pub made_executable : Option (Text × FileMode) → Option (Text × FileMode)
made_executable none = none
made_executable (some (name, m)) = some (name, executable m)

module _ (env : Env) where
  -- What a step changes if it goes through.
  abbrev pub effect : Step → World → World
  effect copy_tests s = record s { has_tests = true }
  effect (copy_module name) s = record s { module_file = some (name, env.built_mode) }
  effect (chmod_module name) s = record s { module_file = made_executable s.module_file }
  effect copy_benchmarks s = record s { has_benchmarks = true }
  effect copy_script s = record s { has_script = true }
  effect remove_benchmarks s = record s { has_benchmarks = false }
  effect remove_script s = record s { has_script = false }
  effect _ s = s

  unfoldable pub perform : Step → Action
  perform step s =
      let s' = record s { begun = s.begun ++ step ∷ [] } in
      if env.fails step then (raised (failed step), s') else (ok tt, effect step s')

  abbrev pub options : List BuildOption
  options = zig_compiler_options env.setting

  -- `raise SystemExit(errno)`
  abbrev pub leave : Step → Action
  leave step = raise (system_exit (env.status step))

  abbrev pub copy_as : Text → Action
  copy_as name = do
    perform make_module_dir
    perform (copy_module name)
    perform stat_module
    perform (chmod_module name)

  -- `copy_zig_files`
  unfoldable pub copy_zig_files : Action
  unfolding perform
  copy_zig_files = elim (module_suffix env.setting) [
    | none ↦ raise assertion_error
    | some suffix ↦ copy_as (codes "talyn_zig" ++ suffix)
  ]

  -- `ZigBuildExtCommand.run`
  unfoldable pub run_build_ext : Action
  unfolding perform copy_zig_files
  run_build_ext s = (do perform (zig_install s.zig_mode options); copy_zig_files) s

  module _ (run_command : CommandName → Action → Action) where
    -- `ZigBuildCommand.run`
    unfoldable pub run_build : Action
    unfolding perform run_build_ext
    run_build = do perform build_py; perform copy_tests; run_command build_ext run_build_ext

    -- `ZigDevelopCommand.run`
    unfoldable pub run_develop : Action
    unfolding perform run_build
    run_develop = do run_command build run_build; perform inherited_develop

    abbrev pub set_release : Action
    set_release = modify (λ s. record s { zig_mode = codes "ReleaseFast" })

    -- What `TalynBench.run` does after the build.
    abbrev pub measure : Action
    measure = do
      perform copy_benchmarks
      perform copy_script
      perform run_benchmark
      perform remove_benchmarks
      perform remove_script
      leave run_benchmark

    unfoldable pub run_bench : Action
    unfolding perform run_build
    run_bench = do set_release; run_command build run_build; measure

    -- `TalynTest.run`
    unfoldable pub run_test : Action
    unfolding perform run_build
    run_test = do
      perform (zig_test options)
      run_command build run_build
      perform run_pytest
      leave run_pytest
