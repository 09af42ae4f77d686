-- ===== src/Build/Steps.antt =====
-- The commands of setup.py as sequences of steps: which steps each goes through, and in which order.
use talyn.Build.Cross.{module_suffix_lem}
use talyn.Base.Exec.{raised, ok, pure, ◌>>◌, Result}
use talyn.Base.{◌∙◌, sym, ap, inr, inl, ◌++◌, Option-cases, [], ◌∷◌, some, ◌≡◌, List, refl, arith}
use talyn.Base.Text.{codes, Text}
use talyn.Build.{set_text, Setting, module_suffix, is_cross_build}
use talyn.Build.Commands.{
  build, remove_script, run_pytest, remove_benchmarks, zig_test, run_benchmark, copy_script,
  run_test, run_bench, leave, effect, copy_benchmarks, build_ext, run_build, run_build_ext,
  CommandName, chmod_module, stat_module, copy_module, make_module_dir, zig_install, copy_tests,
  build_py, Exn, Env, World, Step, Action, perform, options, copy_zig_files,
}

-- The `assert` of `cross_ext_suffix` holds wherever it is reached.
pub module_suffix-some : (e : Setting) → (s : Text) × (module_suffix e ≡ some s)
unfolding module_suffix is_cross_build
module_suffix-some e = elim (Option-cases (set_text e.zig_target)) [
  | inl h ↦ (e.ext_suffix, ground (arith, h))
  | inr (t, h) ↦ (_, module_suffix_lem e t h)
]

-- The steps of `bench` after the build.
abbrev pub measure_steps : List Step
measure_steps =
    copy_benchmarks ∷ copy_script ∷ run_benchmark ∷ remove_benchmarks ∷ remove_script ∷ []

module _ (env : Env) where
  -- Steps in order, up to the first that raises.
  abbrev pub run_all : List Step → Action
  run_all [] = pure tt
  run_all (x ∷ xs) = do perform env x; run_all xs

  -- A build in a mode, of a module with that name.
  abbrev pub build_steps : Text → Text → List Step
  build_steps mode name =
      build_py
      ∷ copy_tests
      ∷ zig_install mode (options env)
      ∷ make_module_dir
      ∷ copy_module name
      ∷ stat_module
      ∷ chmod_module name
      ∷ []

  -- The name of the module that a build makes.
  abbrev pub module_name : Text
  module_name = codes "talyn_zig" ++ (module_suffix-some env.setting).0

  then_nothing_result : (r : Result Exn (Unit {0}) × World) → (do (λ _. r); pure tt) ≡ (λ _. r)
  then_nothing_result (ok _, t) = refl
  then_nothing_result (raised e, t) = refl

  then_nothing : (m : Action) → (do m; pure tt) ≡ m
  then_nothing m = λ i s. then_nothing_result (m s) i s

  assoc_result :
      (r : Result Exn (Unit {0}) × World) (k l : Action)
      → (do (λ _. r); k; l) ≡ (do (do (λ _. r); k); l)
  assoc_result (ok _, t) k l = refl
  assoc_result (raised e, t) k l = refl

  >>-assoc : (m k l : Action) → (do m; k; l) ≡ (do (do m; k); l)
  >>-assoc m k l = λ i s. assoc_result (m s) k l i s

  run_all-append : (xs ys : List Step) → run_all (xs ++ ys) ≡ (do run_all xs; run_all ys)
  run_all-append [] ys = refl
  run_all-append (x ∷ xs) ys =
      ap (λ k. (do perform env x; k)) (run_all-append xs ys)
      ∙ >>-assoc (perform env x) (run_all xs) (run_all ys)

  -- Steps in order, and then an action.
  abbrev chain : List Step → Action → Action
  chain [] k = k
  chain (x ∷ xs) k = do perform env x; chain xs k

  chain_lem : (xs : List Step) (k : Action) → chain xs k ≡ (do run_all xs; k)
  chain_lem [] k = refl
  chain_lem (x ∷ xs) k =
      ap (λ m. (do perform env x; m)) (chain_lem xs k) ∙ >>-assoc (perform env x) (run_all xs) k

  run_all-chain :
      (xs ys : List Step) (k : Action) → (do run_all xs; chain ys k) ≡ (do run_all (xs ++ ys); k)
  run_all-chain xs ys k =
      ap (λ m. (do run_all xs; m)) (chain_lem ys k)
      ∙ >>-assoc (run_all xs) (run_all ys) k
      ∙ ap (λ m. (do m; k)) (sym (run_all-append xs ys))

  abbrev copy_steps : List Step
  copy_steps =
      make_module_dir ∷ copy_module module_name ∷ stat_module ∷ chmod_module module_name ∷ []

  copy_zig_files_lem : copy_zig_files env ≡ run_all copy_steps
  unfolding copy_zig_files
  copy_zig_files_lem =
      rw (copy_zig_files, (module_suffix-some env.setting).1)
        (ap
          (λ k. (do
            perform env make_module_dir
            perform env (copy_module module_name)
            perform env stat_module
            k))
          (sym (then_nothing (perform env (chmod_module module_name)))))

  build_ext_lem :
      (s : World)
      → run_build_ext env s ≡ run_all (zig_install s.zig_mode (options env) ∷ copy_steps) s
  unfolding run_build_ext
  build_ext_lem s =
      ap (λ k. (do perform env (zig_install s.zig_mode (options env)); k) s) copy_zig_files_lem

  effect-mode : (x : Step) (s : World) → (effect env x s).zig_mode ≡ s.zig_mode
  effect-mode copy_tests s = refl
  effect-mode (copy_module name) s = refl
  effect-mode (chmod_module name) s = refl
  effect-mode copy_benchmarks s = refl
  effect-mode copy_script s = refl
  effect-mode remove_benchmarks s = refl
  effect-mode remove_script s = refl
  effect-mode _ s = refl

  -- A step leaves the mode as it is.
  perform-mode : (x : Step) (s : World) → (perform env x s).1.zig_mode ≡ s.zig_mode
  unfolding perform
  perform-mode x s = ground (arith, effect-mode x (record s { begun = s.begun ++ x ∷ [] }))

  after_result :
      (r : Result Exn (Unit {0}) × World) (k l : Action) (mode : Text)
      → r.1.zig_mode ≡ mode
      → ((t : World) → t.zig_mode ≡ mode → k t ≡ l t)
      → (s : World) → (do (λ _. r); k) s ≡ (do (λ _. r); l) s
  after_result (ok _, t) k l mode h e s = e t h
  after_result (raised x, t) k l mode h e s = refl

  -- After a step, two actions that agree in the mode of the step agree.
  after_step :
      (x : Step) (k l : Action) (mode : Text) (s : World)
      → s.zig_mode ≡ mode
      → ((t : World) → t.zig_mode ≡ mode → k t ≡ l t)
      → (do perform env x; k) s ≡ (do perform env x; l) s
  after_step x k l mode s h e = after_result (perform env x s) k l mode (perform-mode x s ∙ h) e s

  -- The reference: steps in order, and then the exit with the status of a process.
  abbrev pub run_and_leave : List Step → Step → Action
  run_and_leave xs x = do run_all xs; leave env x

  module _ (run_command : CommandName → Action → Action)
      (runs : (c : CommandName) (body : Action) → run_command c body ≡ body) where
    run_build_lem :
        (mode : Text) (s : World)
        → s.zig_mode ≡ mode
        → run_build env run_command s ≡ run_all (build_steps mode module_name) s
    unfolding run_build
    run_build_lem mode s h =
        after_step build_py (do perform env copy_tests; run_command build_ext (run_build_ext env)) _
          mode s h
          (λ t g.
            after_step copy_tests (run_command build_ext (run_build_ext env)) _ mode t g (λ u f.
              ap (λ k. k u) (runs build_ext (run_build_ext env))
              ∙ build_ext_lem u
              ∙ ap (λ m. run_all (zig_install m (options env) ∷ copy_steps) u) f))

    -- The command `build`, and then an action.
    build_then :
        (mode : Text) (k : Action) (s : World)
        → s.zig_mode ≡ mode
        → (do run_command build (run_build env run_command); k) s
          ≡ (do run_all (build_steps mode module_name); k) s
    build_then mode k s h =
        ap (λ r. (do (λ _. r); k) s)
          (ap (λ m. m s) (runs build (run_build env run_command)) ∙ run_build_lem mode s h)

    run_bench_lem :
        (s : World)
        → run_bench env run_command s
          ≡ run_and_leave
              (build_steps (codes "ReleaseFast") module_name ++ measure_steps)
              run_benchmark
              (record s { zig_mode = codes "ReleaseFast" })
    unfolding run_bench
    run_bench_lem s =
        let s' = record s { zig_mode = codes "ReleaseFast" } in
        build_then (codes "ReleaseFast") (chain measure_steps (leave env run_benchmark)) s' refl
        ∙ ap (λ k. k s')
            (run_all-chain (build_steps (codes "ReleaseFast") module_name) measure_steps
              (leave env run_benchmark))

    run_test_lem :
        (s : World)
        → run_test env run_command s
          ≡ run_and_leave
              (zig_test (options env) ∷ build_steps s.zig_mode module_name ++ run_pytest ∷ [])
              run_pytest
              s
    unfolding run_test
    run_test_lem s =
        let rest = chain (run_pytest ∷ []) (leave env run_pytest) in
        let steps = build_steps s.zig_mode module_name in
        after_step (zig_test (options env)) (do run_command build (run_build env run_command); rest)
          (do run_all steps; rest) s.zig_mode s refl (build_then s.zig_mode rest)
        ∙ ap (λ k. (do perform env (zig_test (options env)); k) s)
            (run_all-chain steps (run_pytest ∷ []) (leave env run_pytest))
        ∙ ap (λ k. k s)
            (>>-assoc (perform env (zig_test (options env))) (run_all (steps ++ run_pytest ∷ []))
              (leave env run_pytest))

    -- If setuptools runs each command that is asked for: bench and test come to a fixed sequence of
    -- steps, in which the first step that raises ends the command, and after which `SystemExit` is
    -- raised with what subprocess.call has returned for the benchmark, or for pytest, a negative
    -- number if a signal has ended it. bench builds with ReleaseFast and removes its two copies
    -- after the benchmark; test runs the tests of Zig first, and builds in the mode that was
    -- chosen.
    pub commands-steps :
        (s : World)
        → let bench_steps = build_steps (codes "ReleaseFast") module_name ++ measure_steps in
          let test_steps =
            zig_test (options env) ∷ build_steps s.zig_mode module_name ++ run_pytest ∷ [] in
          (run_bench env run_command s
            ≡ run_and_leave bench_steps run_benchmark (record s { zig_mode = codes "ReleaseFast" }))
          × (run_test env run_command s ≡ run_and_leave test_steps run_pytest s)
    commands-steps s = (run_bench_lem s, run_test_lem s)
