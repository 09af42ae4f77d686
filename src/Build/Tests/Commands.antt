-- ===== src/Build/Tests/Commands.antt =====
-- The commands of setup.py, where a signal ends the benchmark.
use talyn.Base.Exec.{raised}
use talyn.Build.{
  replace_first, first_part, host_name, guest_name, cross_ext_suffix, is_cross_build, module_suffix,
}
use talyn.Base.Int.{negsuc}
use talyn.Base.{◌≡◌, ◌∷◌, none, ◌++◌, [], refl, false}
use talyn.Base.Text.{codes}
use talyn.Build.Tests.{setting, arm_target}
use talyn.Build.Commands.{
  system_exit, run_benchmark, run_pytest, copy_zig_files, run_build_ext, zig_test, run_build,
  perform, World, Env, Action, CommandName, run_bench, run_test, options,
}
use talyn.Build.Steps.{commands-steps, build_steps, module_name, measure_steps, run_and_leave}

abbrev sound : Env
sound = record {
  setting = setting arm_target;
  fails = λ x. false;
  status = λ x. negsuc 10;
  built_mode = record { user = false; group = false; others = false; rest = 420 };
}

abbrev clean : World
clean = record {
  zig_mode = codes "Debug";
  begun = [];
  module_file = none;
  has_tests = false;
  has_benchmarks = false;
  has_script = false;
}

abbrev run_it : CommandName → Action → Action
run_it c body = body

commands-steps_example :
    let bench_steps =
      build_steps sound (codes "ReleaseFast") (module_name sound) ++ measure_steps in
    let test_steps =
      zig_test (options sound) ∷ build_steps sound (codes "Debug") (module_name sound)
      ++ run_pytest ∷ [] in
    (run_bench sound run_it clean
      ≡ run_and_leave sound bench_steps run_benchmark
          (record clean { zig_mode = codes "ReleaseFast" }))
    × (run_test sound run_it clean ≡ run_and_leave sound test_steps run_pytest clean)
commands-steps_example = commands-steps sound run_it (λ c body. refl) clean

-- The status -11, and the copies, which are gone.
bench_exits :
    (run_bench sound run_it clean).0 ≡ raised (system_exit (negsuc 10))
    × ((run_bench sound run_it clean).1.has_benchmarks ≡ false)
unfolding run_bench perform run_build run_build_ext copy_zig_files module_suffix is_cross_build
    cross_ext_suffix guest_name host_name first_part replace_first
bench_exits = (refl, refl)
