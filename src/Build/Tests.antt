-- ===== src/Build/Tests.antt =====
-- Runs of setup.py's configuration for two targets, and the theorem about it at a concrete input.
mod Commands
use talyn.Base.{refl, none, some, true, [], ◌∷◌, ◌≡◌}
use talyn.Base.Text.{Text, codes}
use talyn.Build.{
  Setting, guest_name, host_name, first_part, is_cross_build, zig_compiler_options, link_options,
  target, python_include_dir,
}

abbrev pub setting : Text → Setting
setting t = record {
  zig_target = some t;
  zig_cpu = none;
  want_asan = some [];
  want_debug_alloc = none;
  machine = codes "x86_64";
  include_dir = codes "/usr/include";
  so_path = codes "/usr/lib";
  so_name = codes "libpython3.so";
  ext_suffix = codes ".cpython-314-x86_64-linux-gnu.so";
  is_gil_enabled = true;
}

abbrev pub arm_target : Text
arm_target = codes "arm64-linux-gnu"

-- No library of Python in a cross build.
cross_options :
    zig_compiler_options (setting arm_target)
    ≡ target arm_target ∷ python_include_dir (codes "/usr/include") ∷ []
unfolding zig_compiler_options link_options is_cross_build guest_name host_name first_part
cross_options = refl
