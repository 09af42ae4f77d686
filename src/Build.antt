-- ===== src/Build.antt =====
-- The build script setup.py: the options of the Zig build, and the name of the native module of a
-- cross build. The environment, the machine and the configuration of Python are arguments; texts are
-- their code points.
pub mod Cross
pub mod Commands
pub mod Steps
mod Tests
use talyn.Base.{
  length, is_some, drop, ◌||◌, ◌==◌, ◌++◌, not, if◌then◌else◌, Option, List, Bool, none, some,
  false, [], ◌∷◌,
}
use talyn.Base.Text.{Text, codes, same, is_prefix}

-- `zig_compiler_options`
pub data BuildOption : Type 0 where
  target cpu python_include_dir python_lib_dir python_lib : Text → BuildOption
  python_gil_disabled asan debug_alloc : BuildOption

-- What setup.py reads: the variables TALYN_TARGET, TALYN_CPU, TALYN_ASAN and TALYN_DEBUG_ALLOC,
-- `platform.machine()`, and INCLUDEPY, LIBDIR, INSTSONAME and EXT_SUFFIX of `sysconfig`.
pub record Setting : Type 0 where
  pub zig_target : Option Text
  pub zig_cpu : Option Text
  pub want_asan : Option Text
  pub want_debug_alloc : Option Text
  pub machine : Text
  pub include_dir : Text
  pub so_path : Text
  pub so_name : Text
  pub ext_suffix : Text
  pub is_gil_enabled : Bool

-- A variable that is set and not empty.
abbrev pub set_text : Option Text → Option Text
set_text none = none
set_text (some []) = none
set_text (some (c ∷ s)) = some (c ∷ s)

-- `s.split("-")[0]`
unfoldable pub first_part : Text → Text
first_part [] = []
first_part (c ∷ s) = let rest = first_part s in if c == b'-' then [] else c ∷ rest

abbrev arm_name : Text
arm_name = codes "arm64"

abbrev aarch_name : Text
aarch_name = codes "aarch64"

-- `if guest_arch in ("arm64", "aarch64"): guest_arch = "aarch64"`
unfoldable pub guest_name : Text → Text
guest_name s = if same s arm_name || same s aarch_name then aarch_name else s

-- `if host_arch == "arm64": host_arch = "aarch64"`
unfoldable pub host_name : Text → Text
host_name s = if same s arm_name then aarch_name else s

-- The detection of a cross build.
unfoldable pub is_cross_build : Setting → Bool
is_cross_build e = elim (set_text e.zig_target) [
  | none ↦ false
  | some t ↦ not (same (host_name e.machine) (guest_name (first_part t)))
]

abbrev option_of : (Text → BuildOption) → Option Text → List BuildOption
option_of make none = []
option_of make (some s) = make s ∷ []

abbrev flag : BuildOption → Bool → List BuildOption
flag o b = if b then o ∷ [] else []

-- The options that link the library of Python, which a cross build does not.
unfoldable pub link_options : Setting → List BuildOption
link_options e =
    if is_cross_build e
    then []
    else python_lib_dir e.so_path ∷ python_lib (e.so_path ++ b'/' ∷ e.so_name) ∷ []

unfoldable pub zig_compiler_options : Setting → List BuildOption
zig_compiler_options e =
    option_of target (set_text e.zig_target)
    ++ option_of cpu (set_text e.zig_cpu)
    ++ python_include_dir e.include_dir ∷ link_options e
    ++ flag python_gil_disabled (not e.is_gil_enabled)
    ++ flag asan (is_some (set_text e.want_asan))
    ++ flag debug_alloc (is_some (set_text e.want_debug_alloc))

-- `s.replace(old, new, 1)` for an `old` that is not empty
unfoldable pub replace_first : Text → Text → Text → Text
replace_first old new [] = []
replace_first old new (c ∷ s) =
    let rest = replace_first old new s in
    if is_prefix old (c ∷ s) then new ++ drop (length old) (c ∷ s) else c ∷ rest

-- `cross_ext_suffix`, with the guest's and the host's architecture as it computes them
unfoldable pub cross_ext_suffix : Text → Text → Text → Text
cross_ext_suffix zig_target machine suffix =
    let guest = guest_name (first_part zig_target) in
    let host = guest_name machine in
    if same host guest then suffix else replace_first host guest suffix

-- The suffix of the file that `copy_zig_files` writes; none where the `assert` fails.
unfoldable pub module_suffix : Setting → Option Text
module_suffix e =
    if is_cross_build e
    then elim e.zig_target [
      | none ↦ none
      | some t ↦ some (cross_ext_suffix t e.machine e.ext_suffix)
    ]
    else some e.ext_suffix
