-- ===== src/Subprocess/Command.antt =====
-- How `subprocess_shell` and `subprocess_exec` of talyn/loop.py check their arguments and choose
-- the child's standard files.
use talyn.Base.{zero, ℕ, Bool, true, false, not, Option, none, some, is_some, if◌then◌else◌}
use talyn.Base.Int.{ℤ, pos}

-- The arguments of `subprocess_shell` that are only checked; `text` is its truth value, the texts
-- are numbers.
pub record ShellArgs : Type 0 where
  pub is_text : Bool
  pub universal_newlines : Bool
  pub shell : Bool
  pub bufsize : ℤ
  pub text : Bool
  pub encoding : Option ℕ
  pub errors : Option ℕ

-- The `ValueError`s, by what the message is about.
pub data ValueError : Type 0 where
  about_cmd about_universal_newlines about_shell about_bufsize about_text : ValueError
  about_encoding about_errors : ValueError

abbrev pub is_zero : ℤ → Bool
is_zero (pos zero) = true
is_zero _ = false

-- `if b: raise ValueError(...)`, then the rest
abbrev pub refuse : Bool → ValueError → Option ValueError → Option ValueError
refuse b e rest = if b then some e else rest

-- The checks at the head of `subprocess_shell`: what it raises.
unfoldable pub shell_error : ShellArgs → Option ValueError
shell_error a = refuse (not a.is_text) about_cmd (
    refuse a.universal_newlines about_universal_newlines (
      refuse (not a.shell) about_shell (
        refuse (not (is_zero a.bufsize)) about_bufsize (
          refuse a.text about_text (
            refuse (is_some a.encoding) about_encoding
              (refuse (is_some a.errors) about_errors none))))))

-- A standard file of the child.
pub data Stdio : Type 0 where
  pipe devnull : Stdio
  file : ℕ → Stdio

-- `default if arg is None else arg`
abbrev pub or_default : Stdio → Option Stdio → Stdio
or_default default none = default
or_default default (some f) = f

-- What the factory's first protocol is: the factory raised, a stream protocol (it has `stdin`), or
-- another one.
pub data Sample : Type 0 where
  no_sample streams plain : Sample

pub record Files : Type 0 where
  pub stdin : Option Stdio
  pub stdout : Option Stdio
  pub stderr : Option Stdio

-- The arguments that `Popen` is given.
unfoldable pub stdin_arg : Sample → Files → Stdio
stdin_arg _ f = or_default devnull f.stdin

unfoldable pub stdout_arg : Sample → Files → Stdio
stdout_arg plain f = or_default pipe f.stdout
stdout_arg _ f = or_default devnull f.stdout

unfoldable pub stderr_arg : Sample → Files → Stdio
stderr_arg plain f = or_default pipe f.stderr
stderr_arg _ f = or_default devnull f.stderr

-- Popen opens a file object of the parent exactly for a pipe.
abbrev pub is_pipe : Stdio → Bool
is_pipe pipe = true
is_pipe _ = false
