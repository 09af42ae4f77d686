-- ===== src/Subprocess/Delegates.antt =====
-- The methods of `_TransportWrapper` of `subprocess_exec`, talyn/loop.py, that hand a call on to the
-- native transport of the child, and `get_extra_info`.
use talyn.Base.{none, some, ℕ, Option, Bool}
use talyn.Base.Exec.{Exec}
use talyn.Base.Int.{ℤ}

-- The calls that act on the child; `send_signal` has its number.
pub data SignalCall : Type 0 where
  kill terminate : SignalCall
  send_signal : ℕ → SignalCall

-- The native transport: what it answers, and what it does on a call, which may raise. Its
-- `get_extra_info` takes a name and a default; it may be missing.
pub record NativeChild (Raw : Type 0) : Type 0 where
  pub pid : Raw → ℕ
  pub returncode : Raw → Option ℤ
  pub closing : Raw → Bool
  pub call : SignalCall → Exec Raw ℕ (Unit {0})
  pub extra : Option (Raw → ℕ → Option ℕ → Option ℕ)

pub data ExtraName : Type 0 where
  subprocess : ExtraName
  named : ℕ → ExtraName

-- `popen`, or what the native transport says, or the default.
pub data Extra : Type 0 where
  the_popen : Extra
  answer : Option ℕ → Extra

module _ {Raw : Type 0} (native : NativeChild Raw) where
  unfoldable pub get_pid : Raw → ℕ
  get_pid raw = native.pid raw

  unfoldable pub get_returncode : Raw → Option ℤ
  get_returncode raw = native.returncode raw

  unfoldable pub is_closing : Raw → Bool
  is_closing raw = native.closing raw

  -- `kill`, `terminate` and `send_signal`
  unfoldable pub signal : SignalCall → Exec Raw ℕ (Unit {0})
  signal c = native.call c

  unfoldable pub get_extra_info : ExtraName → Option ℕ → Raw → Extra
  get_extra_info subprocess default raw = the_popen
  get_extra_info (named n) default raw = elim native.extra [
    | none ↦ answer default
    | some getter ↦ answer (getter raw n default)
  ]
