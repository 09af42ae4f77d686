-- ===== src/Loop/Handlers.antt =====
-- Exception handlers of `class Loop`, talyn/loop.py: setting and reading them, calling them, the
-- default handler, and their users `_dispatch_*` and `shutdown_asyncgens`. Handlers, protocols
-- and values are numbers; a text is a list of code points.
use talyn.Base.{ℕ, Bool, true, false, Option, none, some, List, [], ◌∷◌, ◌++◌, if◌then◌else◌}
use talyn.Base.Exec.{ok, raised, Exec, pure, raise, gets, modify, ◌>>◌, catch, when}

abbrev pub Text : Type 0
Text = List ℕ

-- What a handler or a protocol raises: a `TypeError` whose message is or is not about positional
-- arguments, another `Exception`, or a `BaseException` that is none.
pub data Exn : Type 0 where
  wrong_arguments other_type_error : Exn
  other_exception base_exception : ℕ → Exn

-- `except Exception`
abbrev pub is_exception : Exn → Bool
is_exception (base_exception _) = false
is_exception _ = true

pub data Key : Type 0 where
  message_key exception_key callback_key future_key task_key handle_key : Key
  protocol_key transport_key socket_key asyncgen_key : Key

pub data Value : Type 0 where
  text : Text → Value
  object generator : ℕ → Value
  error : Exn → Value

abbrev pub Context : Type 0
Context = List (Key × Value)

-- `default_exception_handler` of this loop, or a callable of the user.
pub data Handler : Type 0 where
  default : Handler
  user : ℕ → Handler

-- What happened: a user's handler was called, with the loop or without it, or the default handler
-- logged: the first line, the lines for the keys, `exc_info`.
pub data Entry : Type 0 where
  with_loop without_loop : ℕ → Context → Entry
  logged : (message : Value) (details : Context) (exc_info : Option Value) → Entry

pub record Handlers : Type 0 where
  pub exception_handler : Handler
  pub user_exception_handler : Option Handler
  pub entries : List Entry

abbrev pub fresh : Handlers
fresh = record { exception_handler = default; user_exception_handler = none; entries = [] }

abbrev pub Action : Type 0 → Type 0
Action A = Exec Handlers Exn A

-- What the user's handlers do with the two ways of calling them, the texts that the code writes,
-- which objects count as false, and what `repr` raises of an object or an exception. The `repr` of
-- a text and of a generator is the language's own.
pub record Env : Type 0 where
  pub handle_with_loop : ℕ → Context → Option Exn
  pub handle_alone : ℕ → Context → Option Exn
  pub unhandled : Text
  pub dispatch_text : ℕ → Text
  pub closing_text : ℕ → Text
  pub is_falsy : ℕ → Bool
  pub repr_raises : Value → Option Exn

-- `set_exception_handler`: nothing, or an object that may not be callable.
pub data Given : Type 0 where
  nothing : Given
  handler : Handler → Given
  not_callable : Given

abbrev pub enter : Entry → Action (Unit {0})
enter e = modify (λ s. record s { entries = s.entries ++ e ∷ [] })

abbrev pub outcome : Option Exn → Action (Unit {0})
outcome none = pure tt
outcome (some e) = raise e

-- `context.get("message")` and `context.get("exception")`
abbrev pub get_message : Context → Option Value
get_message [] = none
get_message ((message_key, v) ∷ c) = some v
get_message (_ ∷ c) = get_message c

abbrev pub get_exception : Context → Option Value
get_exception [] = none
get_exception ((exception_key, v) ∷ c) = some v
get_exception (_ ∷ c) = get_exception c

abbrev pub is_detail : Key → Bool
is_detail message_key = false
is_detail exception_key = false
is_detail _ = true

-- The loop over `context.items()`.
abbrev pub details : Context → Context
details [] = []
details ((k, v) ∷ c) = let rest = details c in if is_detail k then (k, v) ∷ rest else rest

unfoldable pub set_exception_handler : Given → Action (Unit {0})
set_exception_handler nothing s =
    (ok tt, record s { exception_handler = default; user_exception_handler = none })
set_exception_handler (handler h) s =
    (ok tt, record s { exception_handler = h; user_exception_handler = some h })
set_exception_handler not_callable s = (raised other_type_error, s)

unfoldable pub get_exception_handler : Action (Option Handler)
get_exception_handler = gets (λ s. s.user_exception_handler)

-- The keyword arguments of `_call_exception_handler` in the order of its tests.
abbrev pub present : List (Key × Option Value) → Context
present [] = []
present ((k, none) ∷ kvs) = present kvs
present ((k, some v) ∷ kvs) = (k, v) ∷ present kvs

pub record Keywords : Type 0 where
  pub message : Option Value
  pub callback : Option Value
  pub future : Option Value
  pub task : Option Value
  pub handle : Option Value
  pub protocol : Option Value
  pub transport : Option Value
  pub socket : Option Value
  pub asyncgenerator : Option Value

abbrev pub build_context : Exn → Keywords → Context
build_context exception k =
    (exception_key, error exception)
    ∷ present (
        (message_key, k.message)
        ∷ (callback_key, k.callback)
        ∷ (future_key, k.future)
        ∷ (task_key, k.task)
        ∷ (handle_key, k.handle)
        ∷ (protocol_key, k.protocol)
        ∷ (transport_key, k.transport)
        ∷ (socket_key, k.socket)
        ∷ (asyncgen_key, k.asyncgenerator)
        ∷ [])

module _ (env : Env) where
  -- `message`, or the standard text if there is none or it is empty.
  abbrev pub first_line : Option Value → Value
  first_line none = text env.unhandled
  first_line (some (text [])) = text env.unhandled
  first_line (some (object n)) = if env.is_falsy n then text env.unhandled else object n
  first_line (some v) = v

  -- `f"{key}: {value!r}"` for the keys, in order
  abbrev pub repr_of : Value → Option Exn
  repr_of (text _) = none
  repr_of (generator _) = none
  repr_of v = env.repr_raises v

  abbrev pub first_failure : Option Exn → Option Exn → Option Exn
  first_failure none rest = rest
  first_failure (some e) rest = some e

  unfoldable pub repr_all : Context → Option Exn
  repr_all [] = none
  repr_all ((k, v) ∷ c) = first_failure (repr_of v) (repr_all c)

  -- `"\n".join(log_lines)`: only the first line may be something else than a text.
  abbrev pub join_lines : Value → Option Exn
  join_lines (text _) = none
  join_lines _ = some other_type_error

  abbrev pub log_or_raise : Entry → Option Exn → Action (Unit {0})
  log_or_raise line none = enter line
  log_or_raise line (some e) = raise e

  unfoldable pub default_exception_handler : Context → Action (Unit {0})
  unfolding repr_all
  default_exception_handler context =
      let message = first_line (get_message context) in
      log_or_raise (logged message (details context) (get_exception context))
        (first_failure (repr_all (details context)) (join_lines message))

  unfoldable pub call_with_loop : ℕ → Context → Action (Unit {0})
  call_with_loop h context = do
    enter (with_loop h context)
    outcome (env.handle_with_loop h context)

  unfoldable pub call_alone : ℕ → Context → Action (Unit {0})
  call_alone h context = do enter (without_loop h context); outcome (env.handle_alone h context)

  -- `except Exception: self.default_exception_handler(context)`
  unfoldable pub or_log : Context → Exn → Action (Unit {0})
  unfolding default_exception_handler
  or_log context e = if is_exception e then default_exception_handler context else raise e

  -- The `except` branches of `call_exception_handler`.
  unfoldable pub recover : ℕ → Context → Exn → Action (Unit {0})
  unfolding call_alone or_log default_exception_handler
  recover h context wrong_arguments = catch (call_alone h context) (or_log context)
  recover h context other_type_error = default_exception_handler context
  recover h context e = or_log context e

  unfoldable pub call_exception_handler : Context → Action (Unit {0})
  unfolding default_exception_handler call_with_loop recover
  call_exception_handler context s = elim s.exception_handler [
    | default ↦ default_exception_handler context s
    | user h ↦ catch (call_with_loop h context) (recover h context) s
  ]

  -- `self._exception_handler(context)`, as `_call_exception_handler` and `shutdown_asyncgens` do it
  unfoldable pub invoke_handler : Context → Action (Unit {0})
  unfolding default_exception_handler call_alone
  invoke_handler context s = elim s.exception_handler [
    | default ↦ default_exception_handler context s
    | user h ↦ call_alone h context s
  ]

  unfoldable pub call_exception_handler_with : Exn → Keywords → Action (Unit {0})
  unfolding invoke_handler
  call_exception_handler_with exception k = invoke_handler (build_context exception k)

  abbrev pub dispatch_context : ℕ → ℕ → Exn → Context
  dispatch_context callback protocol e =
      (message_key, text (env.dispatch_text callback))
      ∷ (exception_key, error e)
      ∷ (protocol_key, object protocol)
      ∷ []

  -- The four `_dispatch_` methods: a callback of a protocol, which raises or not. `callback` says
  -- which of the texts is used.
  unfoldable pub dispatch : ℕ → ℕ → Option Exn → Action (Unit {0})
  unfolding call_exception_handler
  dispatch callback protocol none = pure tt
  dispatch callback protocol (some e) =
      if is_exception e
      then (call_exception_handler (dispatch_context callback protocol e))
      else raise e

  abbrev pub asyncgen_context : ℕ → Exn → Context
  asyncgen_context g e =
      (message_key, text (env.closing_text g))
      ∷ (exception_key, error e)
      ∷ (asyncgen_key, generator g)
      ∷ []

  -- The loop of `shutdown_asyncgens` over the generators and what closing them came to.
  unfoldable pub report_asyncgens : List (ℕ × Option Exn) → Action (Unit {0})
  unfolding invoke_handler
  report_asyncgens [] = pure tt
  report_asyncgens ((g, none) ∷ rs) = report_asyncgens rs
  report_asyncgens ((g, some e) ∷ rs) = do
    when (is_exception e) (invoke_handler (asyncgen_context g e))
    report_asyncgens rs
