-- ===== src/Subprocess/ReadPipe.antt =====
-- `_ReadPipeTransport` of `subprocess_exec`, talyn/loop.py. The pipe is the sequence of what
-- `os.read` answers. The protocol may call back into the transport.
use talyn.Base.{ℕ, suc, Bool, true, false, ◌||◌, List, [], ◌∷◌, ◌++◌, if◌then◌else◌}

abbrev pub Bytes : Type 0
Bytes = List ℕ

-- An answer of `os.read`: bytes, none at the end of the file; `BlockingIOError`; another `OSError`.
pub data ReadResult : Type 0 where
  chunk : Bytes → ReadResult
  would_block os_error : ReadResult

pub data Told : Type 0 where
  pipe_data_received : Bytes → Told
  pipe_connection_lost : Told

-- A call of the protocol on its transport.
pub data Request : Type 0 where
  pause resume close : Request

pub record ReadPipe : Type 0 where
  -- The loop has a reader for the file.
  pub armed : Bool
  pub closing : Bool
  pub closed : Bool
  pub eof : Bool
  pub has_protocol : Bool
  pub source : List ReadResult
  pub told : List Told
  pub logged : ℕ

-- What the loop and the protocol do: whether `add_reader` and `remove_reader` raise, what the
-- protocol does to its transport in a callback, after all that it has been told, and whether it
-- raises then.
pub record Env : Type 0 where
  pub add_fails : Bool
  pub remove_fails : Bool
  pub reaction : List Told → List Request
  pub raises : List Told → Bool

abbrev pub log : ReadPipe → ReadPipe
log s = record s { logged = suc s.logged }

module _ (env : Env) where
  -- `add_reader` and `remove_reader` under `try`
  unfoldable pub arm : ReadPipe → ReadPipe
  arm s = if env.add_fails then log s else record s { armed = true }

  unfoldable pub disarm : ReadPipe → ReadPipe
  disarm s = if env.remove_fails then log s else record s { armed = false }

  unfoldable pub resume_reading : ReadPipe → ReadPipe
  resume_reading s = if s.closed || s.eof then s else arm s

  unfoldable pub close_reading : ReadPipe → ReadPipe
  close_reading s = if s.closed then s else disarm (record s { closing = true; closed = true })

  unfoldable pub request : Request → ReadPipe → ReadPipe
  request pause s = disarm s
  request resume s = resume_reading s
  request close s = close_reading s

  unfoldable pub request_all : List Request → ReadPipe → ReadPipe
  request_all [] s = s
  request_all (r ∷ rs) s = request_all rs (request r s)

  -- A callback of the protocol, if there is one, under `try`.
  unfoldable pub tell : Told → ReadPipe → ReadPipe
  tell c s =
      if s.has_protocol
      then (let told' = s.told ++ c ∷ [] in
          let s' = request_all (env.reaction told') (record s { told = told' }) in
          if env.raises told' then log s' else s')
      else s

  unfoldable pub at_end : ReadPipe → ReadPipe
  at_end s = tell pipe_connection_lost (disarm (record s { eof = true }))

  unfoldable pub after_read : ReadResult → ReadPipe → ReadPipe
  after_read would_block s = arm s
  after_read os_error s = at_end s
  after_read (chunk []) s = at_end s
  after_read (chunk (b ∷ d)) s = arm (tell (pipe_data_received (b ∷ d)) s)

  -- `_on_readable`; a read of a pipe that has no more to say blocks.
  unfoldable pub on_readable : ReadPipe → ReadPipe
  on_readable s = if s.eof || s.closed then disarm s else elim s.source [
    | [] ↦ after_read would_block s
    | r ∷ rest ↦ after_read r (record s { source = rest })
  ]

-- `__init__` and `set_protocol`
abbrev pub opened : List ReadResult → ReadPipe
opened source = record {
  armed = true;
  closing = false;
  closed = false;
  eof = false;
  has_protocol = true;
  source = source;
  told = [];
  logged = 0;
}

abbrev pub is_closing : ReadPipe → Bool
is_closing s = s.closing || s.closed

-- What happens to the transport: the loop finds the file readable, or the program calls it.
pub data Event : Type 0 where
  readable : Event
  asks : Request → Event

module _ (env : Env) where
  -- The loop calls `_on_readable` only while the reader is registered.
  unfoldable pub step : ReadPipe → Event → ReadPipe
  step s Event.readable = if s.armed then on_readable env s else s
  step s (Event.asks r) = request env r s

  unfoldable pub run : ReadPipe → List Event → ReadPipe
  run s [] = s
  run s (e ∷ es) = run (step s e) es
