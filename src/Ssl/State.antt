-- ===== src/Ssl/State.antt =====
-- The state of one TLS connection of talyn/loop.py: the fields of its `_SSLTransportWrapper` and of its
-- protocol object, the SSL object with its two MemoryBIOs, and the raw transport.
use talyn.Base.{ℕ, Bool, Option, List}
use talyn.Base.Exec.{Exec}

abbrev pub Bytes : Type 0
Bytes = List ℕ

-- The exceptions that the code tells apart. `ssl_error` is any SSLError without a class of its own
-- here, SSLSyscallError included; `paused` is the RuntimeError "Writing operations are paused";
-- `timed_out` is the TimeoutError of `wait_for`, `cancelled` a CancelledError, and `other` any other
-- Exception. `out_of_fuel` is none of the program's: it is raised by a loop of
-- the model that was given too few rounds.
pub data Exn : Type 0 where
  want_read want_write ssl_eof ssl_error paused runtime_error attribute_error other : Exn
  connection_reset connection_aborted timed_out cancelled : Exn
  out_of_fuel : Exn

-- `_sslobj`, `_incoming` and `_outgoing`. A MemoryBIO is the bytes that it holds.
pub record Tls (Obj : Type 0) : Type 0 where
  pub obj : Obj
  pub incoming : Bytes
  pub outgoing : Bytes

-- What OpenSSL does behind the SSL object: each operation may take bytes from `incoming` and put
-- ciphertext into `outgoing`. `backlog` bounds the reads that what was received still allows.
pub record Engine (Obj : Type 0) : Type 0 where
  pub write : Bytes → Exec (Tls Obj) Exn ℕ
  pub read : Exec (Tls Obj) Exn Bytes
  pub do_handshake : Exec (Tls Obj) Exn (Unit {0})
  pub unwrap : Exec (Tls Obj) Exn (Unit {0})
  pub backlog : Tls Obj → ℕ

-- How the raw transport takes a write: the bytes are queued; they are queued and pass the high-water
-- mark, so that it calls `pause_writing` of its protocol; or it raises.
pub data WriteResult : Type 0 where
  queued crossed : WriteResult
  refused : Exn → WriteResult

pub data RawCall : Type 0 where
  close abort write_eof pause_reading resume_reading : RawCall
  set_write_buffer_limits : Option ℕ → Option ℕ → RawCall
  set_protocol : ℕ → RawCall

pub record Transport (Raw : Type 0) : Type 0 where
  pub write : Bytes → Raw → WriteResult × Raw
  pub call : RawCall → Raw → Raw
  pub is_closing : Raw → Bool

-- The calls on the application's protocol.
pub data AppCall : Type 0 where
  connection_made eof_received pause_writing resume_writing : AppCall
  data_received : Bytes → AppCall
  connection_lost : Option Exn → AppCall

-- What else is visible outside: calls on the event loop and on the logger.
pub data Effect : Type 0 where
  call_soon_fatal : Exn → Effect
  call_later : ℕ → Effect
  cancel_timer logged : Effect
  app_call : AppCall → Effect

-- The future that the caller of `create_connection` or `start_tls` awaits.
pub data Waiter : Type 0 where
  waiting done : Waiter
  failed : Exn → Waiter

pub record Conn (Obj Raw : Type 0) : Type 0 where
  -- `_SSLTransportWrapper`; the timer is the timeout that it was armed with
  pub closing : Bool
  pub timer : Option ℕ
  pub write_buffer : List Bytes
  -- the protocol object; `wrapped` says that it has its attribute `_wrapper`
  pub handshaken : Bool
  pub writing_paused : Bool
  pub write_wants_read : Bool
  pub write_wants_write : Bool
  pub running : Bool
  pub wrapped : Bool
  pub tls : Option (Tls Obj)
  pub raw : Raw
  pub waiter : Waiter
  pub trace : List Effect

-- The classes that own an SSL object: `SP` of `_create_ssl_connection`, `SSP` of `_create_ssl_server`,
-- `_SP` of `start_tls`, and `SP` and `SSP` of the two for unix sockets.
pub data Kind : Type 0 where
  client server start_tls unix_client unix_server : Kind

abbrev pub Session : Type 0 → Type 0 → Type 0 → Type 0
Session Obj Raw A = Exec (Conn Obj Raw) Exn A

-- What surrounds a connection. The application may do anything when it is called, calls of the
-- wrapper included. `loop_open`: the loop is there and is not closed.
pub record Env (Obj Raw : Type 0) : Type 0 where
  pub kind : Kind
  pub engine : Engine Obj
  pub transport : Transport Raw
  pub app : AppCall → Exec (Conn Obj Raw) Exn (Unit {0})
  -- what the application's `eof_received` returns
  pub keep_open : Bool
  pub has_pause_writing : Bool
  pub has_resume_writing : Bool
  pub shutdown_timeout : Option ℕ
  pub loop_open : Bool
