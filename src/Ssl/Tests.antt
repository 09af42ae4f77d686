-- ===== src/Ssl/Tests.antt =====
-- Runs of a TLS connection over a simple SSL object and raw transport, and the theorems about it at
-- concrete inputs.
mod Connect
mod Channel
mod Inbound
mod Life
mod EndToEnd
use talyn.Ssl.Order.{write_overtakes}
use talyn.Ssl.Shutdown.{start_shutdown-IsEnding, BeginsOrWaits, close_after_lost}
use talyn.Ssl.Bio.{join}
use talyn.Ssl.Handshake.{RawEvent, run, lost_leaves_waiting}
use talyn.Ssl.Protocol.Client
use talyn.Ssl.Protocol.StartTls
use talyn.Ssl.Protocol.{read_and_deliver, read_loop, deliver}
use talyn.Ssl.Reading.{ReadLaws}
use talyn.Ssl.Draining.{flush_write_buffer-stream, flush_write_buffer_ends}
use talyn.Ssl.Wrapper.{
  raw_write, flush_chunk, flush, flush_chunks, close, after_write, write, start_shutdown,
  flush_write_buffer, flush_outgoing, flush_client,
}
use talyn.Ssl.Plaintext.{taken, stream}
use talyn.Ssl.Laws.{obj_of, RaisesReal, WriteLaws}
use talyn.Ssl.Ciphertext.{flush_client-wire, wire, SendLaws}
use talyn.Base.{
  List-cases, inl, ◌⊎◌, take, length, arith, ◌++◌, if◌then◌else◌, Bool, ℕ, none, some, true, false,
  [], ◌∷◌, ◌≡◌, refl, inr, ltb, ◌≢◌,
}
use talyn.Base.Exec.{raised, ok}
use talyn.Ssl.State.{
  failed, data_received, attribute_error, out_of_fuel, Tls, Kind, Effect, Env, Conn, Bytes, Engine,
  Transport, want_read, waiting, queued, refused, paused,
}

-- An SSL object that takes two bytes at a time, and whose ciphertext is the plaintext.
abbrev portion : Bytes → ℕ
portion d = if ltb 2 (length d) then 2 else length d

abbrev engine : Engine Bytes
engine = record {
  write = λ d t. (
    ok (portion d),
    record t { obj = t.obj ++ take (portion d) d; outgoing = t.outgoing ++ take (portion d) d },
  );
  read = λ t. (raised want_read, t);
  do_handshake = λ t. (ok tt, t);
  unwrap = λ t. (raised want_read, t);
  backlog = λ t. 0;
}

record Wire : Type 0 where
  bytes : Bytes
  full : Bool
  shut : Bool

abbrev transport : Transport Wire
transport = record {
  write =
      λ d r. if r.full then (refused paused, r) else (queued, record r { bytes = r.bytes ++ d });
  call = λ c r. record r { shut = true };
  is_closing = λ r. r.shut;
}

abbrev env_of : Kind → Env Bytes Wire
env_of k = record {
  kind = k;
  engine = engine;
  transport = transport;
  app = λ _ s. (ok tt, s);
  keep_open = false;
  has_pause_writing = true;
  has_resume_writing = true;
  shutdown_timeout = none;
  loop_open = true;
}

abbrev tls : Tls Bytes
tls = record { obj = []; incoming = []; outgoing = [] }

abbrev fresh : Conn Bytes Wire
fresh = record {
  closing = false;
  timer = none;
  write_buffer = [];
  handshaken = true;
  writing_paused = false;
  write_wants_read = false;
  write_wants_write = false;
  running = true;
  wrapped = true;
  tls = some tls;
  raw = record { bytes = []; full = false; shut = false };
  waiter = waiting;
  trace = [];
}

engine-WriteLaws : WriteLaws engine (λ (o : Bytes). o)
engine-WriteLaws = record { write_ok = λ d t n e. ground (arith); write_raised = λ d t x e. cc }

transport-SendLaws : SendLaws transport (λ (r : Wire). r.bytes)
transport-SendLaws = record {
  write_queued = λ d r e. ground arith;
  write_crossed = λ d r e. ground arith;
  write_refused = λ d r x e. ground arith;
}

env-RaisesReal : (k : Kind) → RaisesReal (env_of k)
env-RaisesReal k = record { engine_write = λ d t e. cc; transport_write = λ d r e. ground arith }

write_twice :
    let s =
      (write
        (env_of Kind.client)
        (4 ∷ 5 ∷ [])
        (write (env_of Kind.client) (1 ∷ 2 ∷ 3 ∷ []) fresh).1).1 in
    (obj_of s.tls ≡ some (1 ∷ 2 ∷ 4 ∷ 5 ∷ [])) × (s.write_buffer ≡ (3 ∷ []) ∷ [])
unfolding write after_write flush flush_client raw_write
write_twice = (refl, refl)

flush_run :
    (flush_write_buffer
      (env_of Kind.client)
      (record fresh { write_buffer = (1 ∷ 2 ∷ 3 ∷ []) ∷ (4 ∷ []) ∷ [] })).1.raw.bytes
    ≡ 1 ∷ 2 ∷ 3 ∷ 4 ∷ []
unfolding flush_write_buffer flush_chunks flush_chunk flush_outgoing raw_write
flush_run = refl

abbrev holding : Conn Bytes Wire
holding = record fresh { write_buffer = (3 ∷ []) ∷ [] }

write_overtakes_example :
    let s' = (write (env_of Kind.client) (4 ∷ 5 ∷ []) holding).1 in
    (taken (env_of Kind.client) (λ o. o) (obj_of s'.tls) ≡ 4 ∷ 5 ∷ [])
    × (join s'.write_buffer ≡ 3 ∷ [])
    × (stream (env_of Kind.client) (λ o. o) s' ≢ 3 ∷ 4 ∷ 5 ∷ [])
write_overtakes_example =
    write_overtakes (env_of Kind.client) (λ o. o) engine-WriteLaws (λ s. refl) 3 4 [] (5 ∷ []) [] 1
      holding tls refl refl refl refl (omega arith)

flush_write_buffer_ends_example :
    (flush_write_buffer (env_of Kind.server) holding).0 ≢ raised out_of_fuel
flush_write_buffer_ends_example =
    flush_write_buffer_ends (env_of Kind.server) (λ o. o) engine-WriteLaws (λ s. refl)
      (env-RaisesReal Kind.server) holding

flush_write_buffer-stream_example :
    stream (env_of Kind.server) (λ o. o) (flush_write_buffer (env_of Kind.server) holding).1
    ≡ 3 ∷ []
unfolding flush_write_buffer flush_chunks flush_chunk flush_outgoing raw_write
flush_write_buffer-stream_example =
    flush_write_buffer-stream (env_of Kind.server) (λ o. o) engine-WriteLaws (λ s. refl)
      (λ d t. refl) holding refl

-- Ciphertext waits in the BIO, and the raw transport takes nothing.
abbrev blocked : Conn Bytes Wire
blocked = record fresh {
  tls = some (record tls { outgoing = 8 ∷ 9 ∷ [] });
  raw = record { bytes = 7 ∷ []; full = true; shut = false };
}

flush_client-wire_example :
    let s' = flush_client (env_of Kind.client) blocked in
    (s'.0 ≡ ok tt) × (wire (env_of Kind.client) (λ r. r.bytes) s'.1 ≡ 7 ∷ 8 ∷ 9 ∷ [])
flush_client-wire_example =
    flush_client-wire (env_of Kind.client) (λ r. r.bytes) transport-SendLaws (λ s. refl) blocked _
      refl refl

start_shutdown-IsEnding_example :
    BeginsOrWaits (env_of Kind.client) fresh (start_shutdown (env_of Kind.client) fresh).1
unfolding start_shutdown flush_write_buffer flush_chunks flush_outgoing flush flush_client raw_write
start_shutdown-IsEnding_example =
    start_shutdown-IsEnding (env_of Kind.client) (λ r. refl) fresh refl

abbrev lost_conn : Conn Bytes Wire
lost_conn = record fresh { tls = none }

close_after_lost_example :
    let s' = record lost_conn { closing = true; trace = Effect.logged ∷ [] } in
    (close (env_of Kind.client) lost_conn ≡ (raised attribute_error, s'))
    × (close (env_of Kind.client) s' ≡ (ok tt, s'))
close_after_lost_example = close_after_lost (env_of Kind.client) lost_conn refl refl refl

-- An SSL object that gives what it received byte by byte, and remembers it.
abbrev reader : Engine Bytes
reader = record engine {
  read = λ t. elim t.incoming [
    | [] ↦ (raised want_read, t)
    | b ∷ rest ↦ (ok (b ∷ []), record t { obj = t.obj ++ b ∷ []; incoming = rest })
  ];
  backlog = λ t. length t.incoming;
}

reader-ReadLaws : ReadLaws reader (λ (o : Bytes). o)
reader-ReadLaws = record {
  read_ok = λ t d h. elim (List-cases t.incoming) [
    | inl e ↦ ground arith
    | inr (b, rest, e) ↦ ground arith
  ];
  read_raised = λ t x h. elim (List-cases t.incoming) [
    | inl e ↦ ground arith
    | inr (b, rest, e) ↦ ground arith
  ];
  read_backlog = λ t b d h. elim (List-cases t.incoming) [
    | inl e ↦ ground arith
    | inr (c, rest, e) ↦ ground arith
  ];
  read_real = λ t h. elim (List-cases t.incoming) [
    | inl e ↦ ground arith
    | inr (b, rest, e) ↦ ground arith
  ];
}

abbrev reading_env : Env Bytes Wire
reading_env = record (env_of Kind.client) { engine = reader }

abbrev received_three : Tls Bytes
received_three = record { obj = []; incoming = 1 ∷ 2 ∷ 3 ∷ []; outgoing = [] }

abbrev ready : Conn Bytes Wire
ready = record fresh { tls = some received_three }

-- The three bytes reach the application together.
read_three :
    (read_and_deliver reading_env ready).1.trace
    ≡ Effect.app_call (data_received (1 ∷ 2 ∷ 3 ∷ [])) ∷ []
unfolding read_and_deliver read_loop deliver
read_three = refl

-- The raw connection goes in the middle of a handshake; more calls of the raw transport follow.
lost_leaves_waiting_example :
    let e = env_of Kind.client in
    ((run e
        (Client.lost e none (record fresh { handshaken = false })).1
        (RawEvent.receives (1 ∷ []) ∷ RawEvent.ends ∷ RawEvent.resumes ∷ [])).waiter
      ≡ waiting)
    × ((StartTls.lost e none (record fresh { handshaken = false })).1.waiter
        ≡ failed (StartTls.reason e none))
lost_leaves_waiting_example =
    lost_leaves_waiting (env_of Kind.client) (λ c s. (refl, refl))
      (record fresh { handshaken = false }) none
      (RawEvent.receives (1 ∷ []) ∷ RawEvent.ends ∷ RawEvent.resumes ∷ []) refl
