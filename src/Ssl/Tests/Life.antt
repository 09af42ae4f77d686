-- ===== src/Ssl/Tests/Life.antt =====
-- The life of a TLS connection, at a concrete history.
use talyn.Ssl.Wrapper.{
  protocol_pause_writing, flush_outgoing, flush_chunks, flush_write_buffer, raw_write, flush_client,
  flush,
}
use talyn.Ssl.Protocol.{
  resume_writing, deliver, read_loop, read_and_deliver, buffer_updated, after_handshake, handshake,
  connection_made, new_conn,
}
use talyn.Ssl.Bio.{is_empty}
use talyn.Base.Exec.{raised, ok}
use talyn.Ssl.State.{want_read, Bytes, Env, Engine}
use talyn.Ssl.Lifecycle.{
  follows, unconnected, connected, client, lost, loses, eof, resume, ends, resumes, pause, received,
  pauses, made, receives, initial, life_step, life_run, LifeEvent, phase, all_go_on,
}
use talyn.Ssl.Protocol.Client
use talyn.Base.{◌⊎◌, ◌≡◌, none, if◌then◌else◌, ◌++◌, ◌∷◌, length, false, [], List, refl, true}
use talyn.Ssl.Tests.{Wire, reading_env, reader}
use talyn.Ssl.Lifecycle.Life.{life_run-ordered}

-- The reader, with a handshake that waits for the peer and a way out of its own.
abbrev late : Engine Bytes
late = record reader {
  write = λ d t. (ok (length d), record t { outgoing = t.outgoing ++ d });
  do_handshake = λ t. if is_empty t.incoming then (raised want_read, t) else (ok tt, t);
}

abbrev late_env : Env Bytes Wire
late_env = record reading_env { engine = late }

abbrev wire : Wire
wire = record { bytes = []; full = false; shut = false }

abbrev life : List LifeEvent
life =
    receives []
    ∷ pauses
    ∷ resumes
    ∷ receives (1 ∷ 2 ∷ [])
    ∷ receives (3 ∷ [])
    ∷ ends
    ∷ loses none
    ∷ []

life_run-ordered_example :
    let s = life_run late_env client (made late_env client (initial client [] wire)).1 life in
    ((phase s.trace ≡ unconnected)
      × (s.handshaken ≡ false)
      × (follows client false s.waiter ≡ true))
    ⊎ ((phase s.trace ≡ connected) × (s.handshaken ≡ true) × (follows client true s.waiter ≡ true))
unfolding all_go_on life_step initial made received pause resume eof lost Client.initial new_conn
    Client.made connection_made Client.h handshake after_handshake Client.received Client.r
    Client.pause_writing Client.resume_writing Client.eof Client.lost buffer_updated
    read_and_deliver read_loop deliver flush flush_client raw_write flush_write_buffer flush_chunks
    flush_outgoing resume_writing protocol_pause_writing
life_run-ordered_example =
    life_run-ordered late_env (λ c s. (refl, refl, refl)) client [] wire life refl refl

-- The application is connected once, at the end of the handshake, and then given the bytes.
life_connected :
    phase (life_run late_env client (made late_env client (initial client [] wire)).1 life).trace
    ≡ connected
unfolding phase life_run life_step initial made received pause resume eof lost Client.initial
    new_conn Client.made connection_made Client.h handshake after_handshake Client.received Client.r
    Client.pause_writing Client.resume_writing Client.eof Client.lost buffer_updated
    read_and_deliver read_loop deliver flush flush_client raw_write flush_write_buffer flush_chunks
    flush_outgoing resume_writing protocol_pause_writing
life_connected = refl
