-- ===== src/Ssl/Tests/Inbound.antt =====
-- The way in of a TLS connection, at a concrete history.
use talyn.Base.Exec.{ok}
use talyn.Ssl.State.{Env, Engine, Bytes}
use talyn.Ssl.Reading.{ReadLaws}
use talyn.Base.{refl, ◌++◌, length, [], ◌∷◌, some, ◌≡◌, List}
use talyn.Ssl.Protocol.Client
use talyn.Ssl.Wrapper.{
  write, after_write, flush, flush_client, raw_write, close, start_shutdown, flush_write_buffer,
  flush_chunks, after_unwrap, await_peer, flush_outgoing,
}
use talyn.Ssl.Protocol.{buffer_updated, read_and_deliver, read_loop, deliver}
use talyn.Ssl.Tests.{Wire, reading_env, reader, reader-ReadLaws, fresh}
use talyn.Ssl.Inbound.{heard, given_of, OnlyRead, all_quiet}
use talyn.Ssl.Lifecycle.{LifeEvent, receives, writes, closes, life_run, life_step, client, received}
use talyn.Ssl.Inbound.History.{life_run-heard}

-- The reader with a separate way out.
abbrev pub duplex : Engine Bytes
duplex = record reader { write = λ d t. (ok (length d), record t { outgoing = t.outgoing ++ d }) }

abbrev pub duplex_env : Env Bytes Wire
duplex_env = record reading_env { engine = duplex }

pub duplex-ReadLaws : ReadLaws duplex (λ (o : Bytes). o)
duplex-ReadLaws = record {
  read_ok = reader-ReadLaws.read_ok;
  read_raised = reader-ReadLaws.read_raised;
  read_backlog = reader-ReadLaws.read_backlog;
  read_real = reader-ReadLaws.read_real;
}

pub duplex-OnlyRead : OnlyRead duplex (λ (o : Bytes). o)
duplex-OnlyRead = record {
  write_given = λ d t. refl;
  handshake_given = λ t. refl;
  unwrap_given = λ t. refl;
}

abbrev history : List LifeEvent
history = receives (1 ∷ 2 ∷ []) ∷ writes (9 ∷ []) ∷ receives (3 ∷ []) ∷ closes ∷ []

life_run-heard_example :
    let s' = life_run duplex_env client fresh history in
    given_of (λ (o : Bytes). o) s'.tls ≡ some (heard s'.trace)
unfolding all_quiet life_step received heard Client.received Client.r buffer_updated
    read_and_deliver read_loop deliver write after_write flush flush_client raw_write close
    start_shutdown flush_write_buffer flush_chunks flush_outgoing after_unwrap await_peer
life_run-heard_example =
    life_run-heard duplex_env (λ (o : Bytes). o) duplex-ReadLaws duplex-OnlyRead
      (λ c s. (refl, refl)) client fresh history refl refl

-- The three bytes reach the application.
heard_three : heard (life_run duplex_env client fresh history).trace ≡ 1 ∷ 2 ∷ 3 ∷ []
unfolding life_run life_step received heard Client.received Client.r buffer_updated read_and_deliver
    read_loop deliver write after_write flush flush_client raw_write close start_shutdown
    flush_write_buffer flush_chunks flush_outgoing after_unwrap await_peer
heard_three = refl
