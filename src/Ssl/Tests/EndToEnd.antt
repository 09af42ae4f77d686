-- ===== src/Ssl/Tests/EndToEnd.antt =====
-- Two TLS connections whose SSL objects are peers, at concrete histories.
use talyn.Ssl.Wrapper.{
  flush_plain, protocol_pause_writing, flush_outgoing, flush_chunk, raw_write, flush_client, flush,
  after_write, write, flush_chunks, flush_write_buffer,
}
use talyn.Ssl.Protocol.{deliver, read_loop, read_and_deliver, buffer_updated}
use talyn.Base.{List, refl, ◌++◌, ◌≡◌, [], ◌∷◌}
use talyn.Ssl.State.{Env, Bytes, Kind}
use talyn.Ssl.Protocol.Server
use talyn.Ssl.Bio.{join}
use talyn.Ssl.Tests.{Wire, env_of, fresh, engine-WriteLaws}
use talyn.Ssl.Tests.Inbound.{duplex_env, duplex-ReadLaws, duplex-OnlyRead}
use talyn.Ssl.Channel
use talyn.Ssl.Channel.{channel_run, ChannelEvent, all_well, channel_step}
use talyn.Ssl.Inbound.{heard, all_quiet}
use talyn.Ssl.Lifecycle
use talyn.Ssl.Lifecycle.{client, receives, LifeEvent, life_run, life_step, server, received, pause}
use talyn.Ssl.EndToEnd.{sent-heard}

abbrev server_env : Env Bytes Wire
server_env = record duplex_env { kind = Kind.server }

abbrev writer : List ChannelEvent
writer = Channel.writes (1 ∷ 2 ∷ 3 ∷ []) ∷ Channel.flushes ∷ Channel.writes (4 ∷ 5 ∷ 6 ∷ []) ∷ []

-- The fifth byte is under way, and the sixth is in the buffer of the writer.
abbrev listener : List LifeEvent
listener = receives (1 ∷ 2 ∷ []) ∷ Lifecycle.pauses ∷ receives (3 ∷ 4 ∷ []) ∷ []

sent-heard_example :
    heard (life_run server_env server fresh listener).trace
      ++ ((5 ∷ []) ++ join (channel_run (env_of Kind.client) fresh writer).write_buffer)
    ≡ 1 ∷ 2 ∷ 3 ∷ 4 ∷ 5 ∷ 6 ∷ []
unfolding all_well channel_run channel_step all_quiet life_run life_step received pause
    Server.pause_writing heard Server.received Server.r buffer_updated read_and_deliver read_loop
    deliver flush_write_buffer flush_chunks write after_write flush flush_client flush_plain
    raw_write flush_chunk flush_outgoing protocol_pause_writing
sent-heard_example =
    sent-heard (env_of Kind.client) (λ o. o) engine-WriteLaws (λ s. refl) (λ s. refl) (λ d t. refl)
      server_env (λ (o : Bytes). o) duplex-ReadLaws duplex-OnlyRead (λ c s. (refl, refl)) server
      fresh writer fresh listener (1 ∷ 2 ∷ 3 ∷ 4 ∷ []) (5 ∷ []) refl refl refl refl refl refl
