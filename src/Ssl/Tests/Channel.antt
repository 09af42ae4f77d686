-- ===== src/Ssl/Tests/Channel.antt =====
-- The TLS transport as a channel, at a concrete history.
use talyn.Base.{refl, [], ◌∷◌, ◌≡◌, List}
use talyn.Ssl.State.{Kind}
use talyn.Ssl.Tests.{env_of, fresh, engine-WriteLaws}
use talyn.Ssl.Wrapper.{
  flush_write_buffer, flush_chunks, write, after_write, flush, flush_client, raw_write, flush_chunk,
  flush_outgoing, protocol_pause_writing,
}
use talyn.Ssl.Protocol.{resume_writing}
use talyn.Ssl.Plaintext.{stream}
use talyn.Ssl.Channel.{
  channel_run-sent, channel_run, all_well, writes, flushes, pauses, resumes, ChannelEvent,
  channel_step,
}

-- The SSL object takes two bytes at a time.
abbrev history : List ChannelEvent
history =
    writes (1 ∷ 2 ∷ 3 ∷ []) ∷ flushes ∷ pauses ∷ writes (4 ∷ []) ∷ writes (5 ∷ []) ∷ resumes ∷ []

channel_run-sent_example :
    stream (env_of Kind.client) (λ o. o) (channel_run (env_of Kind.client) fresh history)
    ≡ 1 ∷ 2 ∷ 3 ∷ 4 ∷ 5 ∷ []
unfolding all_well channel_step flush_write_buffer flush_chunks write after_write flush flush_client
    raw_write flush_chunk flush_outgoing protocol_pause_writing resume_writing
channel_run-sent_example =
    channel_run-sent (env_of Kind.client) (λ o. o) engine-WriteLaws (λ s. refl) (λ s. refl)
      (λ d t. refl) fresh history refl
