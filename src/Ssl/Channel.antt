-- ===== src/Ssl/Channel.antt =====
-- The TLS transport of talyn/loop.py as a channel: the plaintext that the SSL object has taken and the
-- buffer, over a history of calls, against the bytes that were written.
use talyn.Ssl.Bio.{emit, is_empty}
use talyn.Base.{
  ap, ◌∙◌, sym, Option-cases, ◌||◌, ◌&&◌, refl, none, some, true, false, inl, inr, [], ◌∷◌, arith,
  ◌≡◌, List, Bool, ◌++◌, append_assoc, append-nil,
}
use talyn.Base.Exec.{is_ok, ◌>>◌, ◌>>=◌, catch, when, Result, ok, raised}
use talyn.Ssl.State.{Session, Effect, Exn, Conn, Env, Bytes, AppCall}
use talyn.Ssl.Laws.{pause_writing-SameSession, WriteLaws, PausesQuietly}
use talyn.Ssl.Plaintext.{flush-stream, stream, write-stream, is_accepted}
use talyn.Ssl.Draining.{NeverFatal, flush_write_buffer-stream}
use talyn.Ssl.Wrapper.{tell, flush, write, flush_write_buffer, protocol_pause_writing}
use talyn.Ssl.Protocol.{resume_writing}

-- What the application and the raw transport call on a connection that is open.
pub data ChannelEvent : Type 0 where
  writes : Bytes → ChannelEvent
  pauses resumes flushes : ChannelEvent

-- The abstract channel: the bytes that were written, in order.
abbrev pub sent : List ChannelEvent → Bytes
sent [] = []
sent (writes d ∷ es) = d ++ sent es
sent (_ ∷ es) = sent es

-- The application's `resume_writing` only takes note.
abbrev pub ResumesQuietly : {Obj Raw : Type 0} → Env Obj Raw → Type 0
ResumesQuietly {Obj} {Raw} env = (s : Conn Obj Raw) → (env.app AppCall.resume_writing s).1 ≡ s

module _ {Obj Raw : Type 0} (env : Env Obj Raw) where
  unfoldable pub channel_step : Conn Obj Raw → ChannelEvent → Conn Obj Raw
  channel_step s (writes d) = (write env d s).1
  channel_step s pauses = (protocol_pause_writing env s).1
  channel_step s resumes = (resume_writing env s).1
  channel_step s flushes = (flush_write_buffer env s).1

  unfoldable pub channel_run : Conn Obj Raw → List ChannelEvent → Conn Obj Raw
  channel_run s [] = s
  channel_run s (e ∷ es) = channel_run (channel_step s e) es

  -- The SSL object is there and meets no fatal error when it is given the data.
  abbrev pub takes : Bytes → Conn Obj Raw → Bool
  takes d s = elim s.tls [ none ↦ false | some t ↦ is_accepted (env.engine.write d t).0 ]

  -- An event that goes well: a write does not overtake what is buffered and meets no fatal error; a
  -- flush and a resume do not raise.
  abbrev pub goes_well : Conn Obj Raw → ChannelEvent → Bool
  goes_well s (writes d) = (s.writing_paused || is_empty s.write_buffer) && takes d s
  goes_well s pauses = true
  goes_well s resumes = is_ok (resume_writing env s).0
  goes_well s flushes = is_ok (flush_write_buffer env s).0

  unfoldable pub all_well : Conn Obj Raw → List ChannelEvent → Bool
  all_well s [] = true
  all_well s (e ∷ es) = goes_well s e && all_well (channel_step s e) es

is_ok_iff : (r : Result Exn (Unit {0})) → is_ok r ≡ true → r ≡ ok tt
is_ok_iff (ok tt) h = refl
is_ok_iff (raised e) h = cc

module _ {Obj Raw : Type 0} (env : Env Obj Raw) (consumed : Obj → Bytes)
    (laws : WriteLaws env.engine consumed) (quiet : PausesQuietly env) (calm : ResumesQuietly env)
    (sound : NeverFatal env consumed laws quiet) where
  abbrev S : Conn Obj Raw → Bytes
  S = stream env consumed

  writes-stream :
      (d : Bytes) (s : Conn Obj Raw)
      → goes_well env s (writes d) ≡ true
      → S (write env d s).1 ≡ S s ++ d
  writes-stream d s h = elim (Option-cases s.tls) [
    | inl gone ↦ absurd (ground (arith, gone, h))
    | inr (t, e) ↦
        write-stream env consumed laws quiet d s t e (ground (arith, h, e)) (ground (arith, h, e))
  ]

  pauses-stream : (s : Conn Obj Raw) → S (protocol_pause_writing env s).1 ≡ S s
  pauses-stream s = let same = pause_writing-SameSession env quiet s in rw (same.0, same.1) refl

  flushes-stream :
      (s : Conn Obj Raw)
      → is_ok (flush_write_buffer env s).0 ≡ true
      → S (flush_write_buffer env s).1 ≡ S s
  flushes-stream s h = flush_write_buffer-stream env consumed laws quiet sound s (is_ok_iff _ h)

  -- A call that leaves the plaintext alone if it does not raise.
  abbrev Streams : {A : Type 0} → Session Obj Raw A → Type 0
  Streams m = (s : Conn Obj Raw) → is_ok (m s).0 ≡ true → S (m s).1 ≡ S s

  bind_result :
      {A B : Type 0} (p : Result Exn A × Conn Obj Raw) (k : A → Session Obj Raw B)
      (s : Conn Obj Raw)
      → (is_ok p.0 ≡ true → S p.1 ≡ S s)
      → ((a : A) → Streams (k a))
      → is_ok (((λ _. p) >>= k) s).0 ≡ true
      → S (((λ _. p) >>= k) s).1 ≡ S s
  bind_result (ok a, t) k s h g e = g a t e ∙ h refl
  bind_result (raised x, t) k s h g e = cc

  bind-Streams :
      {A B : Type 0} (m : Session Obj Raw A) (k : A → Session Obj Raw B)
      → Streams m
      → ((a : A) → Streams (k a))
      → Streams (m >>= k)
  bind-Streams m k h g s e = bind_result (m s) k s (h s) g e

  when-Streams : (b : Bool) (m : Session Obj Raw (Unit {0})) → Streams m → Streams (when b m)
  when-Streams true m h = h
  when-Streams false m h = λ s e. refl

  abbrev tell_resume : Session Obj Raw (Unit {0})
  tell_resume = catch (tell env AppCall.resume_writing) (λ _. emit Effect.logged)

  tell_resume-Streams : Streams tell_resume
  tell_resume-Streams s e =
      let told = s.trace ++ Effect.app_call AppCall.resume_writing ∷ [] in
      ground (arith, calm (record s { trace = told }))

  flush-Streams : Streams (flush env)
  flush-Streams s e = flush-stream env consumed laws quiet s

  resumes-stream : Streams (resume_writing env)
  unfolding resume_writing
  resumes-stream s h =
      bind-Streams (when env.has_resume_writing tell_resume)
        (λ _ t. (do when t.wrapped (flush_write_buffer env); flush env) t)
        (when-Streams env.has_resume_writing tell_resume tell_resume-Streams)
        (λ _ t.
          bind-Streams (when t.wrapped (flush_write_buffer env)) (λ _. flush env)
            (when-Streams t.wrapped (flush_write_buffer env) flushes-stream) (λ _. flush-Streams) t)
        (record s { writing_paused = false }) h

  -- Without fatal errors of the SSL object, and with an application that only takes note of pauses:
  -- over any history of writes, pauses, flushes and resumes in which no write finds older bytes in
  -- the buffer while writing is not paused, and no call raises, what the SSL object has taken
  -- followed by the buffer is what there was at first and then all that was written, in order.
  pub channel_run-sent :
      (s : Conn Obj Raw) (es : List ChannelEvent)
      → all_well env s es ≡ true
      → S (channel_run env s es) ≡ S s ++ sent es
  unfolding channel_run all_well channel_step
  channel_run-sent s [] h = sym (append-nil (S s))
  channel_run-sent s (writes d ∷ es) h =
      channel_run-sent (write env d s).1 es (ground (arith, h))
      ∙ ap (λ b. b ++ sent es) (writes-stream d s (ground (arith, h)))
      ∙ append_assoc (S s) d (sent es)
  channel_run-sent s (pauses ∷ es) h =
      channel_run-sent (protocol_pause_writing env s).1 es h
      ∙ ap (λ b. b ++ sent es) (pauses-stream s)
  channel_run-sent s (resumes ∷ es) h =
      channel_run-sent (resume_writing env s).1 es (ground (arith, h))
      ∙ ap (λ b. b ++ sent es) (resumes-stream s (ground (arith, h)))
  channel_run-sent s (flushes ∷ es) h =
      channel_run-sent (flush_write_buffer env s).1 es (ground (arith, h))
      ∙ ap (λ b. b ++ sent es) (flushes-stream s (ground (arith, h)))
