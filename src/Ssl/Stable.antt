-- ===== src/Ssl/Stable.antt =====
-- Properties of a TLS connection of talyn/loop.py that the methods of the wrapper keep: those of the
-- future, the handshake flag, the SSL object and what is visible outside, if the operations on the
-- SSL object, the application and the effects keep them.
pub mod Shutdown
pub mod Calls
pub mod Reading
use talyn.Ssl.Rounds.{flush_chunks_cons, after_round, flush_chunks_nil}
use talyn.Ssl.Bio.{append_left, is_empty, take_outgoing, put_outgoing, on_tls, emit, attempt}
use talyn.Ssl.Wrapper.{
  Round, again, leave, give_up, flush_of, weight, on_crossed, flush_plain, after_chunk,
  schedule_fatal, raw_write, put_back, flush_write_buffer, flush_outgoing, flush_client,
  flush_chunks, flush_chunk, flush, tell, protocol_pause_writing, after_raw_write,
}
use talyn.Base.Exec.{◌>>=◌, raised, when, ok, pure, Result, ◌>>◌, catch, Exec}
use talyn.Ssl.State.{
  ssl_error, ssl_eof, want_write, want_read, Kind, Bytes, crossed, queued, refused, Effect,
  WriteResult, Tls, Session, Exn, Conn, AppCall, Waiter, Env,
}
use talyn.Base.{
  refl, some, false, Option, List, ◌==◌, drop, length, is_some, ◌&&◌, ltb, if◌then◌else◌,
  List-cases, Option-cases, ◌++◌, Bool, true, inl, inr, [], ◌∷◌, ◌≡◌, ℕ, suc, zero,
}
use talyn.Ssl.Keeping.{Keeps, bind-Keeps, catch-Keeps, when-Keeps, if-Keeps}

-- The application is connected, or given bytes.
abbrev pub is_handed : Effect → Bool
is_handed (Effect.app_call (AppCall.data_received _)) = true
is_handed (Effect.app_call AppCall.connection_made) = true
is_handed _ = false

abbrev pub Watched : Type 0 → Type 1
Watched Obj = Waiter → Bool → Option (Tls Obj) → List Effect → Type 0

abbrev pub Of : {Obj Raw : Type 0} → Watched Obj → Conn Obj Raw → Type 0
Of Q s = Q s.waiter s.handshaken s.tls s.trace

-- An operation on the SSL object or on a BIO keeps the property, whether or not it raises.
abbrev pub Safe : {Obj A : Type 0} → Watched Obj → Exec (Tls Obj) Exn A → Type 0
Safe {Obj} Q op =
    (w : Waiter) (b : Bool) (t : Tls Obj) (tr : List Effect)
    → Q w b (some t) tr
    → Q w b (some (op t).1) tr

pub record Stable {Obj Raw : Type 0} (env : Env Obj Raw) (Q : Watched Obj) : Type 0 where
  pub emitted :
      (e : Effect) (w : Waiter) (b : Bool) (t : Option (Tls Obj)) (tr : List Effect)
      → is_handed e ≡ false
      → Q w b t tr
      → Q w b t (tr ++ e ∷ [])
  pub told : (c : AppCall) (s : Conn Obj Raw) → Of Q s → Of Q (env.app c s).1
  pub taken : Safe Q take_outgoing
  pub put : (d : Bytes) → Safe Q (put_outgoing d)
  pub written : (d : Bytes) → Safe Q (env.engine.write d)
  pub unwrapped : Safe Q env.engine.unwrap

module _ {Obj Raw : Type 0} (env : Env Obj Raw) (Q : Watched Obj) (stable : Stable env Q) where
  abbrev P : Conn Obj Raw → Type 0
  P = Of Q

  pub emit-Keeps : (e : Effect) → is_handed e ≡ false → Keeps P (emit e)
  emit-Keeps e d s p = stable.emitted e s.waiter s.handshaken s.tls s.trace d p

  pub tell-Keeps : (c : AppCall) → is_handed (Effect.app_call c) ≡ false → Keeps P (tell env c)
  tell-Keeps c d s p =
      stable.told c (record s { trace = s.trace ++ Effect.app_call c ∷ [] })
        (emit-Keeps (Effect.app_call c) d s p)

  pub tell_logged-Keeps :
      (c : AppCall)
      → is_handed (Effect.app_call c) ≡ false
      → Keeps P (catch (tell env c) (λ _. emit Effect.logged))
  tell_logged-Keeps c d =
      catch-Keeps P (tell env c) (λ _. emit Effect.logged) (tell-Keeps c d)
        (λ e. emit-Keeps Effect.logged refl)

  pub on_tls-Keeps : {A : Type 0} (op : Exec (Tls Obj) Exn A) → Safe Q op → Keeps P (on_tls op)
  on_tls-Keeps op safe s p = elim (Option-cases s.tls) [
    | inl e ↦ rw e (rw e at p)
    | inr (t, e) ↦ rw e (safe s.waiter s.handshaken t s.trace (rw e at p))
  ]

  attempt-Keeps : {A : Type 0} (m : Session Obj Raw A) → Keeps P m → Keeps P (attempt m)
  attempt-Keeps m h s p = h s p

  pub pause_writing-Keeps : Keeps P (protocol_pause_writing env)
  unfolding protocol_pause_writing
  pause_writing-Keeps s p =
      when-Keeps P env.has_pause_writing
        (catch (tell env AppCall.pause_writing) (λ _. emit Effect.logged))
        (tell_logged-Keeps AppCall.pause_writing refl) (record s { writing_paused = true }) p

  on_crossed-Keeps : (k : Kind) → Keeps P (on_crossed env k)
  on_crossed-Keeps Kind.unix_server = λ s p. p
  on_crossed-Keeps _ = pause_writing-Keeps

  after_raw_write-Keeps : (r : WriteResult) → Keeps P (after_raw_write env r)
  unfolding after_raw_write
  after_raw_write-Keeps queued s p = p
  after_raw_write-Keeps crossed s p = on_crossed-Keeps env.kind s p
  after_raw_write-Keeps (refused e) s p = p

  raw_write-Keeps : (d : Bytes) → Keeps P (raw_write env d)
  unfolding raw_write
  raw_write-Keeps d s p =
      let (r, raw') = env.transport.write d s.raw in
      after_raw_write-Keeps r (record s { raw = raw' }) p

  put_back-Keeps : (d : Bytes) (e : Exn) → Keeps P (put_back env d e)
  unfolding put_back
  put_back-Keeps d Exn.paused = on_tls-Keeps (put_outgoing d) (stable.put d)
  put_back-Keeps d _ = λ s p. p

  flush_of-Keeps : (k : Kind) → Keeps P (flush_of env k)
  unfolding flush_client flush_plain
  flush_of-Keeps Kind.client =
      bind-Keeps P (on_tls take_outgoing)
        (λ d. if is_empty d then pure tt else catch (raw_write env d) (put_back env d))
        (on_tls-Keeps take_outgoing stable.taken)
        (λ d.
          if-Keeps P (is_empty d) (pure tt) (catch (raw_write env d) (put_back env d)) (λ s p. p)
            (catch-Keeps P (raw_write env d) (put_back env d) (raw_write-Keeps d)
              (put_back-Keeps d)))
  flush_of-Keeps _ =
      bind-Keeps P (on_tls take_outgoing) (λ d. if is_empty d then pure tt else raw_write env d)
        (on_tls-Keeps take_outgoing stable.taken)
        (λ d. if-Keeps P (is_empty d) (pure tt) (raw_write env d) (λ s p. p) (raw_write-Keeps d))

  pub flush-Keeps : Keeps P (flush env)
  unfolding flush
  flush-Keeps = flush_of-Keeps env.kind

  pub schedule_fatal-Keeps : (e : Exn) → Keeps P (schedule_fatal env e)
  schedule_fatal-Keeps e =
      when-Keeps P env.loop_open (emit (Effect.call_soon_fatal e))
        (emit-Keeps (Effect.call_soon_fatal e) refl)

  -- The end of a round by a fatal error of the SSL object.
  fatal-Keeps : (e : Exn) → Keeps P (do flush env; schedule_fatal env e; pure give_up)
  fatal-Keeps e =
      bind-Keeps P (flush env) (λ _. (schedule_fatal env e >> pure give_up)) flush-Keeps
        (λ _.
          bind-Keeps P (schedule_fatal env e) (λ _. pure give_up) (schedule_fatal-Keeps e)
            (λ _ s p. p))

  after_chunk-Keeps : (d : Bytes) (r : Result Exn ℕ) → Keeps P (after_chunk env d r)
  after_chunk-Keeps d (ok n) =
      if-Keeps P (ltb n (length d))
        (do append_left (drop n d); pure (if n == 0 then leave else again)) (pure again) (λ s p. p)
        (λ s p. p)
  after_chunk-Keeps d (raised want_read) = λ s p. p
  after_chunk-Keeps d (raised want_write) = λ s p. p
  after_chunk-Keeps d (raised ssl_eof) = fatal-Keeps ssl_eof
  after_chunk-Keeps d (raised ssl_error) = fatal-Keeps ssl_error
  after_chunk-Keeps d (raised e) = λ s p. p

  flush_chunk-Keeps : (d : Bytes) → Keeps P (flush_chunk env d)
  unfolding flush_chunk
  flush_chunk-Keeps d =
      bind-Keeps P (attempt (on_tls (env.engine.write d))) (after_chunk env d)
        (on_tls-Keeps (env.engine.write d) (stable.written d)) (after_chunk-Keeps d)

  after_round-Keeps :
      (fuel : ℕ) (r : Result Exn Round × Conn Obj Raw)
      → Keeps P (flush_chunks env fuel)
      → P r.1
      → P (after_round env fuel r).1
  after_round-Keeps fuel (ok again, t) h p = h t p
  after_round-Keeps fuel (ok leave, t) h p = p
  after_round-Keeps fuel (ok give_up, t) h p = p
  after_round-Keeps fuel (raised e, t) h p = p

  flush_chunks-Keeps : (fuel : ℕ) → Keeps P (flush_chunks env fuel)
  flush_chunks-Keeps zero = λ s p. unfold flush_chunks in p
  flush_chunks-Keeps (suc fuel) = λ s p. elim (List-cases s.write_buffer) [
    | inl e ↦ rw (flush_chunks_nil env fuel s e) p
    | inr (d, rest, e) ↦ rw (flush_chunks_cons env fuel s d rest e) (
        after_round-Keeps fuel _ (flush_chunks-Keeps fuel)
          (flush_chunk-Keeps d (record s { write_buffer = rest }) p))
  ]

  abbrev next_read : ℕ → Bytes → Result Exn (Unit {0}) → Session Obj Raw (Unit {0})
  next_read fuel d (ok _) = flush_outgoing env fuel
  next_read fuel d (raised e) = put_back env d e

  next_read-Keeps :
      (fuel : ℕ) (d : Bytes) (r : Result Exn (Unit {0}))
      → Keeps P (flush_outgoing env fuel)
      → Keeps P (next_read fuel d r)
  next_read-Keeps fuel d (ok _) h = h
  next_read-Keeps fuel d (raised e) h = put_back-Keeps d e

  abbrev send : ℕ → Bytes → Session Obj Raw (Unit {0})
  send fuel d = if is_empty d then pure tt else attempt (raw_write env d) >>= next_read fuel d

  flush_outgoing-Keeps : (fuel : ℕ) → Keeps P (flush_outgoing env fuel)
  unfolding flush_outgoing
  flush_outgoing-Keeps zero = λ s p. p
  flush_outgoing-Keeps (suc fuel) =
      bind-Keeps P (on_tls take_outgoing) (send fuel) (on_tls-Keeps take_outgoing stable.taken)
        (λ d.
          if-Keeps P (is_empty d) (pure tt) (attempt (raw_write env d) >>= next_read fuel d)
            (λ s p. p)
            (bind-Keeps P (attempt (raw_write env d)) (next_read fuel d) (raw_write-Keeps d)
              (λ r. next_read-Keeps fuel d r (flush_outgoing-Keeps fuel))))

  pub flush_write_buffer-Keeps : Keeps P (flush_write_buffer env)
  unfolding flush_write_buffer
  flush_write_buffer-Keeps s p =
      bind-Keeps P (flush_chunks env (suc (weight s.write_buffer)))
        (λ go_on t. when (go_on && is_some t.tls) (flush_outgoing env 2) t)
        (flush_chunks-Keeps (suc (weight s.write_buffer)))
        (λ go_on t q.
          when-Keeps P (go_on && is_some t.tls) (flush_outgoing env 2) (flush_outgoing-Keeps 2) t q)
        s p
