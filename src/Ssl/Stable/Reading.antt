-- ===== src/Ssl/Stable/Reading.antt =====
-- The reading loop of `_r` in the TLS classes of talyn/loop.py, what it does after an end of file, and
-- the properties that they keep.
use talyn.Ssl.Bio.{emit, is_empty, on_tls, attempt}
use talyn.Base.Exec.{raise, gets, when, catch, pure, ◌>>=◌, raised, ◌>>◌, ok, Result}
use talyn.Ssl.State.{
  ssl_error, ssl_eof, AppCall, Session, want_write, want_read, Effect, Bytes, Conn, Exn, Env,
}
use talyn.Base.{refl, ◌++◌, if◌then◌else◌, List, Bool, [], ◌∷◌, ℕ, suc, zero}
use talyn.Ssl.Keeping.{if_result, Keeps, bind-Keeps, when-Keeps, if-Keeps}
use talyn.Ssl.Wrapper.{tell, start_shutdown}
use talyn.Ssl.Protocol.UnixServer
use talyn.Ssl.Protocol.{failed_read, peer_eof, blocked, no_data, halted, ReadEnd, read_loop}
use talyn.Ssl.Stable.Shutdown.{start_shutdown-Keeps}
use talyn.Ssl.Stable.{Watched, Of, Stable, Safe, on_tls-Keeps, tell_logged-Keeps}

module _ {Obj Raw : Type 0} (env : Env Obj Raw) where
  -- A round of the reading loop after the call of `read`.
  abbrev read_step :
      (Conn Obj Raw → Bool)
      → ℕ
      → List Bytes
      → Result Exn Bytes
      → Session Obj Raw (List Bytes × ReadEnd)
  read_step keep fuel acc (ok d) =
      if is_empty d then pure (acc, no_data) else read_loop env keep fuel (acc ++ d ∷ [])
  read_step keep fuel acc (raised want_read) = pure (acc, blocked)
  read_step keep fuel acc (raised ssl_eof) = pure (acc, peer_eof)
  read_step keep fuel acc (raised want_write) = pure (acc, failed_read)
  read_step keep fuel acc (raised ssl_error) = pure (acc, failed_read)
  read_step keep fuel acc (raised e) = raise e

  -- A round of the unix server's `_r` after the call of `read`.
  abbrev pub chunk_step : ℕ → Result Exn Bytes → Session Obj Raw (Unit {0})
  chunk_step fuel (ok d) =
      if is_empty d
      then pure tt
      else (tell env (AppCall.data_received d) >> UnixServer.read_chunks env fuel)
  chunk_step fuel (raised want_read) = pure tt
  chunk_step fuel (raised ssl_eof) = pure tt
  chunk_step fuel (raised want_write) = pure tt
  chunk_step fuel (raised ssl_error) = pure tt
  chunk_step fuel (raised e) = raise e

  -- What `_r` does after an end of file.
  abbrev pub hand_on_eof : Session Obj Raw (Unit {0})
  hand_on_eof = do
    catch (tell env AppCall.eof_received) (λ _. emit Effect.logged)
    wrapper ← gets (λ s. s.wrapped)
    when wrapper (start_shutdown env)

module _ {Obj Raw : Type 0} (env : Env Obj Raw) (Q : Watched Obj) (stable : Stable env Q) where
  abbrev P : Conn Obj Raw → Type 0
  P = Of Q

  read_step-Keeps :
      (keep : Conn Obj Raw → Bool) (fuel : ℕ) (acc : List Bytes) (r : Result Exn Bytes)
      → ((more : List Bytes) → Keeps P (read_loop env keep fuel more))
      → Keeps P (read_step env keep fuel acc r)
  read_step-Keeps keep fuel acc (ok d) h =
      if-Keeps P (is_empty d) (pure (acc, no_data)) (read_loop env keep fuel (acc ++ d ∷ []))
        (λ s p. p) (h (acc ++ d ∷ []))
  read_step-Keeps keep fuel acc (raised want_read) h = λ s p. p
  read_step-Keeps keep fuel acc (raised ssl_eof) h = λ s p. p
  read_step-Keeps keep fuel acc (raised want_write) h = λ s p. p
  read_step-Keeps keep fuel acc (raised ssl_error) h = λ s p. p
  read_step-Keeps keep fuel acc (raised e) h = λ s p. p

  pub read_loop-Keeps :
      Safe Q env.engine.read
      → (keep : Conn Obj Raw → Bool) (fuel : ℕ) (acc : List Bytes)
      → Keeps P (read_loop env keep fuel acc)
  unfolding read_loop
  read_loop-Keeps safe keep zero acc s p = p
  read_loop-Keeps safe keep (suc fuel) acc s p =
      if_result P (keep s) _ (ok (acc, halted), s)
        (bind-Keeps P (attempt (on_tls env.engine.read)) (read_step env keep fuel acc)
          (on_tls-Keeps env Q stable env.engine.read safe)
          (λ r. read_step-Keeps keep fuel acc r (read_loop-Keeps safe keep fuel)) s p)
        p

  pub hand_on_eof-Keeps : Keeps P (hand_on_eof env)
  hand_on_eof-Keeps =
      bind-Keeps P (catch (tell env AppCall.eof_received) (λ _. emit Effect.logged))
        (λ _ s. when s.wrapped (start_shutdown env) s)
        (tell_logged-Keeps env Q stable AppCall.eof_received refl)
        (λ _ s. when-Keeps P s.wrapped (start_shutdown env) (start_shutdown-Keeps env Q stable) s)
