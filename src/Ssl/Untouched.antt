-- ===== src/Ssl/Untouched.antt =====
-- The future and the handshake flag of a TLS connection of talyn/loop.py, under the methods of the
-- wrapper and of the protocol classes: any property of the two that settling the future respects.
use talyn.Ssl.Protocol.{is_eof, read_loop, ReadEnd, deliver, settled}
use talyn.Ssl.Bio.{join, is_empty, on_tls, emit}
use talyn.Ssl.Wrapper.{start_shutdown, flush_write_buffer, flush, tell}
pub mod Factories
use talyn.Base.Exec.{when, ◌>>=◌, ◌>>◌, catch, Exec}
use talyn.Ssl.State.{Bytes, done, failed, Effect, Tls, Exn, Conn, AppCall, Waiter, Env}
use talyn.Base.{
  not, List, ℕ, ◌==◌, ◌&&◌, if◌then◌else◌, Option-cases, ◌++◌, Bool, true, inl, inr, [], ◌∷◌, ◌≡◌,
}
use talyn.Ssl.Stable
use talyn.Ssl.Stable.Shutdown
use talyn.Ssl.Stable.Calls
use talyn.Ssl.Stable.Reading
use talyn.Ssl.Protocol.{resume_writing}
use talyn.Ssl.Stable.{Watched}
use talyn.Ssl.Keeping.{when-Keeps, bind-Keeps, Keeps, catch-Keeps}

-- The application, when it is called, touches neither the future nor the handshake flag: both are
-- private to the protocol object.
abbrev pub LeavesFuture : {Obj Raw : Type 0} → Env Obj Raw → Type 0
LeavesFuture {Obj} {Raw} env =
    (c : AppCall) (s : Conn Obj Raw)
    → ((env.app c s).1.waiter ≡ s.waiter) × ((env.app c s).1.handshaken ≡ s.handshaken)

-- A property of the future and of the flag that a failure keeps, and that success makes true.
pub record Settles (Q : Waiter → Bool → Type 0) : Type 0 where
  pub fails : (e : Exn) (w : Waiter) (b : Bool) → Q w b → Q (settled (failed e) w) b
  pub succeeds : (w : Waiter) (b : Bool) → Q w b → Q (settled done w) true

abbrev pub OfFuture : {Obj Raw : Type 0} → (Waiter → Bool → Type 0) → Conn Obj Raw → Type 0
OfFuture Q s = Q s.waiter s.handshaken

module _ {Obj Raw : Type 0} (env : Env Obj Raw) (leaves : LeavesFuture env)
    (Q : Waiter → Bool → Type 0) where
  abbrev P : Conn Obj Raw → Type 0
  P = OfFuture Q

  pub tell-Keeps : (c : AppCall) → Keeps P (tell env c)
  tell-Keeps c s p =
      let s' = record s { trace = s.trace ++ Effect.app_call c ∷ [] } in
      rw ((leaves c s').0, (leaves c s').1) p

  pub tell_logged-Keeps : (c : AppCall) → Keeps P (catch (tell env c) (λ _. emit Effect.logged))
  tell_logged-Keeps c =
      catch-Keeps P (tell env c) (λ _. emit Effect.logged) (tell-Keeps c) (λ e s p. p)

  pub on_tls-Keeps : {A : Type 0} (op : Exec (Tls Obj) Exn A) → Keeps P (on_tls op)
  on_tls-Keeps op s p = elim (Option-cases s.tls) [ inl e ↦ rw e p | inr (t, e) ↦ rw e p ]

  abbrev Untold : Watched Obj
  Untold w b t tr = Q w b

  future-Stable : Stable.Stable env Untold
  future-Stable = record {
    emitted = λ e w b t tr d p. p;
    told = λ c s p. rw ((leaves c s).0, (leaves c s).1) p;
    taken = λ w b t tr p. p;
    put = λ d w b t tr p. p;
    written = λ d w b t tr p. p;
    unwrapped = λ w b t tr p. p;
  }

  pub flush-Keeps : Keeps P (flush env)
  flush-Keeps = Stable.flush-Keeps env Untold future-Stable

  pub flush_write_buffer-Keeps : Keeps P (flush_write_buffer env)
  flush_write_buffer-Keeps = Stable.flush_write_buffer-Keeps env Untold future-Stable

  pub start_shutdown-Keeps : Keeps P (start_shutdown env)
  start_shutdown-Keeps = Shutdown.start_shutdown-Keeps env Untold future-Stable

  pub resume_writing-Keeps : Keeps P (resume_writing env)
  resume_writing-Keeps = Calls.resume_writing-Keeps env Untold future-Stable

  pub read_loop-Keeps :
      (keep : Conn Obj Raw → Bool) (fuel : ℕ) (acc : List Bytes)
      → Keeps P (read_loop env keep fuel acc)
  read_loop-Keeps = Reading.read_loop-Keeps env Untold future-Stable (λ w b t tr p. p)

  pub deliver-Keeps : (r : List Bytes × ReadEnd) → Keeps P (deliver env r)
  unfolding deliver
  deliver-Keeps (chunks, end) =
      bind-Keeps P (when (not (is_empty chunks)) (tell env (AppCall.data_received (join chunks))))
        (λ _. when (is_eof end) (Reading.hand_on_eof env))
        (when-Keeps P (not (is_empty chunks)) (tell env (AppCall.data_received (join chunks)))
          (tell-Keeps (AppCall.data_received (join chunks))))
        (λ _.
          when-Keeps P (is_eof end) (Reading.hand_on_eof env)
            (Reading.hand_on_eof-Keeps env Untold future-Stable))
