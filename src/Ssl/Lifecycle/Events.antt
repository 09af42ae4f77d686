-- ===== src/Ssl/Lifecycle/Events.antt =====
-- What the methods of the TLS classes of talyn/loop.py keep that neither read nor finish a handshake.
use talyn.Ssl.Wrapper.{tell}
use talyn.Ssl.Lifecycle.{
  ends, resumes, lost, pauses, closes, writes, loses, unix_client, server, receives, unix_server,
  client, ProtocolClass, resume, pause, life_step, eof, LifeEvent,
}
use talyn.Ssl.Bio.{emit, attempt}
use talyn.Base.Exec.{modify, catch, raised, pure, ◌>>◌, ◌>>=◌, ok, Result}
use talyn.Ssl.Stable.{Of, Watched}
use talyn.Ssl.State.{Effect, Tls, Session, Exn, AppCall, Waiter, Conn, Env}
use talyn.Ssl.Protocol.Client
use talyn.Ssl.Protocol.Server
use talyn.Ssl.Protocol.UnixClient
use talyn.Ssl.Protocol.UnixServer
use talyn.Ssl.Stable
use talyn.Ssl.Stable.Calls
use talyn.Ssl.Keeping.{Keeps, bind-Keeps}
use talyn.Base.{none, List, true, false, ◌≡◌, Option, Bool, refl}

-- Neither bytes nor the loss of the connection.
abbrev pub is_calm : LifeEvent → Bool
is_calm (receives d) = false
is_calm (loses e) = false
is_calm _ = true

module _ {Obj Raw : Type 0} (env : Env Obj Raw) (Q : Watched Obj)
    (stable : Stable.Stable env Q) where
  abbrev S : Conn Obj Raw → Type 0
  S = Of Q

  -- What the clients make of the application's answer to `eof_received`.
  abbrev eof_answer : Result Exn (Unit {0}) → Session Obj Raw Bool
  eof_answer (ok _) = pure env.keep_open
  eof_answer (raised _) = pure false

  eof_answer-Keeps : (r : Result Exn (Unit {0})) → Keeps S (eof_answer r)
  eof_answer-Keeps (ok _) s a = a
  eof_answer-Keeps (raised _) s a = a

  answered_eof-Keeps : Keeps S (attempt (tell env AppCall.eof_received) >>= eof_answer)
  answered_eof-Keeps =
      bind-Keeps S (attempt (tell env AppCall.eof_received)) eof_answer
        (Stable.tell-Keeps env Q stable AppCall.eof_received refl) eof_answer-Keeps

  told_eof-Keeps : Keeps S (tell env AppCall.eof_received >> pure false)
  told_eof-Keeps =
      bind-Keeps S (tell env AppCall.eof_received) (λ _. pure false)
        (Stable.tell-Keeps env Q stable AppCall.eof_received refl) (λ _ s a. a)

  eof-Keeps : (c : ProtocolClass) → Keeps S (eof env c)
  unfolding eof Client.eof Server.eof UnixClient.eof UnixServer.eof
  eof-Keeps client = answered_eof-Keeps
  eof-Keeps server = told_eof-Keeps
  eof-Keeps unix_client = answered_eof-Keeps
  eof-Keeps unix_server = told_eof-Keeps

  pause-Keeps : (c : ProtocolClass) → Keeps S (pause env c)
  unfolding pause Client.pause_writing Server.pause_writing UnixClient.pause_writing
  pause-Keeps unix_server s a = a
  pause-Keeps _ s a = Stable.pause_writing-Keeps env Q stable s a

  resume-Keeps : (c : ProtocolClass) → Keeps S (resume env c)
  unfolding resume Client.resume_writing Server.resume_writing UnixClient.resume_writing
  resume-Keeps unix_server s a = a
  resume-Keeps _ s a = Calls.resume_writing-Keeps env Q stable s a

  pub calm_step-Keeps :
      (c : ProtocolClass) (s : Conn Obj Raw) (e : LifeEvent)
      → is_calm e ≡ true
      → S s
      → S (life_step env c s e)
  unfolding life_step
  calm_step-Keeps c s (receives d) h a = absurd cc
  calm_step-Keeps c s (loses e) h a = absurd cc
  calm_step-Keeps c s (writes d) h a = Calls.write-Keeps env Q stable d s a
  calm_step-Keeps c s closes h a = Calls.close-Keeps env Q stable s a
  calm_step-Keeps c s pauses h a = pause-Keeps c s a
  calm_step-Keeps c s resumes h a = resume-Keeps c s a
  calm_step-Keeps c s ends h a = eof-Keeps c s a

  module _
      (dropped : (w : Waiter) (b : Bool) (t : Option (Tls Obj)) (es : List Effect)
        → Q w b t es
        → Q w b none es) where
    drops-Keeps :
        (e : Option Exn)
        → Keeps S (do
          catch (tell env (AppCall.connection_lost e)) (λ _. emit Effect.logged)
          modify (λ s. record s { tls = none }))
    drops-Keeps e =
        bind-Keeps S (catch (tell env (AppCall.connection_lost e)) (λ _. emit Effect.logged))
          (λ _. modify (λ s. record s { tls = none }))
          (Stable.tell_logged-Keeps env Q stable (AppCall.connection_lost e) refl)
          (λ _ s a. dropped s.waiter s.handshaken s.tls s.trace a)

    pub lost-Keeps : (c : ProtocolClass) (e : Option Exn) → Keeps S (lost env c e)
    unfolding lost Client.lost Server.lost UnixClient.lost UnixServer.lost
    lost-Keeps client e s a = drops-Keeps e s a
    lost-Keeps unix_client e s a = drops-Keeps e s a
    lost-Keeps _ e s a = Stable.tell-Keeps env Q stable (AppCall.connection_lost e) refl s a
