-- ===== src/Ssl/Inbound.antt =====
-- The way in of a TLS connection of talyn/loop.py, for the protocol classes of connections and servers:
-- the bytes that the application's protocol is given, over a history of calls, against the plaintext
-- that the SSL object has returned.
pub mod Delivery
pub mod Classes
pub mod History
use talyn.Ssl.Lifecycle.{loses, received, receives, life_step, LifeEvent, ProtocolClass}
use talyn.Ssl.Wrapper.{write}
use talyn.Ssl.State.{Tls, Conn, AppCall, Env, Engine, Effect, Bytes}
use talyn.Base.Exec.{is_ok, ◌>>=◌, ◌>>◌}
use talyn.Base.{
  if◌then◌else◌, arith, ◌&&◌, true, none, some, false, [], Bool, ◌≡◌, ◌∷◌, ◌∙◌, ◌++◌, Option, List,
}

abbrev pub data_of : Effect → Bytes
data_of (Effect.app_call (AppCall.data_received d)) = d
data_of _ = []

-- All that `data_received` was called with.
unfoldable pub heard : List Effect → Bytes
heard [] = []
heard (e ∷ es) = data_of e ++ heard es

-- The plaintext that the SSL object has returned, unless it was dropped.
abbrev pub given_of : {Obj : Type 0} → (Obj → Bytes) → Option (Tls Obj) → Option Bytes
given_of given none = none
given_of given (some t) = some (given t.obj)

-- Only `read` returns plaintext.
pub record OnlyRead {Obj : Type 0} (engine : Engine Obj) (given : Obj → Bytes) : Type 0 where
  pub write_given : (d : Bytes) (t : Tls Obj) → given (engine.write d t).1.obj ≡ given t.obj
  pub handshake_given : (t : Tls Obj) → given (engine.do_handshake t).1.obj ≡ given t.obj
  pub unwrap_given : (t : Tls Obj) → given (engine.unwrap t).1.obj ≡ given t.obj

-- The application, when it is called, may write and close, but it neither reads from the SSL object
-- nor calls its own `data_received`.
abbrev pub LeavesInput : {Obj Raw : Type 0} → Env Obj Raw → (Obj → Bytes) → Type 0
LeavesInput {Obj} {Raw} env given =
    (c : AppCall) (s : Conn Obj Raw)
    → (given_of given (env.app c s).1.tls ≡ given_of given s.tls)
      × (heard (env.app c s).1.trace ≡ heard s.trace)

module _ {Obj Raw : Type 0} (env : Env Obj Raw) where
  -- No `buffer_updated` raises, and the connection is not lost.
  abbrev pub is_quiet : ProtocolClass → Conn Obj Raw → LifeEvent → Bool
  is_quiet c s (receives d) = is_ok (received env c d s).0
  is_quiet c s (loses e) = false
  is_quiet c s _ = true

  unfoldable pub all_quiet : ProtocolClass → Conn Obj Raw → List LifeEvent → Bool
  all_quiet c s [] = true
  all_quiet c s (e ∷ es) = is_quiet c s e && all_quiet c (life_step env c s e) es
