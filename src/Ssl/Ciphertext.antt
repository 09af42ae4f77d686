-- ===== src/Ssl/Ciphertext.antt =====
-- The ciphertext on its way from the outgoing BIO to the raw transport, in `_f` and in the second loop
-- of `_flush_write_buffer` (talyn/loop.py).
use talyn.Ssl.Wrapper.{
  flush_plain, flush_outgoing, flush_client, on_crossed, raw_write, protocol_pause_writing,
}
use talyn.Base.Exec.{raised, ok, Result}
use talyn.Ssl.Laws.{raw_write-SameSession, PausesQuietly}
use talyn.Base.{
  ◌⊎◌, Bool, append-nil, List-cases, Option, refl, none, some, true, false, inl, inr, [], ◌∷◌,
  arith, ◌≡◌, ◌++◌, ◌≢◌,
}
use talyn.Ssl.State.{
  paused, AppCall, app_call, refused, WriteResult, Kind, crossed, queued, Tls, Bytes, Exn, Conn,
  Env, Transport,
}

-- The transport has the bytes of the writes that it took, in order, and none of a refused write.
-- `sent` is what it was given so far.
pub record SendLaws {Raw : Type 0} (transport : Transport Raw) (sent : Raw → Bytes) : Type 0 where
  pub write_queued :
      (d : Bytes) (r : Raw)
      → (transport.write d r).0 ≡ queued
      → sent (transport.write d r).1 ≡ sent r ++ d
  pub write_crossed :
      (d : Bytes) (r : Raw)
      → (transport.write d r).0 ≡ crossed
      → sent (transport.write d r).1 ≡ sent r ++ d
  pub write_refused :
      (d : Bytes) (r : Raw) (e : Exn)
      → (transport.write d r).0 ≡ refused e
      → sent (transport.write d r).1 ≡ sent r

abbrev pub outgoing_of : {Obj : Type 0} → Option (Tls Obj) → Bytes
outgoing_of none = []
outgoing_of (some t) = t.outgoing

-- The write is taken, or refused because writing is paused.
abbrev pub takes : WriteResult → Bool
takes (refused paused) = true
takes (refused _) = false
takes _ = true

module _ {Obj Raw : Type 0} (env : Env Obj Raw) (sent : Raw → Bytes) where
  -- The ciphertext so far: what the transport was given, and then the outgoing BIO.
  abbrev pub wire : Conn Obj Raw → Bytes
  wire s = sent s.raw ++ outgoing_of s.tls

  module _ (laws : SendLaws env.transport sent) (quiet : PausesQuietly env) where
    on_crossed-raw : (k : Kind) (s : Conn Obj Raw) → (on_crossed env k s).1.raw ≡ s.raw
    unfolding protocol_pause_writing
    on_crossed-raw Kind.unix_server s = refl
    on_crossed-raw _ s = ground (
      arith,
      quiet (record s {
        writing_paused = true;
        trace = s.trace ++ app_call AppCall.pause_writing ∷ [];
      }),
    )

    on_crossed_ok : (k : Kind) (s : Conn Obj Raw) → (on_crossed env k s).0 ≡ ok tt
    unfolding protocol_pause_writing
    on_crossed_ok Kind.unix_server s = refl
    on_crossed_ok _ s = ground arith

    -- A raw write hands its bytes over, or raises and hands over none.
    abbrev Hands : Bytes → Conn Obj Raw → Result Exn (Unit {0}) × Conn Obj Raw → Type 0
    Hands d s (ok _, t) = sent t.raw ≡ sent s.raw ++ d
    Hands d s (raised e, t) =
        (sent t.raw ≡ sent s.raw) × ((env.transport.write d s.raw).0 ≡ refused e)

    raw_write-Hands : (d : Bytes) (s : Conn Obj Raw) → Hands d s (raw_write env d s)
    unfolding raw_write
    raw_write-Hands d s = go (env.transport.write d s.raw).0 refl
      where
        go : (r : WriteResult) → (env.transport.write d s.raw).0 ≡ r → Hands d s (raw_write env d s)
        go queued e = rw e (laws.write_queued d s.raw e)
        go crossed e =
            let s' : Conn Obj Raw = record s { raw = (env.transport.write d s.raw).1 } in
            ground (
              arith,
              e,
              on_crossed_ok env.kind s',
              on_crossed-raw env.kind s',
              laws.write_crossed d s.raw e,
            )
        go (refused x) e = ground (arith, e, laws.write_refused d s.raw x e)

    raw_write_ok :
        (d : Bytes) (s : Conn Obj Raw)
        → takes (env.transport.write d s.raw).0 ≡ true
        → ((raw_write env d s).0 ≡ ok tt) ⊎ ((raw_write env d s).0 ≡ raised paused)
    unfolding raw_write
    raw_write_ok d s can =
        ground (arith, on_crossed_ok env.kind (record s { raw = (env.transport.write d s.raw).1 }))

    -- If the application's `pause_writing` calls nothing on the connection, and the raw transport
    -- keeps what it takes, in order, and nothing of what it refuses: `_f` of the client class, on a
    -- live connection whose raw transport takes the bytes or refuses them because writing is
    -- paused, returns and loses or reorders no ciphertext.
    pub flush_client-wire :
        (s : Conn Obj Raw) (t : Tls Obj)
        → s.tls ≡ some t
        → takes (env.transport.write t.outgoing s.raw).0 ≡ true
        → ((flush_client env s).0 ≡ ok tt) × (wire (flush_client env s).1 ≡ wire s)
    unfolding flush_client
    flush_client-wire s t live can = elim (List-cases t.outgoing) [
      | inl none_left ↦ ground (arith, live, none_left)
      | inr (x, xs, some_left) ↦
          let s' : Conn Obj Raw = record s { tls = some (record t { outgoing = [] }) } in
          ground (
            arith,
            live,
            some_left,
            raw_write-Hands t.outgoing s',
            raw_write_ok t.outgoing s',
            raw_write-SameSession env quiet t.outgoing s',
            append-nil (sent s.raw ++ t.outgoing),
          )
    ]

    -- `_f` of the other classes, when the raw transport refuses a write: the exception goes on, and the
    -- ciphertext that was in the BIO is neither there nor with the transport.
    pub flush_plain_loses :
        (s : Conn Obj Raw) (t : Tls Obj) (e : Exn)
        → s.tls ≡ some t
        → t.outgoing ≢ []
        → (env.transport.write t.outgoing s.raw).0 ≡ refused e
        → ((flush_plain env s).0 ≡ raised e) × (wire (flush_plain env s).1 ≡ sent s.raw)
    unfolding flush_plain raw_write
    flush_plain_loses s t e live some_bytes no_room =
        let s' : Conn Obj Raw = record s { tls = some (record t { outgoing = [] }) } in
        ground (arith, live, laws.write_refused t.outgoing s.raw e no_room, append-nil (sent s.raw))

    -- Under the same conditions the second loop of `_flush_write_buffer` ends, and it keeps the
    -- ciphertext, for every class.
    pub flush_outgoing-wire :
        (s : Conn Obj Raw) (t : Tls Obj)
        → s.tls ≡ some t
        → takes (env.transport.write t.outgoing s.raw).0 ≡ true
        → ((flush_outgoing env 2 s).0 ≡ ok tt) × (wire (flush_outgoing env 2 s).1 ≡ wire s)
    unfolding flush_outgoing
    flush_outgoing-wire s t live can = elim (List-cases t.outgoing) [
      | inl none_left ↦ ground (arith, live, none_left)
      | inr (x, xs, some_left) ↦
          let s' : Conn Obj Raw = record s { tls = some (record t { outgoing = [] }) } in
          ground (
            arith,
            live,
            some_left,
            raw_write-Hands t.outgoing s',
            raw_write_ok t.outgoing s',
            raw_write-SameSession env quiet t.outgoing s',
            append-nil (sent s.raw ++ t.outgoing),
          )
    ]
