-- ===== src/Ssl/Upgrade.antt =====
-- The bytes that `start_tls` of talyn/loop.py takes over from the transport and from a stream reader
-- before it waits for the handshake.
use talyn.Ssl.Wrapper.{raw_call}
use talyn.Base.Exec.{ok, ◌>>◌, when}
use talyn.Ssl.Bio.{is_empty}
use talyn.Ssl.State.{RawCall, Session, Tls, Bytes, Env, Conn}
use talyn.Base.{
  append-nil, sym, ◌∙◌, append_assoc, ap, not, ◌++◌, ◌≡◌, if◌then◌else◌, Option, refl, none, some,
  [], ◌∷◌, ℕ,
}
use talyn.Ssl.Protocol.{feed}

-- What `start_tls` finds: the connection, `_stream_reader._buffer` if the protocol is a
-- StreamReaderProtocol with a reader, and the attributes `_buffer` and `buffer` of the transport.
pub record Upgrade (Obj Raw : Type 0) : Type 0 where
  pub conn : Conn Obj Raw
  pub reader : Option Bytes
  pub private_buffer : Option Bytes
  pub public_buffer : Option Bytes

-- `getattr(transport, "_buffer", None) or getattr(transport, "buffer", None)`
abbrev pub bytes_of : Option Bytes → Bytes
bytes_of none = []
bytes_of (some d) = d

abbrev pub chosen_buffer : Option Bytes → Option Bytes → Bytes
chosen_buffer a b = if is_empty (bytes_of a) then bytes_of b else bytes_of a

-- `buffer.clear()`
abbrev emptied : Option Bytes → Option Bytes
emptied none = none
emptied (some d) = some []

emptied_nothing : (o : Option Bytes) → bytes_of (emptied o) ≡ []
emptied_nothing none = refl
emptied_nothing (some d) = refl

module _ {Obj Raw : Type 0} (env : Env Obj Raw) where
  abbrev pub held : Upgrade Obj Raw → Bytes
  held u = chosen_buffer u.private_buffer u.public_buffer

  -- `if buffer: incoming.write(buffer)`
  abbrev feed_some : Bytes → Session Obj Raw (Unit {0})
  feed_some d = when (not (is_empty d)) (feed env d)

  -- First what the stream reader holds, then what the transport holds; then the protocol object
  -- `protocol` takes over.
  unfoldable pub switch : ℕ → Bytes → Bytes → Session Obj Raw (Unit {0})
  switch protocol reader held = do
    feed_some reader
    feed_some held
    raw_call env RawCall.pause_reading
    raw_call env (RawCall.set_protocol protocol)

  unfoldable pub take_over : ℕ → Upgrade Obj Raw → Upgrade Obj Raw
  unfolding switch
  take_over protocol u = record {
    conn = (switch protocol (bytes_of u.reader) (held u) u.conn).1;
    reader = emptied u.reader;
    private_buffer = emptied u.private_buffer;
    public_buffer =
        if is_empty (bytes_of u.private_buffer) then emptied u.public_buffer else u.public_buffer;
  }

  feed_some_live :
      (d : Bytes) (s : Conn Obj Raw) (t : Tls Obj)
      → s.tls ≡ some t
      → feed_some d s ≡ (ok tt, record s { tls = some (record t { incoming = t.incoming ++ d }) })
  feed_some_live [] s t e =
      ap (λ o. (ok tt, record s { tls = o }))
        (e ∙ ap (λ d. some (record t { incoming = d })) (sym (append-nil t.incoming)))
  feed_some_live (b ∷ d) s t e = rw e refl

  abbrev with_incoming : Conn Obj Raw → Tls Obj → Bytes → Conn Obj Raw
  with_incoming s t d = record s { tls = some (record t { incoming = t.incoming ++ d }) }

  abbrev pub switched : ℕ → Raw → Raw
  switched protocol r =
      env.transport.call (RawCall.set_protocol protocol)
        (env.transport.call RawCall.pause_reading r)

  then_ok :
      (m k : Session Obj Raw (Unit {0})) (s s' : Conn Obj Raw)
      → m s ≡ (ok tt, s')
      → (m >> k) s ≡ k s'
  then_ok m k s s' e = ap (λ p. ((λ _. p) >> k) s) e

  abbrev hand_raw_over : ℕ → Session Obj Raw (Unit {0})
  hand_raw_over protocol = do
    raw_call env RawCall.pause_reading
    raw_call env (RawCall.set_protocol protocol)

  pub switch_live :
      (protocol : ℕ) (first second : Bytes) (s : Conn Obj Raw) (t : Tls Obj)
      → s.tls ≡ some t
      → (switch protocol first second s).1
        ≡ record (with_incoming s t (first ++ second)) { raw = switched protocol s.raw }
  unfolding switch
  switch_live protocol first second s t e =
      let s' = with_incoming s t first in
      let t' = record t { incoming = t.incoming ++ first } in
      ap (λ p. p.1)
        (then_ok (feed_some first) (feed_some second >> hand_raw_over protocol) s s'
            (feed_some_live first s t e)
          ∙ then_ok (feed_some second) (hand_raw_over protocol) s' (with_incoming s' t' second)
              (feed_some_live second s' t' refl))
      ∙ ap (λ d. record s { tls = some (record t { incoming = d }); raw = switched protocol s.raw })
          (append_assoc t.incoming first second)

  -- On a live SSL object, all that the stream reader and then the transport held goes into the
  -- incoming BIO, after what was there, and nothing else does; neither of the two holds anything
  -- afterwards, and the raw transport has been paused and told of its new protocol, in this order.
  pub take_over-moves :
      (protocol : ℕ) (u : Upgrade Obj Raw) (t : Tls Obj)
      → u.conn.tls ≡ some t
      → ((take_over protocol u).conn.tls
          ≡ some (record t { incoming = t.incoming ++ (bytes_of u.reader ++ held u) }))
        × (bytes_of (take_over protocol u).reader ≡ [])
        × (bytes_of (take_over protocol u).private_buffer ≡ [])
        × ((take_over protocol u).conn.raw
            ≡ env.transport.call
                (RawCall.set_protocol protocol)
                (env.transport.call RawCall.pause_reading u.conn.raw))
  unfolding take_over
  take_over-moves protocol u t e =
      let moved = switch_live protocol (bytes_of u.reader) (held u) u.conn t e in
      (
        ap (λ s. s.tls) moved,
        emptied_nothing u.reader,
        emptied_nothing u.private_buffer,
        ap (λ s. s.raw) moved,
      )
