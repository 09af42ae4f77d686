-- ===== src/Ssl/EndToEnd.antt =====
-- Two TLS connections of talyn/loop.py whose SSL objects are peers: what one application writes, and
-- what the other is given.
use talyn.Base.{◌++◌, true, [], ◌≡◌, some, List, ap, sym, ◌∙◌, append_assoc}
use talyn.Ssl.Bio.{join}
use talyn.Ssl.State.{Env, Conn, Bytes}
use talyn.Ssl.Laws.{WriteLaws, PausesQuietly, obj_of}
use talyn.Ssl.Reading.{ReadLaws}
use talyn.Ssl.Plaintext.{stream, taken}
use talyn.Ssl.Draining.{NeverFatal}
use talyn.Ssl.Channel.{ChannelEvent, ResumesQuietly, channel_run, all_well, sent, channel_run-sent}
use talyn.Ssl.Inbound.{OnlyRead, LeavesInput, heard, given_of, all_quiet}
use talyn.Ssl.Lifecycle.{LifeEvent, life_run, ProtocolClass}
use talyn.Ssl.Inbound.History.{life_run-heard}

some-injective : (x y : Bytes) → some x ≡ some y → x ≡ y
some-injective x y h = cc

module _ {ObjA RawA ObjB RawB : Type 0} (a : Env ObjA RawA) (consumed : ObjA → Bytes)
    (writing : WriteLaws a.engine consumed) (quiet : PausesQuietly a) (calm : ResumesQuietly a)
    (sound : NeverFatal a consumed writing quiet) (b : Env ObjB RawB) (given : ObjB → Bytes)
    (reading : ReadLaws b.engine given) (only : OnlyRead b.engine given)
    (leaves : LeavesInput b given) where
  -- Two connections: on the first, any sequence of writes, flushes, pauses and resumes; on the
  -- second, of any class of connections and servers, any history of its life. If the SSL object of
  -- the first keeps to the laws of a write and meets no fatal errors, its application's
  -- `pause_writing` and `resume_writing` call nothing on the connection, no write finds older bytes
  -- in the buffer while writing is not paused, and no flush or resume raises; if in the second only
  -- read returns plaintext, the application leaves the SSL object and its own `data_received`
  -- alone, no `buffer_updated` raises and the connection is not lost; if the first starts with
  -- nothing taken or buffered, and the second with its application given all that its SSL object
  -- has returned; and if the SSL objects are peers, so that what the second has returned is what
  -- the first has taken, but for what is under way: then what the second application was given,
  -- what is under way, and the buffer of the first connection, one after the other, are what the
  -- first application has written.
  pub sent-heard :
      (c : ProtocolClass) (sa : Conn ObjA RawA) (es : List ChannelEvent) (sb : Conn ObjB RawB)
      (fs : List LifeEvent) (got flying : Bytes)
      → stream a consumed sa ≡ []
      → given_of given sb.tls ≡ some (heard sb.trace)
      → all_well a sa es ≡ true
      → all_quiet b c sb fs ≡ true
      → given_of given (life_run b c sb fs).tls ≡ some got
      → taken a consumed (obj_of (channel_run a sa es).tls) ≡ got ++ flying
      → heard (life_run b c sb fs).trace ++ (flying ++ join (channel_run a sa es).write_buffer)
        ≡ sent es
  sent-heard c sa es sb fs got flying e i w q g l =
      let sa' = channel_run a sa es in
      let sb' = life_run b c sb fs in
      let rest = join sa'.write_buffer in
      let same =
        some-injective (heard sb'.trace) got
          (sym (life_run-heard b given reading only leaves c sb fs i q) ∙ g) in
      ap (λ x. x ++ (flying ++ rest)) same
      ∙ sym (append_assoc got flying rest)
      ∙ ap (λ x. x ++ rest) (sym l)
      ∙ channel_run-sent a consumed writing quiet calm sound sa es w
      ∙ ap (λ x. x ++ sent es) e
