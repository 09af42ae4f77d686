-- ===== src/Subprocess/Reading.antt =====
-- What the protocol of a `_ReadPipeTransport` (talyn/loop.py) has received, and what its own calls leave
-- as it was.
use talyn.Base.{◌≡◌, refl, ◌++◌, arith, true, List, [], ◌∷◌, append_assoc}
use talyn.Subprocess.ReadPipe.{
  close_reading, resume_reading, arm, disarm, tell, request_all, request, Bytes, ReadPipe, Env,
  Request, Told, ReadResult, pause, resume, close, chunk, would_block, os_error, pipe_data_received,
  pipe_connection_lost,
}

-- The bytes that the protocol was given.
unfoldable pub received : List Told → Bytes
received [] = []
received (pipe_data_received d ∷ cs) = d ++ received cs
received (pipe_connection_lost ∷ cs) = received cs

-- The bytes of a pipe up to its end.
unfoldable pub content : List ReadResult → Bytes
content [] = []
content (chunk [] ∷ rs) = []
content (chunk (b ∷ d) ∷ rs) = (b ∷ d) ++ content rs
content (would_block ∷ rs) = content rs
content (os_error ∷ rs) = []

-- What single reads say, up to the end of the pipe.
unfoldable pub reads : List ReadResult → List Bytes
reads [] = []
reads (chunk [] ∷ rs) = []
reads (chunk (b ∷ d) ∷ rs) = (b ∷ d) ∷ reads rs
reads (would_block ∷ rs) = reads rs
reads (os_error ∷ rs) = []

pub received-append : (xs ys : List Told) → received (xs ++ ys) ≡ received xs ++ received ys
unfolding received
received-append [] ys = refl
received-append (pipe_data_received d ∷ xs) ys = rw (received-append xs ys, append_assoc)
received-append (pipe_connection_lost ∷ xs) ys = received-append xs ys

-- What two states share when only the calls of the protocol on its transport lie between them.
abbrev pub SameRead : ReadPipe → ReadPipe → Type 0
SameRead s t =
    (t.eof ≡ s.eof) × (t.source ≡ s.source) × (t.told ≡ s.told) × (t.has_protocol ≡ s.has_protocol)

module _ (env : Env) where
  pub request-SameRead : (r : Request) (s : ReadPipe) → SameRead s (request env r s)
  unfolding request disarm arm resume_reading close_reading
  request-SameRead pause s = ground arith
  request-SameRead resume s = ground arith
  request-SameRead close s = ground arith

  pub request_all-SameRead : (rs : List Request) (s : ReadPipe) → SameRead s (request_all env rs s)
  unfolding request_all
  request_all-SameRead [] s = (refl, refl, refl, refl)
  request_all-SameRead (r ∷ rs) s =
      ground (arith, request-SameRead r s, request_all-SameRead rs (request env r s))

  pub tell-told :
      (c : Told) (s : ReadPipe)
      → s.has_protocol ≡ true
      → let t = tell env c s in
        (t.eof ≡ s.eof)
        × (t.source ≡ s.source)
        × (t.told ≡ s.told ++ c ∷ [])
        × (t.has_protocol ≡ true)
  unfolding tell
  tell-told c s h =
      let told' = s.told ++ c ∷ [] in
      ground (arith, request_all-SameRead (env.reaction told') (record s { told = told' }))
