-- ===== src/Subprocess/Delivery.antt =====
-- What `_ReadPipeTransport` of talyn/loop.py delivers: all of the pipe, in order, and one end.
use talyn.Base.{
  List-cases, ◌||◌, ◌⊎◌, sym, inr, inl, Bool-cases, ap, append-nil, ◌∙◌, false, map, if◌then◌else◌,
  ◌≡◌, refl, ◌++◌, arith, true, List, [], ◌∷◌, append_assoc,
}
use talyn.Subprocess.ReadPipe.{
  opened, Event, step, run, on_readable, after_read, at_end, arm, disarm, tell, Bytes, ReadPipe,
  Env, Told, ReadResult, chunk, would_block, os_error, pipe_data_received, pipe_connection_lost,
}
use talyn.Subprocess.Reading.{
  reads, received, content, received-append, SameRead, request-SameRead, tell-told,
}

-- All that the pipe says is with the protocol or still to be read, and nothing is told after the loss.
pub record IsInOrder (whole : Bytes) (all : List Bytes) (s : ReadPipe) : Type 0 where
  pub has_listener : s.has_protocol ≡ true
  pub kept : received s.told ++ (if s.eof then [] else content s.source) ≡ whole
  pub said :
      (ds : List Bytes) × (s.told
        ≡ map pipe_data_received ds ++ (if s.eof then pipe_connection_lost ∷ [] else []))
      × (ds ++ (if s.eof then [] else reads s.source) ≡ all)

module _ (env : Env) (whole : Bytes) (all : List Bytes) where
  SameRead-IsInOrder :
      (s t : ReadPipe) → SameRead s t → IsInOrder whole all s → IsInOrder whole all t
  SameRead-IsInOrder s t (e, o, d, p) h = record {
    has_listener = ground arith;
    kept = rw (d, e, o, h.kept);
    said = (h.said.0, rw (d, e, h.said.1), rw (e, o) h.said.2);
  }

  disarm-SameRead : (s : ReadPipe) → SameRead s (disarm env s)
  unfolding disarm
  disarm-SameRead s = ground arith

  arm-SameRead : (s : ReadPipe) → SameRead s (arm env s)
  unfolding arm
  arm-SameRead s = ground arith

  map-snoc :
      (ds : List Bytes) (d : Bytes)
      → map pipe_data_received ds ++ pipe_data_received d ∷ []
        ≡ map pipe_data_received (ds ++ d ∷ [])
  map-snoc [] d = refl
  map-snoc (x ∷ ds) d = rw (map-snoc ds d)

  live-kept :
      (s : ReadPipe)
      → s.eof ≡ false
      → IsInOrder whole all s
      → received s.told ++ content s.source ≡ whole
  live-kept s e h = sym (rw e) ∙ h.kept

  told_all :
      (s : ReadPipe)
      → s.eof ≡ false
      → content s.source ≡ []
      → IsInOrder whole all s
      → received s.told ≡ whole
  told_all s e c h =
      let k : received s.told ++ [] ≡ whole =
        sym (ap (λ x. received s.told ++ x) c) ∙ live-kept s e h in
      sym (append-nil (received s.told)) ∙ k

  live-said :
      (s : ReadPipe)
      → s.eof ≡ false
      → IsInOrder whole all s
      → (ds : List Bytes) × (s.told ≡ map pipe_data_received ds) × (ds ++ reads s.source ≡ all)
  live-said s e h = (h.said.0, h.said.1 ∙ rw (e, append-nil), sym (rw e) ∙ h.said.2)

  -- At the end nothing is left to read.
  said_all :
      (s : ReadPipe) (ds : List Bytes) → reads s.source ≡ [] → ds ++ reads s.source ≡ all → ds ≡ all
  said_all s ds c h = sym (append-nil ds) ∙ sym (ap (λ x. ds ++ x) c) ∙ h

  ended-IsInOrder :
      (t : ReadPipe) (told : List Told) (ds : List Bytes)
      → t.has_protocol ≡ true
      → t.eof ≡ true
      → t.told ≡ told ++ pipe_connection_lost ∷ []
      → received told ≡ whole
      → told ≡ map pipe_data_received ds
      → ds ≡ all
      → IsInOrder whole all t
  unfolding received
  ended-IsInOrder t told ds p e d k m o = record {
    has_listener = p;
    kept = rw (d, e, received-append told (pipe_connection_lost ∷ []), append-nil, append-nil, k);
    said = (ds, rw (d, e, m), rw (e, append-nil) o);
  }

  at_end-IsInOrder :
      (s : ReadPipe) (ds : List Bytes)
      → s.has_protocol ≡ true
      → received s.told ≡ whole
      → s.told ≡ map pipe_data_received ds
      → ds ≡ all
      → IsInOrder whole all (at_end env s)
  unfolding at_end
  at_end-IsInOrder s ds p k m o =
      let s' = record s { eof = true } in
      let (te, ts, td, tp) = disarm-SameRead s' in
      let (ue, us, ud, up) = tell-told env pipe_connection_lost (disarm env s') (tp ∙ p) in
      ended-IsInOrder _ s.told ds up (ue ∙ te) (ud ∙ ap (λ x. x ++ pipe_connection_lost ∷ []) td) k
        m o

  more-IsInOrder :
      (s t : ReadPipe) (d : Bytes) (rest : List ReadResult)
      → s.eof ≡ false
      → content s.source ≡ d ++ content rest
      → reads s.source ≡ d ∷ reads rest
      → IsInOrder whole all s
      → t.has_protocol ≡ true
      → t.eof ≡ false
      → t.source ≡ rest
      → t.told ≡ s.told ++ pipe_data_received d ∷ []
      → IsInOrder whole all t
  unfolding received
  more-IsInOrder s t d rest e c l h p te ts td =
      let (ds, m, o) = live-said s e h in
      let before : received s.told ++ (d ++ content rest) ≡ whole =
        sym (ap (λ x. received s.told ++ x) c) ∙ live-kept s e h in
      record {
        has_listener = p;
        kept = rw (
          td,
          te,
          ts,
          received-append s.told (pipe_data_received d ∷ []),
          append-nil,
          append_assoc,
          before,
        );
        said = (
          ds ++ d ∷ [],
          rw (td, te, append-nil, m, map-snoc ds d),
          rw (te, ts, append_assoc) (sym (ap (λ x. ds ++ x) l) ∙ o),
        );
      }

  chunk-IsInOrder :
      (s : ReadPipe) (d : Bytes) (rest : List ReadResult)
      → s.eof ≡ false
      → content s.source ≡ d ++ content rest
      → reads s.source ≡ d ∷ reads rest
      → IsInOrder whole all s
      → IsInOrder whole all (arm env (tell env (pipe_data_received d) (record s { source = rest })))
  unfolding received
  chunk-IsInOrder s d rest e c l h =
      let s' = record s { source = rest } in
      let (ue, us, ud, up) = tell-told env (pipe_data_received d) s' h.has_listener in
      let t = tell env (pipe_data_received d) s' in
      SameRead-IsInOrder t (arm env t) (arm-SameRead t)
        (more-IsInOrder s t d rest e c l h up (ue ∙ e) us ud)

  read-IsInOrder :
      (s : ReadPipe) (r : ReadResult) (rest : List ReadResult)
      → s.eof ≡ false
      → s.source ≡ r ∷ rest
      → IsInOrder whole all s
      → IsInOrder whole all (after_read env r (record s { source = rest }))
  unfolding after_read content reads live-said
  read-IsInOrder s (chunk []) rest e c h =
      at_end-IsInOrder (record s { source = rest }) (live-said s e h).0 h.has_listener
        (told_all s e (ap content c) h) (live-said s e h).1
        (said_all s _ (ap reads c) (live-said s e h).2)
  read-IsInOrder s (chunk (b ∷ d)) rest e c h =
      chunk-IsInOrder s (b ∷ d) rest e (ap content c) (ap reads c) h
  read-IsInOrder s would_block rest e c h =
      SameRead-IsInOrder (record s { source = rest }) _ (arm-SameRead (record s { source = rest }))
        (record {
          has_listener = h.has_listener;
          kept = rw e (sym (ap (λ x. received s.told ++ x) (ap content c)) ∙ live-kept s e h);
          said = (
            h.said.0,
            h.said.1,
            rw e (sym (ap (λ x. h.said.0 ++ x) (ap reads c)) ∙ (live-said s e h).2),
          );
        })
  read-IsInOrder s os_error rest e c h =
      at_end-IsInOrder (record s { source = rest }) (live-said s e h).0 h.has_listener
        (told_all s e (ap content c) h) (live-said s e h).1
        (said_all s _ (ap reads c) (live-said s e h).2)

  on_readable-cases :
      (s : ReadPipe)
      → (on_readable env s ≡ disarm env s)
        ⊎ (on_readable env s ≡ arm env s)
        ⊎ ((r : ReadResult) × (rest : List ReadResult) × (s.eof ≡ false)
            × (s.source ≡ r ∷ rest)
            × (on_readable env s ≡ after_read env r (record s { source = rest })))
  unfolding on_readable after_read
  on_readable-cases s = elim (Bool-cases (s.eof || s.closed)) [
    | inl e ↦ inl (rw e refl)
    | inr e ↦ elim (List-cases s.source) [
      | inl n ↦ inr (inl (ground arith))
      | inr (r, rest, c) ↦ inr (inr (r, rest, ground arith, c, rw (e, c) refl))
    ]
  ]

  on_readable-IsInOrder :
      (s : ReadPipe) → IsInOrder whole all s → IsInOrder whole all (on_readable env s)
  on_readable-IsInOrder s h = elim (on_readable-cases s) [
    | inl c ↦ rw c (SameRead-IsInOrder s _ (disarm-SameRead s) h)
    | inr (inl c) ↦ rw c (SameRead-IsInOrder s _ (arm-SameRead s) h)
    | inr (inr (r, rest, e, o, c)) ↦ rw c (read-IsInOrder s r rest e o h)
  ]

  readable-cases :
      (s : ReadPipe)
      → (step env s Event.readable ≡ on_readable env s) ⊎ (step env s Event.readable ≡ s)
  unfolding step
  readable-cases s = elim (Bool-cases s.armed) [
    | inl e ↦ inl ground arith
    | inr e ↦ inr ground arith
  ]

  step-IsInOrder :
      (s : ReadPipe) (e : Event) → IsInOrder whole all s → IsInOrder whole all (step env s e)
  unfolding step
  step-IsInOrder s Event.readable h = elim (readable-cases s) [
    | inl c ↦ rw c (on_readable-IsInOrder s h)
    | inr c ↦ rw c h
  ]
  step-IsInOrder s (Event.asks r) h = SameRead-IsInOrder s _ (request-SameRead env r s) h

  pub run-IsInOrder :
      (s : ReadPipe) (es : List Event) → IsInOrder whole all s → IsInOrder whole all (run env s es)
  unfolding run
  run-IsInOrder s [] h = h
  run-IsInOrder s (e ∷ es) h = run-IsInOrder (step env s e) es (step-IsInOrder s e h)

-- After any history of a new read pipe the protocol was told of single reads, each as the pipe
-- answered it and in this order, then of the loss, once, if the end was reached. The reads it was
-- told of and, before the end, those still to come are the reads of the pipe up to its end, and
-- their bytes are what the pipe says.
pub run-delivers :
    (env : Env) (source : List ReadResult) (es : List Event)
    → let s = run env (opened source) es in
      (received s.told ++ (if s.eof then [] else content s.source) ≡ content source)
      × ((ds : List Bytes) × (s.told
            ≡ map pipe_data_received ds ++ (if s.eof then pipe_connection_lost ∷ [] else []))
          × (ds ++ (if s.eof then [] else reads s.source) ≡ reads source))
unfolding received
run-delivers env source es =
    let h =
      run-IsInOrder env (content source) (reads source) (opened source) es
        (record { has_listener = refl; kept = refl; said = ([], refl, refl) }) in
    (h.kept, h.said)
