-- ===== src/Subprocess/Arming.antt =====
-- When the reader of a `_ReadPipeTransport` (talyn/loop.py) is registered.
use talyn.Subprocess.Reading.{request_all-SameRead}
use talyn.Base.{
  List-cases, ◌||◌, Bool-cases, ◌≡◌, ◌++◌, refl, ◌∙◌, inl, inr, arith, true, false, List, [], ◌∷◌,
}
use talyn.Subprocess.ReadPipe.{
  close_reading, resume_reading, opened, disarm, arm, tell, step, run, request_all, request,
  on_readable, at_end, after_read, ReadPipe, Env, Request, Told, Event, ReadResult, pause, resume,
  close, chunk, would_block, os_error, pipe_data_received, pipe_connection_lost,
}

-- The reader of a pipe that has ended is not registered.
abbrev IsQuiet : ReadPipe → Type 0
IsQuiet s = (s.eof ≡ true) → s.armed ≡ false

module _ (env : Env) (quiet : env.remove_fails ≡ false) where
  request-IsQuiet : (r : Request) (s : ReadPipe) → IsQuiet s → IsQuiet (request env r s)
  unfolding request disarm arm resume_reading close_reading
  request-IsQuiet pause s h = ground arith
  request-IsQuiet resume s h = ground arith
  request-IsQuiet close s h = ground arith

  request_all-IsQuiet :
      (rs : List Request) (s : ReadPipe) → IsQuiet s → IsQuiet (request_all env rs s)
  unfolding request_all
  request_all-IsQuiet [] s h = h
  request_all-IsQuiet (r ∷ rs) s h =
      request_all-IsQuiet rs (request env r s) (request-IsQuiet r s h)

  tell-IsQuiet : (c : Told) (s : ReadPipe) → IsQuiet s → IsQuiet (tell env c s)
  unfolding tell
  tell-IsQuiet c s h =
      let told' = s.told ++ c ∷ [] in
      ground (arith, request_all-IsQuiet (env.reaction told') (record s { told = told' }) h)

  at_end-IsQuiet : (s : ReadPipe) → IsQuiet (at_end env s)
  unfolding at_end disarm
  at_end-IsQuiet s = tell-IsQuiet pipe_connection_lost _ (λ _. ground arith)

  tell-eof : (c : Told) (s : ReadPipe) → (tell env c s).eof ≡ s.eof
  unfolding tell
  tell-eof c s =
      let told' = s.told ++ c ∷ [] in
      ground (arith, request_all-SameRead env (env.reaction told') (record s { told = told' }))

  after_read-IsQuiet :
      (r : ReadResult) (s : ReadPipe) → s.eof ≡ false → IsQuiet (after_read env r s)
  unfolding after_read arm
  after_read-IsQuiet would_block s e = ground arith
  after_read-IsQuiet os_error s e = at_end-IsQuiet s
  after_read-IsQuiet (chunk []) s e = at_end-IsQuiet s
  after_read-IsQuiet (chunk (b ∷ d)) s e = ground (arith, tell-eof (pipe_data_received (b ∷ d)) s)

  step-IsQuiet : (s : ReadPipe) (e : Event) → IsQuiet s → IsQuiet (step env s e)
  unfolding step on_readable disarm after_read
  step-IsQuiet s Event.readable h = elim (Bool-cases (s.eof || s.closed)) [
    | inl e ↦ ground arith
    | inr e ↦ elim (List-cases s.source) [
      | inl n ↦ ground (arith, after_read-IsQuiet would_block s)
      | inr (r, rest, c) ↦ ground (arith, after_read-IsQuiet r (record s { source = rest }))
    ]
  ]
  step-IsQuiet s (Event.asks r) h = request-IsQuiet r s h

  run-IsQuiet : (s : ReadPipe) (es : List Event) → IsQuiet s → IsQuiet (run env s es)
  unfolding run
  run-IsQuiet s [] h = h
  run-IsQuiet s (e ∷ es) h = run-IsQuiet (step env s e) es (step-IsQuiet s e h)

  -- If `remove_reader` does not raise, a read pipe that has reached its end is never registered
  -- again, whatever the protocol and the program ask for.
  pub ended_for_good :
      (source : List ReadResult) (es : List Event)
      → (run env (opened source) es).eof ≡ true
      → (run env (opened source) es).armed ≡ false
  ended_for_good source es e = run-IsQuiet (opened source) es (λ x. cc) e

module _ (env : Env) where
  request-closed :
      (r : Request) (s : ReadPipe)
      → s.closed ≡ true
      → ((request env r s).closed ≡ true) × ((request env r s).told ≡ s.told)
  unfolding request disarm resume_reading close_reading
  request-closed pause s h = ground arith
  request-closed resume s h = ground arith
  request-closed close s h = ground arith

  step-closed :
      (s : ReadPipe) (e : Event)
      → s.closed ≡ true
      → ((step env s e).closed ≡ true) × ((step env s e).told ≡ s.told)
  unfolding step on_readable disarm
  step-closed s Event.readable h = ground arith
  step-closed s (Event.asks r) h = request-closed r s h

  -- After `close` the protocol is told nothing more, not even that the pipe is lost, whatever
  -- happens later.
  pub closed_is_silent :
      (s : ReadPipe) (es : List Event)
      → s.closed ≡ true
      → ((run env s es).told ≡ s.told) × ((run env s es).closed ≡ true)
  unfolding run
  closed_is_silent s [] h = (refl, h)
  closed_is_silent s (e ∷ es) h =
      let (c, t) = step-closed s e h in
      let (t', c') = closed_is_silent (step env s e) es c in (t' ∙ t, c')
