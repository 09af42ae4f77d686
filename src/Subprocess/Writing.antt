-- ===== src/Subprocess/Writing.antt =====
-- The bytes written to a `_WritePipeTransport` (talyn/loop.py), on their way to the child's stdin.
use talyn.Base.Exec.{ok}
use std.Path.{subst}
use talyn.Base.{
  take-append-drop, ℕ, drop, take, ◌||◌, ◌⊎◌, map, List-cases, ◌≢◌, ap, Bool-cases, ◌≡◌, refl, sym,
  ◌∙◌, ◌++◌, inl, inr, arith, Bool, true, false, List, [], ◌∷◌, append_assoc, append-nil,
}
use talyn.Subprocess.ReadPipe.{Bytes}
use talyn.Subprocess.WritePipe.{
  breaks, is_empty, takes, empty, Answer, WritePipe, Event, write, close, drain, flush,
  flush_during, write_out, step, run,
}

-- What was written and is not lost: the bytes that stdin was given, then the buffer.
abbrev pub stream : WritePipe → Bytes
stream s = s.written ++ s.buffer

-- What the program wrote before the transport was closed.
pub accepted : Bool → List Event → Bytes
accepted closed [] = []
accepted true (e ∷ es) = accepted true es
accepted false (Event.writes d ∷ es) = d ++ accepted false es
accepted false (Event.drains b ∷ es) = accepted false es
accepted false (Event.closes ∷ es) = accepted true es

-- A pipe that broke in the middle of a write: `given` is what the child got of the buffer, which
-- the buffer still holds.
abbrev pub IsCut : WritePipe → Bytes → Type 0
IsCut s whole =
    (before : Bytes) × (given : Bytes) × (rest : Bytes) × (s.written ≡ before ++ given)
    × (s.buffer ≡ given ++ rest)
    × (before ++ s.buffer ≡ whole)

-- All these bytes, in order and each once, are with stdin and then in the buffer, but for those that
-- a pipe that broke was given and that the buffer holds as well.
abbrev pub Keeps : WritePipe → Bytes → Type 0
Keeps s whole =
    ((s.stdin_broken ≡ false) × (stream s ≡ whole)) ⊎ ((s.stdin_broken ≡ true) × IsCut s whole)

write-Keeps :
    (d : Bytes) (s : WritePipe) (whole : Bytes)
    → s.closed ≡ false
    → Keeps s whole
    → Keeps (write d s) (whole ++ d)
unfolding write
write-Keeps d s whole c (inl (b, h)) =
    rw c (inl (b, sym (append_assoc s.written s.buffer d) ∙ ap (λ x. x ++ d) h))
write-Keeps d s whole c (inr (b, (before, given, rest, w, o, h))) = rw c (
    inr (
      b,
      (
        before,
        given,
        rest ++ d,
        w,
        ap (λ x. x ++ d) o ∙ append_assoc given rest d,
        sym (append_assoc before s.buffer d) ∙ ap (λ x. x ++ d) h,
      ),
    ))

drain_stuck :
    (a : Answer) (s : WritePipe)
    → (s.closed || is_empty s.buffer) || (s.stdin_closed || s.stdin_broken) ≡ true
    → (drain a s).1 ≡ s
unfolding drain flush flush_during write_out
drain_stuck a s h = ground arith

drain-takes :
    (s : WritePipe)
    → (s.closed || is_empty s.buffer) || (s.stdin_closed || s.stdin_broken) ≡ false
    → (drain takes s).1 ≡ record s { written = s.written ++ s.buffer; buffer = [] }
unfolding drain flush flush_during write_out
drain-takes s e = ground arith

drain-breaks :
    (n : ℕ) (s : WritePipe)
    → (s.closed || is_empty s.buffer) || (s.stdin_closed || s.stdin_broken) ≡ false
    → (drain (breaks n) s).1
      ≡ record s { written = s.written ++ take n s.buffer; stdin_broken = true }
unfolding drain flush flush_during write_out
drain-breaks n s e = ground arith

drain_live :
    (a : Answer) (s : WritePipe) (whole : Bytes)
    → (s.closed || is_empty s.buffer) || (s.stdin_closed || s.stdin_broken) ≡ false
    → Keeps s whole
    → Keeps (drain a s).1 whole
drain_live takes s whole e (inl (b, h)) =
    subst (λ t. Keeps t whole) (sym (drain-takes s e))
      (inl (b, append-nil (s.written ++ s.buffer) ∙ h))
drain_live (breaks n) s whole e (inl (b, h)) =
    subst (λ t. Keeps t whole) (sym (drain-breaks n s e))
      (inr (
        refl,
        (s.written, take n s.buffer, drop n s.buffer, refl, sym (take-append-drop n s.buffer), h),
      ))
drain_live a s whole e (inr (b, h)) = absurd (ground arith)

drain-Keeps :
    (a : Answer) (s : WritePipe) (whole : Bytes) → Keeps s whole → Keeps (drain a s).1 whole
drain-Keeps a s whole h =
    elim (Bool-cases ((s.closed || is_empty s.buffer) || (s.stdin_closed || s.stdin_broken))) [
      | inl e ↦ rw (drain_stuck a s e) h
      | inr e ↦ drain_live a s whole e h
    ]

drain-closed : (a : Answer) (s : WritePipe) → (drain a s).1.closed ≡ s.closed
unfolding drain flush flush_during write_out
drain-closed a s = ground arith

close-closed : (s : WritePipe) → (close s).closed ≡ true
unfolding close
close-closed s = ground arith

write-closed : (d : Bytes) (s : WritePipe) → (write d s).closed ≡ s.closed
unfolding write
write-closed d s = ground arith

closed_keeps : (s : WritePipe) (e : Event) → s.closed ≡ true → step s e ≡ s
unfolding step write close drain
closed_keeps s (Event.writes d) h = ground arith
closed_keeps s (Event.drains b) h = ground arith
closed_keeps s Event.closes h = ground arith

close-Keeps : (s : WritePipe) (whole : Bytes) → Keeps s whole → Keeps (close s) whole
unfolding close
close-Keeps s whole h = elim (Bool-cases s.closed) [ inl c ↦ rw c h | inr c ↦ rw c h ]

accepted-closed : (es : List Event) → accepted true es ≡ []
unfolding accepted
accepted-closed [] = refl
accepted-closed (e ∷ es) = accepted-closed es

-- What a first event of an open pipe adds to what was accepted.
step-Keeps :
    (s : WritePipe) (e : Event) (es : List Event) (whole : Bytes)
    → s.closed ≡ false
    → Keeps s whole
    → (next : Bytes) × Keeps (step s e) next
      × (next ++ accepted (step s e).closed es ≡ whole ++ accepted false (e ∷ es))
unfolding step accepted
step-Keeps s (Event.writes d) es whole c h = (
  whole ++ d,
  write-Keeps d s whole c h,
  ap (λ b. (whole ++ d) ++ accepted b es) (write-closed d s ∙ c)
      ∙ append_assoc whole d (accepted false es),
)
step-Keeps s (Event.drains a) es whole c h =
    (whole, drain-Keeps a s whole h, ap (λ b. whole ++ accepted b es) (drain-closed a s ∙ c))
step-Keeps s Event.closes es whole c h =
    (whole, close-Keeps s whole h, ap (λ b. whole ++ accepted b es) (close-closed s))

-- The same from any state, and with what was kept in it.
pub run-Keeps :
    (s : WritePipe) (es : List Event) (whole : Bytes)
    → Keeps s whole
    → Keeps (run s es) (whole ++ accepted s.closed es)
unfolding run accepted
run-Keeps s [] whole h = subst (Keeps s) (sym (append-nil whole)) h
run-Keeps s (e ∷ es) whole h = elim (Bool-cases s.closed) [
  | inl c ↦
      subst (Keeps (run (step s e) es))
        (ap (λ b. whole ++ accepted b es) (ap (λ t. t.closed) (closed_keeps s e c) ∙ c)
          ∙ ap (λ x. whole ++ x) (accepted-closed es ∙ sym (accepted-closed (e ∷ es)))
          ∙ ap (λ b. whole ++ accepted b (e ∷ es)) (sym c))
        (run-Keeps (step s e) es whole (rw (closed_keeps s e c) h))
  | inr c ↦
      let (next, k, a) = step-Keeps s e es whole c h in
      subst (Keeps (run (step s e) es)) (a ∙ ap (λ b. whole ++ accepted b (e ∷ es)) (sym c))
        (run-Keeps (step s e) es next k)
]

-- After any sequence of writes, drains that run alone, and closes of a new write pipe, whatever the
-- child does with what it is given: unless the pipe has broken, the bytes written before close are,
-- in order and each once, with the stdin of the child and then in the buffer. If it has broken in
-- the middle of a write, the buffer still holds all of that write: what the child was given before,
-- and then the buffer, are the bytes written before close, and what it was given of that write
-- stands at the front of the buffer.
pub run-stream : (es : List Event) → Keeps (run empty es) (accepted false es)
run-stream es = run-Keeps empty es [] (inl (refl, refl))

-- A drain that runs alone on an open pipe with a child that reads gives the child all that was
-- written.
pub drain_empties :
    (s : WritePipe)
    → s.closed ≡ false
    → s.stdin_closed ≡ false
    → s.stdin_broken ≡ false
    → ((drain takes s).0 ≡ ok tt)
      × ((drain takes s).1.written ≡ stream s)
      × ((drain takes s).1.buffer ≡ [])
unfolding drain flush flush_during write_out
drain_empties s c o n = elim (List-cases s.buffer) [
  | inl e ↦ ground (arith, append-nil s.written)
  | inr (b, bs, e) ↦ ground arith
]

write-open :
    (d : Bytes) (s : WritePipe) → s.closed ≡ false → write d s ≡ record s { buffer = s.buffer ++ d }
unfolding write
write-open d s c = ground arith

-- Writes on an open pipe change the buffer only.
writes-buffer :
    (ds : List Bytes) (s : WritePipe)
    → s.closed ≡ false
    → record (run s (map Event.writes ds)) { buffer = [] } ≡ record s { buffer = [] }
unfolding run step
writes-buffer [] s c = refl
writes-buffer (d ∷ ds) s c =
    ap (λ t. record (run t (map Event.writes ds)) { buffer = [] }) (write-open d s c)
    ∙ writes-buffer ds (record s { buffer = s.buffer ++ d }) c

flush_during-takes :
    (meanwhile : WritePipe → WritePipe) (s : WritePipe)
    → (s.closed || is_empty s.buffer) || (s.stdin_closed || s.stdin_broken) ≡ false
    → flush_during meanwhile takes s
      ≡ (ok tt, record (meanwhile (record s { written = s.written ++ s.buffer })) { buffer = [] })
unfolding flush_during write_out
flush_during-takes meanwhile s e = ground arith

is_live :
    (s : WritePipe)
    → s.closed ≡ false
    → s.stdin_closed ≡ false
    → s.stdin_broken ≡ false
    → s.buffer ≢ []
    → (s.closed || is_empty s.buffer) || (s.stdin_closed || s.stdin_broken) ≡ false
is_live s c o n e = elim (List-cases s.buffer) [
  | inl x ↦ absurd (e x)
  | inr (b, bs, x) ↦ ground arith
]

flush_during_lem :
    (s : WritePipe) (ds : List Bytes)
    → s.closed ≡ false
    → s.stdin_closed ≡ false
    → s.stdin_broken ≡ false
    → s.buffer ≢ []
    → flush_during (λ t. run t (map Event.writes ds)) takes s
      ≡ (ok tt, record s { written = s.written ++ s.buffer; buffer = [] })
flush_during_lem s ds c o n e =
    flush_during-takes (λ t. run t (map Event.writes ds)) s (is_live s c o n e)
    ∙ ap (λ t. (ok tt, t)) (writes-buffer ds (record s { written = s.written ++ s.buffer }) c)

-- If the transport is open, its buffer is not empty, and the child takes what the drain gives it:
-- whatever is written after the thread has copied the buffer and before it clears it is lost,
-- though the drain returns as usual. Over any later sequence of writes, drains that run alone, and
-- closes, what is with the stdin of the child and in the buffer is what was there before and what
-- is written later, as for a transport that was never given those bytes.
pub write_during_loses :
    (s : WritePipe) (ds : List Bytes) (es : List Event)
    → s.closed ≡ false
    → s.stdin_closed ≡ false
    → s.stdin_broken ≡ false
    → s.buffer ≢ []
    → let (r, t) = flush_during (λ u. run u (map Event.writes ds)) takes s in
      (r ≡ ok tt) × Keeps (run t es) (stream s ++ accepted false es)
write_during_loses s ds es c o n e =
    let t = record s { written = s.written ++ s.buffer; buffer = [] } in
    rw (flush_during_lem s ds c o n e) (
      refl,
      subst (λ b. Keeps (run t es) (stream s ++ accepted b es)) c
          (run-Keeps t es (stream s) (inl (n, append-nil (s.written ++ s.buffer)))),
    )

-- Two drains at the same time give the child the buffer twice.
pub drain_during_repeats :
    (s : WritePipe)
    → s.closed ≡ false
    → s.stdin_closed ≡ false
    → s.stdin_broken ≡ false
    → s.buffer ≢ []
    → (flush_during (λ t. (drain takes t).1) takes s).1.written
      ≡ (s.written ++ s.buffer) ++ s.buffer
unfolding drain flush flush_during write_out
drain_during_repeats s c o n e = elim (List-cases s.buffer) [
  | inl x ↦ absurd (e x)
  | inr (b, bs, x) ↦ ground arith
]

run-written : (s : WritePipe) (es : List Event) → s.closed ≡ true → run s es ≡ s
unfolding run
run-written s [] h = refl
run-written s (e ∷ es) h =
    run-written (step s e) es (ap (λ t. t.closed) (closed_keeps s e h) ∙ h) ∙ closed_keeps s e h

-- `close` gives the child nothing of the buffer, and nothing later does.
pub close_discards : (s : WritePipe) (es : List Event) → (run (close s) es).written ≡ s.written
unfolding close
close_discards s es = ap (λ t. t.written) (run-written (close s) es (ground arith)) ∙ ground arith
