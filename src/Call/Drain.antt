-- ===== src/Call/Drain.antt =====
-- What `discard_unread_body` and `finish` of src/server.rs leave behind: the connection stands exactly
-- behind the body, however its bytes arrive.
use mhttp.Common.{
  ℕ, ◌-◌, ◌<◌, ◌≤◌, ◌≡◌, refl, sym, ap, ◌∙◌, true, false, List, [], ◌∷◌, ◌++◌, Bytes, ◌==◌, length,
  drop, arith, length-append, length-drop, drop-append_le, drop-append, append-nil, ltb, ltb→lt,
  Bool-cases, inl, inr,
}
use Prim.Native.Nat.{min}
use mhttp.Input.{Event, received, failed, silent}
use mhttp.Input.Reads.{arriving, whole}
use mhttp.Common.{Bool, ◌&&◌, not}
use mhttp.Request.{BodyState, unread, reading, read}
use mhttp.Connection.Sent.{all_written, flush-written}
use mhttp.Connection.{Connection, Writer, flush}
use mhttp.Connection.Reading.{Prompt}
use mhttp.Call.{
  HttpCall, discard_of, finished, with_body_state, shutdown, Drained, drop_at_hand, drain,
  discard_unread_body, finish, Finished, kept, closed,
}

abbrev DrainedTo : Bytes → Drained → Type 0
DrainedTo rest (done, v, d) =
    (done ≡ true) × (whole d ≡ rest) × Prompt d.incoming × (v.broken ≡ false)

drop_whole :
    (n : ℕ) (reader arrived body rest : Bytes)
    → n ≤ length reader
    → length body ≡ n
    → reader ++ arrived ≡ body ++ rest
    → drop n reader ++ arrived ≡ rest
drop_whole n reader arrived body rest inside size e =
    sym (drop-append_le n reader arrived inside)
    ∙ ap (drop n) e
    ∙ rw (sym size) (drop-append body rest)

-- With the body at hand, it is dropped without a read.
at_hand :
    (remaining : ℕ) (w : Writer) (reader : Bytes) (events : List Event) (more : Drained)
    (body rest : Bytes)
    → w.broken ≡ false
    → Prompt events
    → reader ++ arriving events ≡ body ++ rest
    → length body ≡ remaining
    → remaining ≤ length reader
    → DrainedTo rest (drop_at_hand remaining w reader events more)
unfolding drop_at_hand whole
at_hand remaining w reader events more body rest sound prompt e size inside =
    let n : min remaining (length reader) ≡ remaining = omega arith in
    let none_left : (remaining - remaining == 0) ≡ true = ground arith in
    rw (n, none_left)
      (refl, drop_whole remaining reader (arriving events) body rest inside size e, prompt, sound)

-- Without it, what is at hand is dropped.
reads_on :
    (remaining : ℕ) (w : Writer) (reader : Bytes) (events : List Event) (more : Drained)
    → w.broken ≡ false
    → length reader < remaining
    → drop_at_hand remaining w reader events more ≡ more
unfolding drop_at_hand
reads_on remaining w reader events more sound short =
    let some_left : (remaining - min remaining (length reader) == 0) ≡ false = ground arith in
    rw (some_left, sound) refl

-- The bytes of a body that is announced with its length are dropped, however they arrive, and those
-- behind it are left.
pub drain_lem :
    (remaining : ℕ) (w : Writer) (reader : Bytes) (events : List Event) (body rest : Bytes)
    → w.broken ≡ false
    → Prompt events
    → reader ++ arriving events ≡ body ++ rest
    → length body ≡ remaining
    → DrainedTo rest (drain remaining w reader events)
unfolding drain arriving Prompt
drain_lem remaining w reader [] body rest sound prompt e size =
    let total : length (reader ++ []) ≡ length (body ++ rest) = ap length e in
    let sum = length-append body rest in
    at_hand remaining w reader [] _ body rest sound prompt e size
      (omega (arith, length-append reader []))
drain_lem remaining w reader (received [] ∷ events) body rest sound prompt e size = absurd prompt
drain_lem remaining w reader (failed ∷ events) body rest sound prompt e size = absurd prompt
drain_lem remaining w reader (silent ∷ events) body rest sound prompt e size = absurd prompt
drain_lem remaining w reader (received (b ∷ s) ∷ events) body rest sound prompt e size =
    elim (Bool-cases (ltb (length reader) remaining)) [
      | inr enough ↦
          at_hand remaining w reader (received (b ∷ s) ∷ events) _ body rest sound prompt e size
            (ground (arith, enough))
      | inl short ↦
          let less = ltb→lt (length reader) remaining short in
          let n : min remaining (length reader) ≡ length reader = omega arith in
          let gone : drop (length reader) reader ≡ [] =
            ap (drop (length reader)) (sym (append-nil reader)) ∙ drop-append reader [] in
          let later : (b ∷ s) ++ arriving events ≡ drop (length reader) body ++ rest =
            sym (drop-append reader ((b ∷ s) ++ arriving events))
            ∙ ap (drop (length reader)) e
            ∙ drop-append_le (length reader) body rest (omega arith) in
          rw (reads_on remaining w reader (received (b ∷ s) ∷ events) _ sound less) (
            rw (n, gone)
              (drain_lem (remaining - length reader) (flush w) (b ∷ s) events
                (drop (length reader) body) rest (unfold flush in sound) prompt later
                (omega (arith, length-drop (length reader) body))))
    ]

-- A sound connection that stands right behind the body
abbrev pub KeptAt : Bytes → Finished → Type 0
KeptAt rest (kept c) = (whole c.input ≡ rest) × Prompt c.input.incoming × (c.writer.broken ≡ false)
KeptAt rest (closed c) = ⊥

module _ {H : Type 0} where
  -- After a request with a body of announced length that nobody read, a connection that is kept alive
  -- stands exactly behind the body, however its bytes arrive: the next request is not mixed with it.
  pub finish-KeptAt :
      (call : HttpCall H) (body rest : Bytes)
      → call.connection.writer.broken ≡ false
      → Prompt call.connection.input.incoming
      → call.request.body_state ≡ unread (length body) false
      → whole call.connection.input ≡ body ++ rest
      → KeptAt rest (finish call true)
  unfolding finish discard_unread_body whole
  finish-KeptAt call [] rest sound prompt state e = rw state (e, prompt, sound)
  finish-KeptAt call (b ∷ body) rest sound prompt state e =
      let (done, left, more, still) =
        drain_lem (length (b ∷ body)) call.connection.writer call.connection.input.reader
          call.connection.input.incoming (b ∷ body) rest sound prompt e refl in
      let test : (length (b ∷ body) == 0) ≡ false = ground arith in
      rw (state, test, done) (left, more, still)

-- Reading a body off writes nothing.
abbrev pub connection_of : Finished → Connection
connection_of (kept c) = c
connection_of (closed c) = c

drop_at_hand-written :
    (remaining : ℕ) (w : Writer) (reader : Bytes) (events : List Event) (more : Drained)
    → all_written more.1 ≡ all_written w
    → all_written (drop_at_hand remaining w reader events more).1 ≡ all_written w
unfolding drop_at_hand
drop_at_hand-written remaining w reader events more h =
    elim (Bool-cases (remaining - min remaining (length reader) == 0)) [
      | inl e ↦ rw e refl
      | inr e ↦ elim (Bool-cases w.broken) [ inl f ↦ rw (e, f) refl | inr f ↦ rw (e, f) h ]
    ]

drain-written :
    (remaining : ℕ) (w : Writer) (reader : Bytes) (events : List Event)
    → all_written (drain remaining w reader events).1 ≡ all_written w
unfolding drain
drain-written remaining w reader [] = drop_at_hand-written remaining w reader [] _ (flush-written w)
drain-written remaining w reader (silent ∷ events) =
    drop_at_hand-written remaining w reader (silent ∷ events) _ (flush-written w)
drain-written remaining w reader (failed ∷ events) =
    drop_at_hand-written remaining w reader (failed ∷ events) _ (flush-written w)
drain-written remaining w reader (received [] ∷ events) =
    drop_at_hand-written remaining w reader (received [] ∷ events) _ (flush-written w)
drain-written remaining w reader (received (b ∷ s) ∷ events) =
    drop_at_hand-written remaining w reader (received (b ∷ s) ∷ events) _ (
      drain-written (remaining - min remaining (length reader)) (flush w)
        (drop (min remaining (length reader)) reader ++ b ∷ s) events
      ∙ flush-written w)

module _ {H : Type 0} where
  discard_of-written :
      (state : BodyState) (call : HttpCall H)
      → all_written (discard_of state call).1.connection.writer ≡ all_written call.connection.writer
  discard_of-written (read b) call = refl
  discard_of-written reading call = refl
  discard_of-written (unread n is_chunked) call = elim (Bool-cases (n == 0 && not is_chunked)) [
    | inl e ↦ rw e refl
    | inr e ↦ elim (Bool-cases is_chunked) [
      | inl f ↦ rw (e, f) refl
      | inr f ↦ rw (e, f) (drain-written n _ _ _)
    ]
  ]

  finished-written :
      (drained : Bool) (call : HttpCall H)
      → all_written (connection_of (finished drained call)).writer
        ≡ all_written call.connection.writer
  unfolding shutdown
  finished-written true call = refl
  finished-written false call = elim (Bool-cases call.connection.writer.broken) [
    | inl e ↦ rw e refl
    | inr e ↦ rw e (flush-written call.connection.writer)
  ]

  pub finish-written :
      (call : HttpCall H)
      → all_written (connection_of (finish call true)).writer ≡ all_written call.connection.writer
  unfolding finish discard_unread_body
  finish-written call =
      finished-written (discard_unread_body call).0 (discard_unread_body call).1
      ∙ discard_of-written call.request.body_state (with_body_state reading call)
