-- ===== src/Input/Reads.antt =====
-- How the reads of a connection are cut does not matter: what a step takes off the input depends on
-- the bytes only, those in `reader` and those to be received, in this order.
use mhttp.Common.{
  memchr_first, memchr_lt, memchr-append, take_past, drop_past, ℕ, ◌+◌, ◌≤◌, ◌≡◌, refl, sym, ◌∙◌,
  ap, false, some, List, [], ◌∷◌, ◌++◌, Bytes, ltb, length, take, drop, memchr, arith, append-nil,
  append_assoc, Bool-cases, Option-cases, inl, inr, Lacks, length-append, take-append_le,
  drop-append_le, take-append, drop-append,
}
use mhttp.Input.{
  closed, Event, received, failed, silent, Input, Result, ok, err, fill, read_line, cut_line,
}

-- Every byte that is still to be taken.
unfoldable pub arriving : List Event → Bytes
arriving [] = []
arriving (received b ∷ events) = b ++ arriving events
arriving (failed ∷ events) = arriving events
arriving (silent ∷ events) = arriving events

unfoldable pub whole : Input → Bytes
unfolding arriving
whole c = c.reader ++ arriving c.incoming

-- No read fails and none reports the end of the stream.
unfoldable pub Flows : List Event → Type 0
Flows [] = Unit
Flows (received [] ∷ events) = ⊥
Flows (received (_ ∷ _) ∷ events) = Flows events
Flows (failed ∷ events) = ⊥
Flows (silent ∷ events) = Flows events

abbrev pub Filled : ℕ → Bytes → List Event → Type 0
Filled n reader events =
    (c : Input) × (fill n reader events ≡ ok c)
    × (whole c ≡ reader ++ arriving events)
    × (n ≤ length c.reader)
    × Flows c.incoming

-- Where there are bytes enough already, nothing is read.
filled_already :
    (n : ℕ) (reader : Bytes) (events : List Event)
    → Flows events
    → ltb (length reader) n ≡ false
    → fill n reader events ≡ ok (record { reader = reader; incoming = events })
unfolding fill
filled_already n reader [] flows e = rw e refl
filled_already n reader (silent ∷ events) flows e = rw e refl
filled_already n reader (received b ∷ events) flows e = rw e refl
filled_already n reader (failed ∷ events) flows e = rw e refl

by_def :
    (reader : Bytes) (events : List Event)
    → whole (record { reader = reader; incoming = events }) ≡ reader ++ arriving events
unfolding whole
by_def reader events = refl

pub fill_lem :
    (n : ℕ) (reader : Bytes) (events : List Event)
    → Flows events
    → n ≤ length (reader ++ arriving events)
    → Filled n reader events
unfolding fill arriving Flows
fill_lem n reader [] flows enough =
    let here : n ≤ length reader = rw (sym (append-nil reader)) enough in
    (record { reader = reader; incoming = [] }, ground arith, by_def reader [], here, tt)
fill_lem n reader (silent ∷ events) flows enough = elim (Bool-cases (ltb (length reader) n)) [
  | inl e ↦ let (c, ran, w, l, f) = fill_lem n reader events flows enough in (c, rw e ran, w, l, f)
  | inr e ↦ (
    record { reader = reader; incoming = silent ∷ events },
    rw e refl,
    by_def reader (silent ∷ events),
    ground arith,
    flows,
  )
]
fill_lem n reader (received [] ∷ events) flows enough = absurd flows
fill_lem n reader (received (b ∷ s) ∷ events) flows enough =
    elim (Bool-cases (ltb (length reader) n)) [
      | inl e ↦
          let same = append_assoc reader (b ∷ s) (arriving events) in
          let (c, ran, w, l, f) = fill_lem n (reader ++ b ∷ s) events flows (rw same enough) in
          (c, rw e ran, w ∙ same, l, f)
      | inr e ↦ (
        record { reader = reader; incoming = received (b ∷ s) ∷ events },
        rw e refl,
        by_def reader (received (b ∷ s) ∷ events),
        ground arith,
        flows,
      )
    ]
fill_lem n reader (failed ∷ events) flows enough = absurd flows

-- `n` bytes are taken off the input, however they arrive.
pub take_lem :
    (n : ℕ) (c : Input)
    → Flows c.incoming
    → (s rest : Bytes) → whole c ≡ s ++ rest
    → length s ≡ n
    → (d : Input) × (fill n c.reader c.incoming ≡ ok d)
      × (take n d.reader ≡ s)
      × (whole (record { reader = drop n d.reader; incoming = d.incoming }) ≡ rest)
      × Flows d.incoming
unfolding whole
take_lem n c flows s rest e size =
    let total : length (c.reader ++ arriving c.incoming) ≡ length (s ++ rest) = ap length e in
    let sum = length-append s rest in
    let (d, ran, w, l, f) = fill_lem n c.reader c.incoming flows (omega arith) in
    let all : d.reader ++ arriving d.incoming ≡ s ++ rest = w ∙ e in
    let t : take n d.reader ≡ s =
      sym (take-append_le n d.reader (arriving d.incoming) l)
      ∙ ap (take n) all
      ∙ rw (sym size) (take-append s rest) in
    let k : drop n d.reader ++ arriving d.incoming ≡ rest =
      sym (drop-append_le n d.reader (arriving d.incoming) l)
      ∙ ap (drop n) all
      ∙ rw (sym size) (drop-append s rest) in
    (d, ran, t, k, f)

some_inj : {m n : ℕ} → some m ≡ some n → m ≡ n
some_inj e = cc

abbrev pub LineTaken : Bytes → List Event → Bytes → Bytes → Type 0
LineTaken reader events line rest =
    (d : Input) × (read_line reader events ≡ ok (line ++ b'\n' ∷ [], d))
    × (whole d ≡ rest)
    × Flows d.incoming

-- A line that stands whole in `reader` is cut off there.
line_here :
    (reader : Bytes) (events : List Event) (line rest : Bytes) (p : ℕ)
    (more : Result (Bytes × Input))
    → Flows events
    → Lacks b'\n' line
    → reader ++ arriving events ≡ line ++ b'\n' ∷ rest
    → memchr b'\n' reader ≡ some p
    → (d : Input) × (cut_line (memchr b'\n' reader) reader events more ≡ ok (line ++ b'\n' ∷ [], d))
      × (whole d ≡ rest)
      × Flows d.incoming
unfolding cut_line whole
line_here reader events line rest p more flows lacks e found =
    let there = memchr-append b'\n' reader (arriving events) p found in
    let first = memchr_first b'\n' line rest lacks in
    let at : p ≡ length line = some_inj (sym there ∙ ap (memchr b'\n') e ∙ first) in
    let inside : p + 1 ≤ length reader = omega (arith, memchr_lt b'\n' reader p found) in
    let t : take (p + 1) reader ≡ line ++ b'\n' ∷ [] =
      sym (take-append_le (p + 1) reader (arriving events) inside)
      ∙ ap (take (p + 1)) e
      ∙ rw at (take_past line b'\n' rest) in
    let k : drop (p + 1) reader ++ arriving events ≡ rest =
      sym (drop-append_le (p + 1) reader (arriving events) inside)
      ∙ ap (drop (p + 1)) e
      ∙ rw at (drop_past line b'\n' rest) in
    (record { reader = drop (p + 1) reader; incoming = events }, rw (found, t) refl, k, flows)

pub read_line_lem :
    (reader : Bytes) (events : List Event) (line rest : Bytes)
    → Flows events
    → Lacks b'\n' line
    → reader ++ arriving events ≡ line ++ b'\n' ∷ rest
    → LineTaken reader events line rest
unfolding read_line cut_line arriving Flows
read_line_lem reader [] line rest flows lacks e =
    let e2 : reader ≡ line ++ b'\n' ∷ rest = sym (append-nil reader) ∙ e in
    line_here reader [] line rest (length line) (err closed) flows lacks e
      (rw e2 (memchr_first b'\n' line rest lacks))
read_line_lem reader (silent ∷ events) line rest flows lacks e =
    elim (Option-cases (memchr b'\n' reader)) [
      | inr (p, found) ↦
          line_here reader (silent ∷ events) line rest p (read_line reader events) flows lacks e
            found
      | inl lost ↦ rw (lost, cut_line) (read_line_lem reader events line rest flows lacks e)
    ]
read_line_lem reader (received [] ∷ events) line rest flows lacks e = absurd flows
read_line_lem reader (received (b ∷ s) ∷ events) line rest flows lacks e =
    elim (Option-cases (memchr b'\n' reader)) [
      | inr (p, found) ↦
          line_here reader (received (b ∷ s) ∷ events) line rest p
            (read_line (reader ++ b ∷ s) events) flows lacks e found
      | inl lost ↦
          let same = append_assoc reader (b ∷ s) (arriving events) in
          rw (lost, cut_line)
            (read_line_lem (reader ++ b ∷ s) events line rest flows lacks (same ∙ e))
    ]
read_line_lem reader (failed ∷ events) line rest flows lacks e = absurd flows
