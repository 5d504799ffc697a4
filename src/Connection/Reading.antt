-- ===== src/Connection/Reading.antt =====
-- How requests are read (src/connection.rs): the cuts between the reads do not matter, the writer is
-- flushed before a read can block, and the parser never panics on what was read.
use mhttp.Common.{
  ℕ, ◌+◌, ◌≤◌, ◌≡◌, ◌≢◌, refl, sym, ap, ◌∙◌, false, Option, none, some, List, [], ◌∷◌, ◌++◌, Bytes,
  codes, ltb, length, take, drop, arith, take-append, take-append-drop, drop-append, take-append_le,
  drop-append_le, append_assoc, append-nil, memmem-append, memmem_le, Option-cases, Bool-cases, inl,
  inr, ◌⊎◌,
}
use mhttp.Input.{Event, received, failed, silent, Input}
use mhttp.Input.Reads.{arriving, whole}
use mhttp.Request.{Outcome, ok, err, timeout}
use mhttp.Connection.{Writer, flush, Taken, input_of, max_header_len, cut_head, head_end, read_head}

-- Bytes keep arriving in time until the list ends, and no read fails.
unfoldable pub Prompt : List Event → Type 0
Prompt [] = Unit
Prompt (received [] ∷ events) = ⊥
Prompt (received (_ ∷ _) ∷ events) = Prompt events
Prompt (failed ∷ events) = ⊥
Prompt (silent ∷ events) = ⊥

-- A text that is cut off at the end of its first head
pub record IsHead (head : Bytes) : Type 0 where
  pub pos : ℕ
  pub ends : head_end head ≡ some pos
  pub all : length head ≡ pos + 4
  pub short : length head ≤ max_header_len

abbrev pub HeadTaken : Writer → Bytes → List Event → Bytes → Bytes → Type 0
HeadTaken w reader events head rest =
    (v : Writer) × (d : Input) × (read_head w reader events ≡ (ok head, v, d))
    × (whole d ≡ rest)
    × Prompt d.incoming

some_inj : {m n : ℕ} → some m ≡ some n → m ≡ n
some_inj e = cc

none-some : {n : ℕ} → none ≢ some n
none-some e = cc

-- A head that is found in the reader ends where the head of the whole input ends.
head_here :
    (w : Writer) (reader : Bytes) (events : List Event) (head rest : Bytes) (p : ℕ) (more : Taken)
    → IsHead head
    → Prompt events
    → reader ++ arriving events ≡ head ++ rest
    → head_end reader ≡ some p
    → (v : Writer) × (d : Input) × (cut_head (head_end reader) w reader events more
        ≡ (ok head, v, d))
      × (whole d ≡ rest)
      × Prompt d.incoming
unfolding cut_head whole
head_here w reader events head rest p more h prompt e found =
    let there = memmem-append reader (arriving events) (codes "\r\n\r\n") p found in
    let first = memmem-append head rest (codes "\r\n\r\n") h.pos h.ends in
    let at : p + 4 ≡ length head =
      omega (arith, some_inj (sym there ∙ (ap head_end e ∙ first)), h.all) in
    let inside : p + 4 ≤ length reader =
      omega (arith, memmem_le reader (codes "\r\n\r\n") p found) in
    let t : take (p + 4) reader ≡ head =
      sym (take-append_le (p + 4) reader (arriving events) inside)
      ∙ ap (take (p + 4)) e
      ∙ rw at (take-append head rest) in
    let k : drop (p + 4) reader ++ arriving events ≡ rest =
      sym (drop-append_le (p + 4) reader (arriving events) inside)
      ∙ ap (drop (p + 4)) e
      ∙ rw at (drop-append head rest) in
    (w, input_of (drop (p + 4) reader) events, rw (found, t) refl, k, prompt)

-- Where the reader holds no head yet, it is shorter than the head that is to come.
shorter :
    (reader arrived head rest : Bytes)
    → IsHead head
    → reader ++ arrived ≡ head ++ rest
    → head_end reader ≡ none
    → ltb max_header_len (length reader) ≡ false
shorter reader arrived head rest h e lost = elim (Bool-cases (ltb max_header_len (length reader))) [
  | inr fits ↦ fits
  | inl long ↦
      let inside : length head ≤ length reader = ground (arith, h.short) in
      let front : take (length head) reader ≡ head =
        sym (take-append_le (length head) reader arrived inside)
        ∙ ap (take (length head)) e
        ∙ take-append head rest in
      let split : head ++ drop (length head) reader ≡ reader =
        ap (λ s. s ++ drop (length head) reader) (sym front)
        ∙ take-append-drop (length head) reader in
      let found = memmem-append head (drop (length head) reader) (codes "\r\n\r\n") h.pos h.ends in
      absurd (none-some (sym lost ∙ (ap head_end (sym split) ∙ found)))
]

goes_on :
    (w : Writer) (reader : Bytes) (events : List Event) (more : Taken)
    → head_end reader ≡ none
    → ltb max_header_len (length reader) ≡ false
    → w.broken ≡ false
    → cut_head (head_end reader) w reader events more ≡ more
unfolding cut_head
goes_on w reader events more lost short sound =
    ap (λ o. cut_head o w reader events more) lost ∙ rw (short, sound) refl

-- However the bytes of a head arrive, it is taken off the input, and what is left are the bytes
-- behind it.
pub read_head_lem :
    (w : Writer) (reader : Bytes) (events : List Event) (head rest : Bytes)
    → w.broken ≡ false
    → IsHead head
    → Prompt events
    → reader ++ arriving events ≡ head ++ rest
    → HeadTaken w reader events head rest
unfolding read_head arriving Prompt
read_head_lem w reader [] head rest whole_w h prompt e = elim (Option-cases (head_end reader)) [
  | inr (p, found) ↦ head_here w reader [] head rest p _ h prompt e found
  | inl lost ↦
      let first = memmem-append head rest (codes "\r\n\r\n") h.pos h.ends in
      absurd (none-some (sym lost ∙ (ap head_end (sym (append-nil reader) ∙ e) ∙ first)))
]
read_head_lem w reader (received [] ∷ events) head rest whole_w h prompt e = absurd prompt
read_head_lem w reader (received (b ∷ s) ∷ events) head rest whole_w h prompt e =
    elim (Option-cases (head_end reader)) [
      | inr (p, found) ↦
          head_here w reader (received (b ∷ s) ∷ events) head rest p _ h prompt e found
      | inl lost ↦
          let same = append_assoc reader (b ∷ s) (arriving events) in
          let short = shorter reader ((b ∷ s) ++ arriving events) head rest h e lost in
          let (v, d, ran, left, more) =
            read_head_lem (flush w) (reader ++ b ∷ s) events head rest (unfold flush in whole_w) h
              prompt (same ∙ e) in
          (v, d, goes_on w reader _ _ lost short whole_w ∙ ran, left, more)
    ]
read_head_lem w reader (failed ∷ events) head rest whole_w h prompt e = absurd prompt
read_head_lem w reader (silent ∷ events) head rest whole_w h prompt e = absurd prompt

-- Either nothing was waited for, or everything that was written has reached the transport.
abbrev pub Unblocked : Writer → List Event → Taken → Type 0
Unblocked w events (o, v, d) =
    ((v ≡ w) × (d.incoming ≡ events) × (o ≢ err timeout))
    ⊎ ((v.buffered ≡ []) × (v.flushed ≡ w.flushed ++ w.buffered))

cut_head-Unblocked :
    (o : Option ℕ) (w : Writer) (reader : Bytes) (events : List Event) (more : Taken)
    → w.broken ≡ false
    → Unblocked w events more
    → Unblocked w events (cut_head o w reader events more)
unfolding cut_head
cut_head-Unblocked (some pos) w reader events more sound u = inl (refl, refl, λ e. cc)
cut_head-Unblocked none w reader events more sound u =
    elim (Bool-cases (ltb max_header_len (length reader))) [
      | inl long ↦ rw long (inl (refl, refl, λ e. cc))
      | inr short ↦ rw short (simp sound u)
    ]

Unblocked-flush :
    (w : Writer) (before events : List Event) (t : Taken)
    → Unblocked (flush w) events t
    → Unblocked w before t
unfolding flush
Unblocked-flush w before events (o, v, d) (inl (same, _, _)) =
    inr (ap Writer.buffered same, ap Writer.flushed same)
Unblocked-flush w before events (o, v, d) (inr (empty, all)) =
    inr (empty, all ∙ append-nil (w.flushed ++ w.buffered))

flushed :
    (w : Writer) (o : Outcome Bytes) (d : Input) (before : List Event)
    → Unblocked w before (o, flush w, d)
unfolding flush
flushed w o d before = inr (refl, refl)

-- Reading a head with a sound writer, either the head stood in the reader already and nothing was
-- waited for, or everything that was written before has reached the transport.
pub read_head-flush :
    (w : Writer) (reader : Bytes) (events : List Event)
    → w.broken ≡ false
    → Unblocked w events (read_head w reader events)
unfolding read_head
read_head-flush w reader [] sound =
    cut_head-Unblocked (head_end reader) w reader [] _ sound (flushed w _ (input_of reader []) [])
read_head-flush w reader (silent ∷ events) sound =
    cut_head-Unblocked (head_end reader) w reader (silent ∷ events) _ sound
      (flushed w _ (input_of reader events) _)
read_head-flush w reader (failed ∷ events) sound =
    cut_head-Unblocked (head_end reader) w reader (failed ∷ events) _ sound
      (flushed w _ (input_of reader events) _)
read_head-flush w reader (received [] ∷ events) sound =
    cut_head-Unblocked (head_end reader) w reader (received [] ∷ events) _ sound
      (flushed w _ (input_of reader events) _)
read_head-flush w reader (received (b ∷ s) ∷ events) sound =
    let later = read_head-flush (flush w) (reader ++ b ∷ s) events (unfold flush in sound) in
    cut_head-Unblocked (head_end reader) w reader (received (b ∷ s) ∷ events) _ sound (
      Unblocked-flush w (received (b ∷ s) ∷ events) events
        (read_head (flush w) (reader ++ b ∷ s) events) later)
