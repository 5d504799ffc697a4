-- ===== src/Body/Steps.antt =====
-- What each step of reading a body takes off the input (src/body.rs).
use mhttp.Common.{
  ℕ, ◌≡◌, refl, true, false, Option, none, some, List, [], ◌∷◌, ◌++◌, Bytes, codes, length, arith,
  Lacks, drop, memchr,
}
use mhttp.Input.{
  Event, received, failed, silent, closed, io, Input, Result, ok, err, read_line, cut_line,
}
use mhttp.Input.Reads.{whole, Flows, take_lem, read_line_lem}
use mhttp.Body.{take_exact, expect_crlf, last_chunk, next_chunk, skip_line, cut_trailer}

-- Where a line can be read, the line behind the last chunk is skipped likewise.
pub cut_both :
    (o : Option ℕ) (reader : Bytes) (events : List Event) (l : Bytes) (d : Input)
    (more : Result (Bytes × Input)) (skip : Result Input)
    → (more ≡ ok (l, d) → skip ≡ ok d)
    → cut_line o reader events more ≡ ok (l, d)
    → cut_trailer o reader events skip ≡ ok d
unfolding cut_line cut_trailer
cut_both (some p) reader events l d more skip f e = cc
cut_both none reader events l d more skip f e = f e

pub skip-read_line :
    (reader : Bytes) (events : List Event) (l : Bytes) (d : Input)
    → read_line reader events ≡ ok (l, d)
    → skip_line reader events ≡ ok d
unfolding read_line skip_line
skip-read_line reader [] l d =
    cut_both (memchr b'\n' reader) reader [] l d (err closed) _ (λ e. absurd (cc))
skip-read_line reader (silent ∷ events) l d =
    cut_both (memchr b'\n' reader) reader (silent ∷ events) l d (read_line reader events)
      (skip_line reader events) (skip-read_line reader events l d)
skip-read_line reader (failed ∷ events) l d =
    cut_both (memchr b'\n' reader) reader (failed ∷ events) l d (err io) (err io) (λ e. absurd (cc))
skip-read_line reader (received [] ∷ events) l d =
    cut_both (memchr b'\n' reader) reader (received [] ∷ events) l d (err closed) _
      (λ e. absurd (cc))
skip-read_line reader (received (b ∷ s) ∷ events) l d =
    cut_both (memchr b'\n' reader) reader (received (b ∷ s) ∷ events) l d
      (read_line (reader ++ b ∷ s) events) (skip_line (reader ++ b ∷ s) events)
      (skip-read_line (reader ++ b ∷ s) events l d)

-- A step took its part off the input.
abbrev pub Took {ℓ} : {A : Type ℓ} → Result (A × Input) → A → Bytes → Type ℓ
Took r a rest = (d : Input) × (r ≡ ok (a, d)) × (whole d ≡ rest) × Flows d.incoming

pub take_exact_lem :
    (c : Input) (s rest : Bytes)
    → Flows c.incoming
    → whole c ≡ s ++ rest
    → Took (take_exact (length s) c) s rest
unfolding take_exact
take_exact_lem c s rest flows e =
    let (d, ran, taken, left, f) = take_lem (length s) c flows s rest e refl in
    (
      record { reader = drop (length s) d.reader; incoming = d.incoming },
      rw (ran, taken) refl,
      left,
      f,
    )

pub line_lem :
    (c : Input) (line rest : Bytes)
    → Flows c.incoming
    → Lacks b'\n' line
    → whole c ≡ line ++ b'\n' ∷ rest
    → Took (read_line c.reader c.incoming) (line ++ b'\n' ∷ []) rest
unfolding whole
line_lem c line rest flows lacks e = read_line_lem c.reader c.incoming line rest flows lacks e

pub expect_crlf_lem :
    (c : Input) (rest : Bytes)
    → Flows c.incoming
    → whole c ≡ codes "\r\n" ++ rest
    → (d : Input) × (expect_crlf c ≡ ok d) × (whole d ≡ rest) × Flows d.incoming
unfolding expect_crlf
expect_crlf_lem c rest flows e =
    let (d, ran, left, f) = take_exact_lem c (codes "\r\n") rest flows e in
    (d, rw ran refl, left, f)

pub next_chunk_lem :
    (c : Input) (body bytes rest : Bytes)
    → Flows c.incoming
    → whole c ≡ bytes ++ (codes "\r\n" ++ rest)
    → (d : Input) × (next_chunk (length bytes) body c ≡ ok (false, body ++ bytes, d))
      × (whole d ≡ rest)
      × Flows d.incoming
unfolding next_chunk
next_chunk_lem c body bytes rest flows e =
    let (d, ran, left, f) = take_exact_lem c bytes (codes "\r\n" ++ rest) flows e in
    let (d', ran', left', f') = expect_crlf_lem d rest f left in
    (d', rw (ran, ran') refl, left', f')

pub last_chunk_lem :
    (c : Input) (body rest : Bytes)
    → Flows c.incoming
    → whole c ≡ codes "\r\n" ++ rest
    → (d : Input) × (last_chunk body c ≡ ok (true, body, d)) × (whole d ≡ rest) × Flows d.incoming
unfolding last_chunk
last_chunk_lem c body rest flows e =
    let (d, ran, left, f) = line_lem c (codes "\r") rest flows (omega arith, tt) e in
    (d, rw (skip-read_line c.reader c.incoming (codes "\r\n") d ran) refl, left, f)
