-- ===== src/Body/Trip.antt =====
-- Chunks that `Connection::write_body` (src/connection.rs) writes are read back by
-- `Body::read_chunked` (src/body.rs), however the transport cuts them.
use mhttp.Common.{
  ℕ, zero, suc, ◌+◌, ◌%◌, ◌≤◌, ◌<◌, ◌≡◌, ◌≢◌, refl, ◌∙◌, ap, Bool, true, false, List, [], ◌∷◌, ◌++◌,
  Bytes, codes, ◌==◌, length, arith, All, ltb, lt→ltb, append_assoc, append-nil, length-append,
  Lacks, All-append,
}
use mhttp.Input.{too_large, Input, ok, err, read_line}
use mhttp.Input.Reads.{whole, Flows}
use mhttp.Body.{
  read_exact, usize_mod, chunk_size_of, format_hex, last_chunk, next_chunk, read_chunk_of,
  read_chunk, read_chunks, read_chunked, write_chunk, write_stream,
}
use mhttp.Body.Hex.{format_hex_digits}
use mhttp.Body.Chunks.{size_lem, All-Plain-Lacks}
use mhttp.Body.Steps.{take_exact_lem, line_lem, next_chunk_lem, last_chunk_lem}

abbrev pub Room : ℕ → Bytes → Bytes → Type 0
Room max body bytes = (length body + length bytes ≤ max) × (length body + length bytes < usize_mod)

-- Only a chunk that fits is read.
read_chunk_of_lem :
    (max : ℕ) (body bytes : Bytes) (d : Input)
    → length bytes ≢ 0
    → Room max body bytes
    → read_chunk_of max body (length bytes) d ≡ next_chunk (length bytes) body d
unfolding read_chunk_of
read_chunk_of_lem max body bytes d nonzero (fits, small) =
    let zero_test : (length bytes == 0) ≡ false = ground arith in
    let size_test : ltb max ((length body + length bytes) % usize_mod) ≡ false = ground arith in
    rw (zero_test, size_test) refl

one_chunk :
    (max : ℕ) (body : Bytes) (c d : Input) {line : Bytes} (n : ℕ) (out : Bool × Bytes × Input)
    → read_line c.reader c.incoming ≡ ok (line, d)
    → chunk_size_of line ≡ ok n
    → read_chunk_of max body n d ≡ ok out
    → read_chunk max body c ≡ ok out
unfolding read_chunk
one_chunk max body c d n out ran size step = rw (ran, size) step

chunk_text :
    (digits bytes rest : Bytes)
    → ((digits ++ codes "\r\n") ++ bytes ++ codes "\r\n") ++ rest
      ≡ (digits ++ codes "\r") ++ b'\n' ∷ (bytes ++ (codes "\r\n" ++ rest))
chunk_text digits bytes rest =
    rw
      (
        append_assoc digits (codes "\r\n") bytes,
        append_assoc digits (b'\r' ∷ b'\n' ∷ bytes) (codes "\r\n"),
        append_assoc digits (b'\r' ∷ b'\n' ∷ (bytes ++ codes "\r\n")) rest,
        append_assoc bytes (codes "\r\n") rest,
        append_assoc digits (codes "\r") (b'\n' ∷ (bytes ++ (codes "\r\n" ++ rest))),
      )
      refl

read_chunk_lem :
    (max : ℕ) (c : Input) (body bytes rest : Bytes)
    → Flows c.incoming
    → length bytes ≢ 0
    → Room max body bytes
    → whole c ≡ write_chunk bytes ++ rest
    → (d : Input) × (read_chunk max body c ≡ ok (false, body ++ bytes, d))
      × (whole d ≡ rest)
      × Flows d.incoming
unfolding write_chunk
read_chunk_lem max c body bytes rest flows nonzero room e =
    let n = length bytes in
    let (digits, printed, plain, parsed) = format_hex_digits n nonzero (omega (arith, room.1)) in
    let lacks : Lacks b'\n' (digits ++ codes "\r") =
      All-append _ digits (codes "\r")
        (All-Plain-Lacks b'\n' (λ b p. omega (arith, p.0)) digits plain) (omega arith, tt) in
    let text : whole c ≡ (digits ++ codes "\r") ++ b'\n' ∷ (bytes ++ (codes "\r\n" ++ rest)) =
      e ∙ ap (λ h. (h ++ bytes ++ codes "\r\n") ++ rest) printed ∙ chunk_text digits bytes rest in
    let (d, ran, left, f) =
      line_lem c (digits ++ codes "\r") (bytes ++ (codes "\r\n" ++ rest)) flows lacks text in
    let line : (digits ++ codes "\r") ++ b'\n' ∷ [] ≡ digits ++ codes "\r\n" =
      append_assoc digits (codes "\r") (codes "\n") in
    let size : chunk_size_of ((digits ++ codes "\r") ++ b'\n' ∷ []) ≡ ok n =
      rw line (size_lem digits n plain nonzero parsed) in
    let (d', ran', left', f') = next_chunk_lem d body bytes rest f left in
    (
      d',
      one_chunk max body c d n (false, body ++ bytes, d') ran size
          (read_chunk_of_lem max body bytes d nonzero room ∙ ran'),
      left',
      f',
    )

abbrev pub join : List Bytes → Bytes
join [] = []
join (s ∷ ss) = s ++ join ss

length-join :
    (bytes : Bytes) (reads : List Bytes)
    → length (join (bytes ∷ reads)) ≡ length bytes + length (join reads)
length-join bytes reads = length-append bytes (join reads)

zero_line : (max : ℕ) (body : Bytes) (c : Input) → read_chunk_of max body 0 c ≡ last_chunk body c
unfolding read_chunk_of
zero_line max body c = refl

zero_size : chunk_size_of (codes "0\r\n") ≡ ok 0
unfolding chunk_size_of
zero_size = refl

write_more :
    (bytes : Bytes) (reads : List Bytes)
    → length bytes ≢ 0
    → write_stream (bytes ∷ reads) ≡ write_chunk bytes ++ write_stream reads
unfolding write_stream
write_more [] reads h = absurd (h refl)
write_more (b ∷ s) reads h = refl

pub read_chunks_lem :
    (reads : List Bytes) (fuel max : ℕ) (body rest : Bytes) (c : Input)
    → All (λ s. length s ≢ 0) reads
    → Flows c.incoming
    → whole c ≡ write_stream reads ++ rest
    → length body + length (join reads) ≤ max
    → length body + length (join reads) < usize_mod
    → length reads < fuel
    → (d : Input) × (read_chunks fuel max body c ≡ ok (body ++ join reads, d))
      × (whole d ≡ rest)
      × Flows d.incoming
unfolding read_chunks write_stream
read_chunks_lem reads zero max body rest c full flows e fits small enough = absurd (omega arith)
read_chunks_lem [] (suc fuel) max body rest c full flows e fits small enough =
    let (d, ran, left, f) =
      line_lem c (codes "0\r") (codes "\r\n" ++ rest) flows (omega arith, (omega arith, tt)) e in
    let (d', ran', left', f') = last_chunk_lem d body rest f left in
    (
      d',
      rw
          (
            one_chunk max body c d 0 (true, body, d') ran zero_size (zero_line max body d ∙ ran'),
            append-nil body,
          )
          refl,
      left',
      f',
    )
read_chunks_lem (bytes ∷ reads) (suc fuel) max body rest c (nonzero, full) flows e fits small
      enough =
    let size = length-join bytes reads in
    let text : whole c ≡ write_chunk bytes ++ (write_stream reads ++ rest) =
      e
      ∙ ap (λ t. t ++ rest) (write_more bytes reads nonzero)
      ∙ append_assoc (write_chunk bytes) (write_stream reads) rest in
    let (d, ran, left, f) =
      read_chunk_lem max c body bytes (write_stream reads ++ rest) flows nonzero
        (omega arith, omega arith) text in
    let grown = length-append body bytes in
    let (d', ran', left', f') =
      read_chunks_lem reads fuel max (body ++ bytes) rest d full f left (omega arith) (omega arith)
        (omega arith) in
    (d', rw (ran, ran', append_assoc body bytes (join reads)) refl, left', f')

count_le : (reads : List Bytes) → All (λ s. length s ≢ 0) reads → length reads ≤ length (join reads)
count_le [] h = omega arith
count_le (bytes ∷ reads) (h, hs) = omega (arith, count_le reads hs, length-join bytes reads)

written_le :
    (reads : List Bytes)
    → All (λ s. length s ≢ 0) reads
    → length reads ≤ length (write_stream reads)
unfolding write_stream write_chunk
written_le [] h = omega arith
written_le (bytes ∷ reads) (nonzero, h) =
    let more = ap length (write_more bytes reads nonzero) in
    let chunk = length-append (write_chunk bytes) (write_stream reads) in
    let ends = length-append (format_hex (length bytes) ++ bytes) (codes "\r\n") in
    omega (arith, written_le reads h)

-- A body that is written in chunks, one for each non-empty read of its stream, is read back as the
-- bytes of the reads joined, and what follows it is left on the connection, wherever the transport
-- cuts the bytes into reads, if the body is no longer than the limit and shorter than 2^64.
pub read_chunked-write_stream :
    (reads : List Bytes) (max : ℕ) (rest : Bytes) (c : Input)
    → All (λ s. length s ≢ 0) reads
    → Flows c.incoming
    → whole c ≡ write_stream reads ++ rest
    → length (join reads) ≤ max
    → length (join reads) < usize_mod
    → (d : Input) × (read_chunked max c ≡ ok (join reads, d)) × (whole d ≡ rest) × Flows d.incoming
unfolding read_chunked
read_chunked-write_stream reads max rest c full flows e fits small =
    let size = ap length e in
    let parts = length-append (write_stream reads) rest in
    read_chunks_lem reads (suc (length (whole c))) max [] rest c full flows e (omega arith)
      (omega arith) (omega (arith, written_le reads full))

-- A body of known length that is within the limit is taken off the connection exactly, wherever the
-- transport cuts it into reads, and what follows it is left; a longer one is refused with the
-- connection as it was.
pub read_exact_lem :
    (s rest : Bytes) (max : ℕ) (c : Input)
    → Flows c.incoming
    → whole c ≡ s ++ rest
    → (length s ≤ max
        → (d : Input) × (read_exact (length s) max c ≡ ok (s, d))
          × (whole d ≡ rest)
          × Flows d.incoming)
      × (max < length s → read_exact (length s) max c ≡ err too_large)
unfolding read_exact
read_exact_lem s rest max c flows e = (
  λ fits.
      let (d, ran, left, f) = take_exact_lem c s rest flows e in
      let test : ltb max (length s) ≡ false = ground arith in (d, rw test ran, left, f),
  λ long. rw (lt→ltb max (length s) long) refl,
)
