-- ===== src/Body.antt =====
-- `Body::read_exact` and `Body::read_chunked` of src/body.rs, and the writer of chunks in
-- src/connection.rs, with `usize` of 64 bits. What `reserve` does to capacities is left out.
pub mod Hex
pub mod Chunks
pub mod Steps
pub mod Trip
pub mod Allowed
pub mod Bound
pub mod Tests
use mhttp.Common.{
  ℕ, zero, suc, ◌+◌, ◌-◌, ◌*◌, ◌/◌, ◌%◌, ◌^◌, Bool, true, false, ◌&&◌, Option, none, some, List, [],
  ◌∷◌, ◌++◌, Bytes, codes, ltb, leb, ◌==◌, if◌then◌else◌, length, take, drop, memchr, is_empty,
  bytes_eq, split, get_elem?,
}
use mhttp.Common
use mhttp.Common.Utf8.{is_utf8}
use mhttp.Common.Trim.{trim}
use mhttp.Input.Reads.{whole}
use mhttp.Input.{
  Event, received, failed, silent, Input, BodyError, too_large, closed, io, invalid_line,
  invalid_size, missing_crlf, no_fuel, Result, ok, err, ◌>>=◌, fill, split_to, read_line, cut_line,
}

abbrev pub usize_mod : ℕ
usize_mod = 2 ^ 64

-- A digit of `usize::from_str_radix(_, 16)`
unfoldable pub hex_value : ℕ → Option ℕ
hex_value c =
    if leb b'0' c && leb c b'9'
    then some (c - b'0')
    else if leb b'a' c && leb c b'f'
    then some (c - b'a' + 10)
    else if leb b'A' c && leb c b'F'
    then some (c - b'A' + 10)
    else none

abbrev pub checked : ℕ → Option ℕ
checked n = if ltb n usize_mod then some n else none

unfoldable pub parse_digits : ℕ → Bytes → Option ℕ
unfolding hex_value
parse_digits n [] = some n
parse_digits n (c ∷ s) = elim (hex_value c) [
  | none ↦ none
  | some d ↦ elim (checked (n * 16 + d)) [ none ↦ none | some m ↦ parse_digits m s ]
]

-- `usize::from_str_radix(s, 16)`: one `+` may stand in front of the digits
unfoldable pub from_str_radix : Bytes → Option ℕ
unfolding parse_digits
from_str_radix [] = none
from_str_radix (c ∷ []) = parse_digits 0 (c ∷ [])
from_str_radix (c ∷ d ∷ s) =
    if c == b'+' then parse_digits 0 (d ∷ s) else parse_digits 0 (c ∷ d ∷ s)

abbrev pub head_or_empty : List Bytes → Bytes
head_or_empty [] = []
head_or_empty (p ∷ ps) = p

abbrev pub number_or_err : Option ℕ → Result ℕ
number_or_err none = err invalid_size
number_or_err (some n) = ok n

-- `str::from_utf8(&size_line)…trim().split(';').next().unwrap_or("").trim()`, read as a number
unfoldable pub chunk_size_of : Bytes → Result ℕ
unfolding is_utf8 trim split from_str_radix
chunk_size_of size_line =
    if is_utf8 size_line
    then number_or_err (from_str_radix (trim (head_or_empty (split b';' (trim size_line)))))
    else err invalid_line

-- `while conn.reader.len() < n { … }` and then `conn.reader.split_to(n)`
unfoldable pub take_exact : ℕ → Input → Result (Bytes × Input)
unfolding fill
take_exact n c = do c ← fill n c.reader c.incoming; ok (split_to n c)

unfoldable pub read_exact : ℕ → ℕ → Input → Result (Bytes × Input)
unfolding take_exact
read_exact content_len max_body_size c =
    if ltb max_body_size content_len then err too_large else take_exact content_len c

unfoldable pub cut_trailer : Option ℕ → Bytes → List Event → Result Input → Result Input
cut_trailer (some pos) reader events more =
    ok (record { reader = drop (pos + 1) reader; incoming = events })
cut_trailer none reader events more = more

-- The line behind the last chunk, or the end of the stream; the bytes that were read stay.
unfoldable pub skip_line : Bytes → List Event → Result Input
unfolding memchr cut_trailer
skip_line reader [] =
    cut_trailer (memchr b'\n' reader) reader [] (ok (record { reader = reader; incoming = [] }))
skip_line reader (silent ∷ events) =
    cut_trailer (memchr b'\n' reader) reader (silent ∷ events) (skip_line reader events)
skip_line reader (failed ∷ events) =
    cut_trailer (memchr b'\n' reader) reader (failed ∷ events) (err io)
skip_line reader (received b ∷ events) =
    let rest =
      if is_empty b
      then ok (record { reader = reader; incoming = events })
      else skip_line (reader ++ b) events in
    cut_trailer (memchr b'\n' reader) reader (received b ∷ events) rest

unfoldable pub expect_crlf : Input → Result Input
unfolding take_exact bytes_eq
expect_crlf c = do
  (crlf, c) ← take_exact 2 c
  if bytes_eq crlf (codes "\r\n") then ok c else err missing_crlf

unfoldable pub last_chunk : Bytes → Input → Result (Bool × Bytes × Input)
unfolding skip_line
last_chunk body c = do c ← skip_line c.reader c.incoming; ok (true, body, c)

unfoldable pub next_chunk : ℕ → Bytes → Input → Result (Bool × Bytes × Input)
unfolding take_exact expect_crlf
next_chunk chunk_size body c = do
  (chunk, c) ← take_exact chunk_size c
  c ← expect_crlf c
  ok (false, body ++ chunk, c)

unfoldable pub read_chunk_of : ℕ → Bytes → ℕ → Input → Result (Bool × Bytes × Input)
unfolding last_chunk next_chunk
read_chunk_of max_body_size body chunk_size c =
    if chunk_size == 0
    then last_chunk body c
    else if ltb max_body_size ((length body + chunk_size) % usize_mod)
    then err too_large
    else next_chunk chunk_size body c

-- One round of the outer loop: the end of the body, or one more chunk.
unfoldable pub read_chunk : ℕ → Bytes → Input → Result (Bool × Bytes × Input)
unfolding read_line chunk_size_of read_chunk_of
read_chunk max_body_size body c = do
  (size_line, c) ← read_line c.reader c.incoming
  chunk_size ← chunk_size_of size_line
  read_chunk_of max_body_size body chunk_size c

unfoldable pub read_chunks : ℕ → ℕ → Bytes → Input → Result (Bytes × Input)
unfolding read_chunk
read_chunks zero max_body_size body c = err no_fuel
read_chunks (suc fuel) max_body_size body c = read_chunk max_body_size body c >>= λ (done, body, c).
    if done then ok (body, c) else read_chunks fuel max_body_size body c

-- Each chunk takes a byte off the input, so the number of its bytes is fuel enough.
unfoldable pub read_chunked : ℕ → Input → Result (Bytes × Input)
unfolding read_chunks whole
read_chunked max_body_size c = read_chunks (suc (length (whole c))) max_body_size [] c

-- `format_hex`: the digits are written from the right into a buffer of 16, so 16 is fuel enough
unfoldable pub hex_digit : ℕ → ℕ
hex_digit digit = if ltb digit 10 then b'0' + digit else b'a' + digit - 10

unfoldable pub hex_loop : ℕ → ℕ → Bytes → Bytes
unfolding hex_digit
hex_loop zero val buf = buf
hex_loop (suc fuel) val buf =
    let rest = hex_loop fuel (val / 16) (hex_digit (val % 16) ∷ buf) in
    if val == 0 then buf else rest

unfoldable pub format_hex : ℕ → Bytes
unfolding hex_loop
format_hex n = if n == 0 then codes "0\r\n" else hex_loop 16 n (codes "\r\n")

unfoldable pub write_chunk : Bytes → Bytes
unfolding format_hex
write_chunk bytes = (format_hex (length bytes) ++ bytes) ++ codes "\r\n"

abbrev pub write_terminating_chunk : Bytes
write_terminating_chunk = codes "0\r\n\r\n"

-- `write_body` where the header fields say `chunked`: `reads` is what the body's reader returns, in
-- order, until a read returns nothing.
unfoldable pub write_stream : List Bytes → Bytes
unfolding write_chunk
write_stream [] = write_terminating_chunk
write_stream (bytes ∷ reads) =
    let rest = write_stream reads in
    if is_empty bytes then write_terminating_chunk else write_chunk bytes ++ rest
