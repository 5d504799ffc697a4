-- ===== src/Body/Tests.antt =====
-- Bodies that are written and read back (src/body.rs, src/connection.rs).
use mhttp.Common.{◌≡◌, ◌≢◌, ◌≤◌, refl, List, [], ◌∷◌, Bytes, codes, arith, length}
use mhttp.Input.{received, silent, Input, ok, err, invalid_size, no_fuel}
use mhttp.Input.Reads.{whole, Flows}
use mhttp.Body.{format_hex, chunk_size_of, write_chunk, write_stream, read_chunked}
use mhttp.Body.Trip.{read_chunked-write_stream}
use mhttp.Body.Bound.{read_chunked-Allowed}

format_hex_test : format_hex 2748 ≡ codes "abc\r\n"
unfolding format_hex
format_hex_test = refl

extension_test : chunk_size_of (codes " 1F ; name=value\r\n") ≡ ok 31
unfolding chunk_size_of
extension_test = refl

minus_test : chunk_size_of (codes "-1\r\n") ≡ err invalid_size
unfolding chunk_size_of
minus_test = refl

-- An empty chunk is written as the end of the body.
empty_chunk_test : write_chunk [] ≡ codes "0\r\n\r\n"
unfolding write_chunk
empty_chunk_test = refl

abbrev two_parts : List Bytes
two_parts = codes "hello" ∷ codes ", world" ∷ []

abbrev cut_anywhere : Input
cut_anywhere = record {
  reader = codes "5\r";
  incoming =
      received (codes "\nhel")
      ∷ silent
      ∷ received (codes "lo\r\n7\r\n, world\r\n0\r\n\r\nGET")
      ∷ [];
}

read_chunked-write_stream_example :
    (d : Input) × (read_chunked 12 cut_anywhere ≡ ok (codes "hello, world", d))
    × (whole d ≡ codes "GET")
    × Flows d.incoming
unfolding whole Flows write_stream
read_chunked-write_stream_example =
    read_chunked-write_stream two_parts 12 (codes "GET") cut_anywhere
      (λ e. absurd (omega arith), (λ e. absurd (omega arith), tt)) tt refl (omega arith)
      (omega arith)

read_chunked-Allowed_example :
    (read_chunked 12 cut_anywhere ≢ err no_fuel)
    × ((b : Bytes) (d : Input) → read_chunked 12 cut_anywhere ≡ ok (b, d) → length b ≤ 12)
unfolding whole
read_chunked-Allowed_example = read_chunked-Allowed 12 cut_anywhere (omega arith)

abbrev in_two : Input
in_two = record { reader = codes "ab"; incoming = received (codes "cdX") ∷ [] }
