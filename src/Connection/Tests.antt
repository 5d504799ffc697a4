-- ===== src/Connection/Tests.antt =====
-- Requests and responses over concrete connections.
use mhttp.Common.{
  ℕ, ◌≡◌, refl, true, false, not, Bytes, codes, [], ◌∷◌, ◌++◌, none, some, if◌then◌else◌, contains,
  eq_ignore_ascii_case, arith, take, drop, memmem, starts_with,
}
use mhttp.Method
use mhttp.Method.{to_string}
use mhttp.Input.{received, silent}
use mhttp.Input.Reads.{whole, arriving}
use mhttp.FieldLines.Fields
use mhttp.FieldLines.Fields.{Fields}
use mhttp.Request.{v4}
use mhttp.Request.Lines.{request_line}
use mhttp.Request.Parsing.{request_head}
use mhttp.Request.Tests.{posted, posted-IsWritable}
use mhttp.Response.{HttpResponse, new_response, stream}
use mhttp.Connection.{Writer, Connection, new_connection, read_request}
use mhttp.Connection.Reading.{IsHead, Prompt}
use mhttp.Connection.Requests.{Sound, Asked, read_request-request_head, read_request-Sound}
use mhttp.Body.{write_chunk, format_hex, hex_loop}
use mhttp.Connection.Writing.{DateCache, write_response, call_hook, is_chunked}
use mhttp.Connection.Sent.{
  write_response-print, all_written, head_bytes, body_bytes, send_fails, fails, arrived, all_chunks,
}

abbrev asked : Bytes
asked = request_head Method.post (codes "/a") (codes "HTTP/1.1") posted

-- The head comes in three reads, with two bytes of what follows it.
abbrev in_parts : Connection
in_parts = new_connection false (
    received (take 7 asked)
    ∷ received (take 20 (drop 7 asked))
    ∷ received (drop 27 asked ++ codes "ab")
    ∷ [])

pub asked-IsHead : IsHead asked
unfolding memmem starts_with request_head request_line to_string Fields.print
asked-IsHead = record { pos = 45; ends = refl; all = refl; short = omega arith }

read_request-request_head_example :
    Asked
      (v4 1)
      20
      Method.post
      (codes "/a")
      (codes "HTTP/1.1")
      posted
      (codes "ab")
      (read_request (v4 1) 20 in_parts)
unfolding whole arriving Prompt request_head request_line to_string Fields.print new_connection
read_request-request_head_example =
    read_request-request_head (v4 1) 20 in_parts Method.post (codes "/a") (codes "HTTP/1.1") posted
      (codes "ab") refl tt posted-IsWritable asked-IsHead refl

abbrev cut_short : Connection
cut_short = new_connection false (received (codes "GET / HTTP/1.1\r\n") ∷ silent ∷ [])

read_request-Sound_example : Sound 20 (read_request (v4 1) 20 cut_short).0
unfolding new_connection
read_request-Sound_example = read_request-Sound (v4 1) 20 cut_short (omega arith) (omega arith, tt)

abbrev pending : Writer
pending = record { flushed = []; buffered = codes "HTTP/1.1 200 OK"; broken = false }

abbrev answer : HttpResponse ℕ
answer = record (new_response (codes "HTTP/1.1") (codes "id") (codes "/")) {
  body = some (stream (some (codes "hel") ∷ none ∷ []) 5 none);
  field_lines = (codes "transfer-encoding", codes "chunked") ∷ [];
  on_sent = some 7;
}

abbrev no_date : DateCache
no_date = record { secs = 0; text = [] }

-- A reader that fails behind its first read: the chunks are not ended, and no hook is called.
fails_test : send_fails answer ≡ true
unfolding fails new_response
fails_test = refl

fails_written_test : body_bytes answer ≡ codes "3\r\nhel\r\n"
unfolding new_response is_chunked Fields.get eq_ignore_ascii_case contains fails arrived all_chunks
    write_chunk format_hex hex_loop
fails_written_test = refl

write_response-print_example :
    let r = write_response (λ now. codes "today") 5 5 no_date answer cut_short in
    (r.succeeded ≡ not (send_fails answer))
    × (all_written r.connection.writer
        ≡ all_written cut_short.writer
          ++ (head_bytes 5 r.cache cut_short answer ++ body_bytes answer))
    × (send_fails answer ≡ false → cut_short.input.reader ≡ [] → r.connection.writer.buffered ≡ [])
    × (r.hook ≡ (if send_fails answer then none else call_hook answer))
    × (r.connection.input ≡ cut_short.input)
unfolding new_connection
write_response-print_example =
    write_response-print (λ now. codes "today") 5 5 no_date answer cut_short refl
