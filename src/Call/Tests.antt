-- ===== src/Call/Tests.antt =====
-- Calls on concrete connections.
use mhttp.Common.{ℕ, ◌≡◌, refl, Bool, true, false, codes, List, [], ◌∷◌, arith}
use mhttp.Method
use mhttp.Input.{Event, received, ok}
use mhttp.Input.Reads.{whole, arriving, Flows}
use mhttp.Body.{write_stream, write_chunk, format_hex, hex_loop, hex_digit}
use mhttp.Request.{unread, make_request, v4}
use mhttp.Response.{bytes}
use mhttp.Connection.{new_connection}
use mhttp.Connection.Reading.{Prompt}
use mhttp.Call.{HttpCall, new_call, header, body, finish}
use mhttp.Call.Drain.{KeptAt, finish-KeptAt}
use mhttp.Call.Bodies.{Holds, body-Holds, body-chunked}

-- A call whose body is not read yet
abbrev call_of : Bool → List Event → HttpCall ℕ
call_of chunked events =
    let request = make_request (Method.post, codes "/", codes "HTTP/1.1") [] (v4 1) 100 in
    new_call (new_connection false events) (record request { body_state = unread 5 chunked })
      (codes "id")

abbrev two_reads : List Event
two_reads = received (codes "hel") ∷ received (codes "loGET") ∷ []

finish-KeptAt_example : KeptAt (codes "GET") (finish (call_of false two_reads) true)
unfolding new_call new_connection make_request whole arriving Prompt
finish-KeptAt_example =
    finish-KeptAt (call_of false two_reads) (codes "hello") (codes "GET") refl tt refl refl

body-Holds_example :
    let b = bytes (codes "hello") (header (codes "content-type") (call_of false two_reads)) in
    (after : HttpCall ℕ) × (body (call_of false two_reads) ≡ ok (b, after))
    × Holds b (codes "GET") after
unfolding new_call new_connection make_request whole arriving Flows
body-Holds_example =
    body-Holds (call_of false two_reads) (codes "hello") (codes "GET") tt (omega arith) refl refl

abbrev in_chunks : List Event
in_chunks = received (codes "3\r\nhel\r\n2\r") ∷ received (codes "\nlo\r\n0\r\n\r\nGET") ∷ []

body-chunked_example :
    let b = bytes (codes "hello") (header (codes "content-type") (call_of true in_chunks)) in
    (after : HttpCall ℕ) × (body (call_of true in_chunks) ≡ ok (b, after))
    × Holds b (codes "GET") after
unfolding new_call new_connection make_request whole arriving Flows write_stream write_chunk
    format_hex hex_loop hex_digit
body-chunked_example =
    body-chunked (call_of true in_chunks) 5 (codes "hel" ∷ codes "lo" ∷ []) (codes "GET")
      (omega arith) tt (omega arith) (omega arith) refl refl
