-- ===== src/Connection.antt =====
-- `Connection` of src/connection.rs: requests are read from the input, responses go to the writer.
-- The transport and its `BufWriter` are not part of the source: the writer holds the bytes that have
-- reached the transport and those that wait for a flush, and a transport that is broken shows when it
-- is flushed. What `reserve` does to capacities is left out.
pub mod Reading
pub mod Requests
pub mod Sent
pub mod Writing
pub mod Tests
use mhttp.Common.{
  ℕ, ◌+◌, ◌*◌, Bool, true, false, ◌&&◌, Option, none, some, List, [], ◌∷◌, ◌++◌, Bytes, codes, ltb,
  if◌then◌else◌, length, take, drop, is_empty, memmem,
}
use mhttp.Input.{Event, received, failed, silent, Input}
use mhttp.Request.{
  Outcome, ok, err, panic, io, timeout, headers_too_large, header_parsing_failed, HttpRequest,
  IpAddr, parse,
}

-- `BufWriter<Transport>`
pub record Writer : Type 0 where
  pub flushed : Bytes
  pub buffered : Bytes
  pub broken : Bool

pub record Connection : Type 0 where
  pub writer : Writer
  pub input : Input
  pub has_written_response : Bool
  pub keep_alive : Bool
  pub keep_alive_timeout_secs : ℕ

-- What `flush` leaves, where the transport is not broken
unfoldable pub flush : Writer → Writer
flush w = record w { flushed = w.flushed ++ w.buffered; buffered = [] }

unfoldable pub write_all : Bytes → Writer → Writer
write_all s w = record w { buffered = w.buffered ++ s }

unfoldable pub new_connection : Bool → List Event → Connection
new_connection broken events = record {
  writer = record { flushed = []; buffered = []; broken = broken };
  input = record { reader = []; incoming = events };
  has_written_response = false;
  keep_alive = true;
  keep_alive_timeout_secs = 75;
}

unfoldable pub set_keep_alive : Bool → ℕ → Connection → Connection
set_keep_alive keep_alive timeout_secs c = record c {
  keep_alive = keep_alive;
  keep_alive_timeout_secs = timeout_secs;
}

-- What a read of the connection gives, and what is left of the writer and of the input
abbrev pub Taken : Type 0
Taken = Outcome Bytes × Writer × Input

abbrev pub input_of : Bytes → List Event → Input
input_of reader events = record { reader = reader; incoming = events }

abbrev pub max_header_len : ℕ
max_header_len = 64 * 1024

-- One round of the loop: the head is cut off where it ends; otherwise, unless there is too much
-- already, the writer is flushed, and `more` is what the read gives.
unfoldable pub cut_head : Option ℕ → Writer → Bytes → List Event → Taken → Taken
cut_head (some pos) w reader events more =
    (ok (take (pos + 4) reader), w, input_of (drop (pos + 4) reader) events)
cut_head none w reader events more =
    if ltb max_header_len (length reader)
    then (err headers_too_large, w, input_of reader events)
    else if w.broken
    then (err io, w, input_of reader events)
    else more

abbrev pub head_end : Bytes → Option ℕ
head_end reader = memmem reader (codes "\r\n\r\n")

-- The loop of `read_request`, up to the head of the request
unfoldable pub read_head : Writer → Bytes → List Event → Taken
unfolding cut_head memmem flush
read_head w reader [] =
    cut_head (head_end reader) w reader [] (err header_parsing_failed, flush w, input_of reader [])
read_head w reader (silent ∷ events) =
    cut_head (head_end reader) w reader (silent ∷ events)
      (err timeout, flush w, input_of reader events)
read_head w reader (failed ∷ events) =
    cut_head (head_end reader) w reader (failed ∷ events) (err io, flush w, input_of reader events)
read_head w reader (received b ∷ events) =
    let rest =
      if is_empty b
      then (err header_parsing_failed, flush w, input_of reader events)
      else read_head (flush w) (reader ++ b) events in
    cut_head (head_end reader) w reader (received b ∷ events) rest

-- The read that waits for the first byte, where nothing is there yet: `none` is the end of the
-- connection.
unfoldable pub first_read : Writer → Bytes → List Event → Outcome (Option Input) × Writer
unfolding flush
first_read w (c ∷ reader) events = (ok (some (input_of (c ∷ reader) events)), w)
first_read w [] events = if w.broken then (err io, w) else (
  elim events [
    | [] ↦ ok none
    | e ∷ events ↦ elim e [
      | silent ↦ ok none
      | failed ↦ err io
      | received b ↦ if is_empty b then ok none else ok (some (input_of b events))
    ]
  ],
  flush w,
)

abbrev pub some_request : Outcome HttpRequest → Outcome (Option HttpRequest)
some_request (ok r) = ok (some r)
some_request (err e) = err e
some_request panic = panic

abbrev pub parse_head : IpAddr → ℕ → Outcome Bytes → Outcome (Option HttpRequest)
parse_head peer max_body_size (ok header_bytes) =
    some_request (parse header_bytes peer max_body_size)
parse_head peer max_body_size (err e) = err e
parse_head peer max_body_size panic = panic

abbrev with_head : IpAddr → ℕ → Connection → Taken → Outcome (Option HttpRequest) × Connection
with_head peer max_body_size c (o, w, i) =
    (parse_head peer max_body_size o, record c { writer = w; input = i })

abbrev pub after_first :
    IpAddr
    → ℕ
    → Connection
    → Outcome (Option Input) × Writer
    → Outcome (Option HttpRequest) × Connection
after_first peer max_body_size c (ok (some i), w) =
    with_head peer max_body_size c (read_head w i.reader i.incoming)
after_first peer max_body_size c (ok none, w) = (ok none, record c { writer = w })
after_first peer max_body_size c (err e, w) = (err e, record c { writer = w })
after_first peer max_body_size c (panic, w) = (panic, record c { writer = w })

unfoldable pub read_request : IpAddr → ℕ → Connection → Outcome (Option HttpRequest) × Connection
unfolding first_read read_head parse
read_request peer max_body_size c =
    after_first peer max_body_size (record c { has_written_response = false })
      (first_read c.writer c.input.reader c.input.incoming)
