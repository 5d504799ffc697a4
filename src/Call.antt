-- ===== src/Call.antt =====
-- `HttpCall` of src/server.rs: a request on its connection. A body is read once, on demand, and what
-- is left unread of it is thrown away before the next request. The identifier of the request is text.
-- The connection that a failed read of a body leaves is not modelled.
pub mod Drain
pub mod Bodies
pub mod Extras
pub mod Tests
use mhttp.Common.{
  ℕ, ◌+◌, ◌-◌, Bool, true, false, ◌&&◌, not, Option, none, some, List, [], ◌∷◌, ◌++◌, Bytes, codes,
  ◌==◌, ltb, if◌then◌else◌, length, drop, is_empty, bytes_eq, eq_ignore_ascii_case,
  make_ascii_lowercase,
}
use Prim.Native.Nat.{min}
use mathlib.Core.Option
use mhttp.Common.Trim.{trim}
use mhttp.Common.HashMap
use mhttp.FieldLines.Fields
use mhttp.Input.{Event, received, failed, silent, Input, Result}
use mhttp.Input
use mhttp.Input.{◌>>=◌}
use mhttp.Body.{read_exact, read_chunked}
use mhttp.Response.{HttpResponse, Body, bytes, new_response, set_on_sent, suppress}
use mhttp.Request.{HttpRequest, BodyState, unread, reading, read}
use mhttp.Connection.{Writer, Connection, flush, write_all, input_of}

-- `H` is the type of the hooks.
pub record HttpCall (H : Type 0) : Type 0 where
  pub connection : Connection
  pub request : HttpRequest
  pub extras : List (Bytes × Bytes)
  pub request_id : Bytes
  pub response_hook : Option H
  pub suppress_body : Bool

-- Whether the unread bytes could be dropped, and what is left of the writer and of the input
abbrev pub Drained : Type 0
Drained = Bool × Writer × Input

-- One round of the loop of `discard_unread_body`: the bytes at hand are dropped, up to `remaining`.
-- If more are needed, the writer is flushed, and `more` is what the read gives.
unfoldable pub drop_at_hand : ℕ → Writer → Bytes → List Event → Drained → Drained
drop_at_hand remaining w reader events more =
    if remaining - min remaining (length reader) == 0
    then (true, w, input_of (drop (min remaining (length reader)) reader) events)
    else if w.broken
    then (false, w, input_of (drop (min remaining (length reader)) reader) events)
    else more

-- The loop, with the five seconds that a read may take
unfoldable pub drain : ℕ → Writer → Bytes → List Event → Drained
unfolding drop_at_hand flush
drain remaining w reader [] =
    drop_at_hand remaining w reader []
      (false, flush w, input_of (drop (min remaining (length reader)) reader) [])
drain remaining w reader (silent ∷ events) =
    drop_at_hand remaining w reader (silent ∷ events)
      (false, flush w, input_of (drop (min remaining (length reader)) reader) events)
drain remaining w reader (failed ∷ events) =
    drop_at_hand remaining w reader (failed ∷ events)
      (false, flush w, input_of (drop (min remaining (length reader)) reader) events)
drain remaining w reader (received b ∷ events) =
    let take = min remaining (length reader) in
    let rest =
      if is_empty b
      then (false, flush w, input_of (drop take reader) events)
      else drain (remaining - take) (flush w) (drop take reader ++ b) events in
    drop_at_hand remaining w reader (received b ∷ events) rest

-- What `finish` gives: the connection for the next request, or the connection that is shut down
pub data Finished : Type 0 where
  kept : Connection → Finished
  closed : Connection → Finished

abbrev pub content_continue : Bytes
content_continue = codes "HTTP/1.1 100 Continue\r\n\r\n"

abbrev pub expects_continue : Option Bytes → Bool
expects_continue none = false
expects_continue (some v) = eq_ignore_ascii_case v (codes "100-continue")

abbrev pub read_bytes : Bool → ℕ → ℕ → Input → Result (Bytes × Input)
read_bytes true content_length max_body_size i = read_chunked max_body_size i
read_bytes false content_length max_body_size i = read_exact content_length max_body_size i

unfoldable pub shutdown : Connection → Connection
unfolding flush
shutdown c = if c.writer.broken then c else record c { writer = flush c.writer }

abbrev pub key_of : Bytes → Bytes
key_of key = trim (make_ascii_lowercase key)

abbrev pub joined : Bytes → Option Bytes → Bytes
joined value none = value
joined value (some old) = old ++ (codes ", " ++ value)

unfoldable pub first_param : Bytes → List (Bytes × Bytes) → Option Bytes
unfolding bytes_eq
first_param name [] = none
first_param name ((k, v) ∷ ps) =
    let rest = first_param name ps in if bytes_eq k name then some v else rest

module _ {H : Type 0} where
  -- `parse`, with a request that was read
  unfoldable pub new_call : Connection → HttpRequest → Bytes → HttpCall H
  new_call connection request request_id = record {
    connection = connection;
    request = request;
    extras = [];
    request_id = request_id;
    response_hook = none;
    suppress_body = false;
  }

  abbrev pub with_connection : Connection → HttpCall H → HttpCall H
  with_connection c call = record call { connection = c }

  abbrev pub with_body_state : BodyState → HttpCall H → HttpCall H
  with_body_state s call =
      let request : HttpRequest = record call.request { body_state = s } in
      record call { request = request }

  abbrev pub with_input : Writer → Input → HttpCall H → HttpCall H
  with_input w i call =
      let connection : Connection = record call.connection { writer = w; input = i } in
      record call { connection = connection }

  unfoldable pub header : Bytes → HttpCall H → Option Bytes
  unfolding Fields.get
  header name call = Fields.get call.request.field_lines name

  -- The interim response that a client may wait for; whether it could be sent is ignored.
  unfoldable pub send_continue : HttpCall H → Writer
  unfolding header write_all flush
  send_continue call =
      let w = call.connection.writer in
      let written = write_all content_continue w in
      if expects_continue (header (codes "expect") call)
      then (if w.broken then written else flush written)
      else w

  abbrev body_of : BodyState → HttpCall H → Result (Body × HttpCall H)
  body_of (read b) call = Input.ok (b, call)
  body_of reading call = Input.err Input.already_read
  body_of (unread content_length is_chunked) call =
      let w = send_continue call in
      read_bytes is_chunked content_length call.request.max_body_size call.connection.input
      >>= λ (s, i).
          let b = bytes s (header (codes "content-type") call) in
          Input.ok (b, with_body_state (read b) (with_input w i call))

  -- `HttpCall::body`; the connection behind an error is left out
  unfoldable pub body : HttpCall H → Result (Body × HttpCall H)
  unfolding send_continue header read_exact read_chunked
  body call = body_of call.request.body_state call

  abbrev discard_of : BodyState → HttpCall H → Bool × HttpCall H
  discard_of (unread content_length is_chunked) call =
      if content_length == 0 && not is_chunked
      then (true, call)
      else if is_chunked
      then (false, call)
      else (let (done, w, i) =
            drain content_length call.connection.writer call.connection.input.reader
              call.connection.input.incoming in
          (done, with_input w i call))
  discard_of _ call = (true, call)

  -- `discard_unread_body`, with `false` for an error
  unfoldable pub discard_unread_body : HttpCall H → Bool × HttpCall H
  unfolding drain
  discard_unread_body call = discard_of call.request.body_state (with_body_state reading call)

  abbrev finished : Bool → HttpCall H → Finished
  finished true call = kept call.connection
  finished false call = closed (shutdown call.connection)

  -- `HttpServer::finish`
  unfoldable pub finish : HttpCall H → Bool → Finished
  unfolding discard_unread_body shutdown
  finish call keep_alive =
      let (drained, after) = discard_unread_body call in
      if keep_alive then finished drained after else finished false call

  unfoldable pub set_extras : Bytes → Bytes → HttpCall H → HttpCall H
  unfolding trim HashMap.lookup HashMap.insert
  set_extras key value call = record call {
    extras =
        HashMap.insert (key_of key) (joined value (HashMap.lookup (key_of key) call.extras))
          call.extras;
  }

  unfoldable pub get_extras : Bytes → HttpCall H → Option Bytes
  unfolding HashMap.lookup
  get_extras key call = HashMap.lookup key call.extras

  unfoldable pub remove_extras : Bytes → HttpCall H → Option Bytes × HttpCall H
  unfolding HashMap.lookup HashMap.remove
  remove_extras key call =
      (HashMap.lookup key call.extras, record call { extras = HashMap.remove key call.extras })

  unfoldable pub path_param : Bytes → HttpCall H → Option Bytes
  unfolding first_param
  path_param name call = first_param name call.request.path_params

  abbrev with_hook : Option H → HttpResponse H → HttpResponse H
  with_hook none r = r
  with_hook (some hook) r = set_on_sent hook r

  -- `response`: the hook moves from the call into the response.
  unfoldable pub response : HttpCall H → HttpResponse H × HttpCall H
  unfolding new_response set_on_sent suppress
  response call =
      let r =
        with_hook call.response_hook
          (new_response call.request.http_version call.request_id call.request.route) in
      (if call.suppress_body then suppress r else r, record call { response_hook = none })
