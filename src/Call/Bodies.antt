-- ===== src/Call/Bodies.antt =====
-- What `HttpCall::body` of src/server.rs gives, and that it gives it again.
use mhttp.Common.{
  ℕ, ◌≤◌, ◌<◌, ◌≡◌, ◌≢◌, All, refl, Bool, true, false, List, ◌++◌, Bytes, codes, length,
}
use mhttp.Input.{Input, ok}
use mhttp.Input.Reads.{whole, Flows}
use mhttp.Body.{usize_mod, write_stream}
use mhttp.Body.Trip.{read_exact_lem, read_chunked-write_stream, join}
use mhttp.Response.{Body, bytes}
use mhttp.Request.{unread, read}
use mhttp.Call.{HttpCall, header, send_continue, read_bytes, with_body_state, with_input, body}

module _ {H : Type 0} where
  -- The call holds the body `b` now, its input goes on with `rest`, and a second call of `body`
  -- changes nothing.
  pub record Holds (b : Body) (rest : Bytes) (call : HttpCall H) : Type 0 where
    pub state : call.request.body_state ≡ read b
    pub left : whole call.connection.input ≡ rest
    pub again : body call ≡ ok (b, call)

  read-Holds :
      (call : HttpCall H) (n : ℕ) (chunked : Bool) (s rest : Bytes) (d : Input)
      → call.request.body_state ≡ unread n chunked
      → read_bytes chunked n call.request.max_body_size call.connection.input ≡ ok (s, d)
      → whole d ≡ rest
      → let b = bytes s (header (codes "content-type") call) in
        (after : HttpCall H) × (body call ≡ ok (b, after)) × Holds b rest after
  unfolding body
  read-Holds call n chunked s rest d state ran left =
      let b = bytes s (header (codes "content-type") call) in
      let after : HttpCall H = with_body_state (read b) (with_input (send_continue call) d call) in
      (after, rw (state, ran) refl, record { state = refl; left = left; again = refl })

  -- A body of announced length, within the limit, is read whole, however its bytes arrive. The connection
  -- is left behind it, and a further call gives the same body without reading.
  pub body-Holds :
      (call : HttpCall H) (s rest : Bytes)
      → Flows call.connection.input.incoming
      → length s ≤ call.request.max_body_size
      → call.request.body_state ≡ unread (length s) false
      → whole call.connection.input ≡ s ++ rest
      → let b = bytes s (header (codes "content-type") call) in
        (after : HttpCall H) × (body call ≡ ok (b, after)) × Holds b rest after
  body-Holds call s rest flows within state e =
      let (fits, _) =
        read_exact_lem s rest call.request.max_body_size call.connection.input flows e in
      let (d, ran, left, _) = fits within in
      read-Holds call (length s) false s rest d state ran left

  -- A chunked body that a stream was written as, with its content within the limit, is read as the content of the
  -- stream, and the connection is left behind it; a further call gives the same body.
  pub body-chunked :
      (call : HttpCall H) (n : ℕ) (reads : List Bytes) (rest : Bytes)
      → All (λ s. length s ≢ 0) reads
      → Flows call.connection.input.incoming
      → length (join reads) ≤ call.request.max_body_size
      → length (join reads) < usize_mod
      → call.request.body_state ≡ unread n true
      → whole call.connection.input ≡ write_stream reads ++ rest
      → let b = bytes (join reads) (header (codes "content-type") call) in
        (after : HttpCall H) × (body call ≡ ok (b, after)) × Holds b rest after
  body-chunked call n reads rest full flows within small state e =
      let (d, ran, left, _) =
        read_chunked-write_stream reads call.request.max_body_size rest call.connection.input full
          flows e within small in
      read-Holds call n true (join reads) rest d state ran left
