-- ===== src/Connection/Writing.antt =====
-- How responses are written: `write_date_header`, `format_u64`, `write_response` and `write_body` of
-- src/connection.rs. The text that `chrono` makes of a time is a parameter; the reader of a stream is
-- what its reads give, in order, up to one that fails.
use mhttp.Common.{
  ℕ, zero, suc, ◌+◌, ◌/◌, ◌%◌, Bool, true, false, ◌&&◌, ◌||◌, not, Option, none, some, List, [],
  ◌∷◌, ◌++◌, Bytes, codes, ◌==◌, if◌then◌else◌, is_empty, eq_ignore_ascii_case, contains,
}
use mathlib.Core.Option
use mhttp.FieldLines.Fields
use mhttp.FieldLines.Fields.{Fields}
use mhttp.Cookies
use mhttp.Cookies.{CookieStore}
use mhttp.Body.{write_chunk, write_terminating_chunk}
use mhttp.Response.{HttpResponse, Body, bytes, stream}
use mhttp.Response.Status.{HttpStatusCode, no_content, not_modified, to_bytes}
use mhttp.Connection.{Writer, Connection, flush, write_all}

-- `CACHED_DATE`
pub record DateCache : Type 0 where
  pub secs : ℕ
  pub text : Bytes

-- The clock is read once for the seconds, and once more for the text.
unfoldable pub write_date_header : (ℕ → Bytes) → ℕ → ℕ → DateCache → Bytes → DateCache × Bytes
write_date_header format now_secs now cache buf =
    let fresh : DateCache =
      if cache.secs == now_secs then cache else record { secs = now_secs; text = format now } in
    (fresh, buf ++ (codes "date: " ++ (fresh.text ++ codes "\r\n")))

-- The digits are written from the right into a buffer of 20.
unfoldable pub u64_loop : ℕ → ℕ → Bytes → Bytes
u64_loop zero n buf = buf
u64_loop (suc i) n buf =
    let rest = u64_loop i (n / 10) ((b'0' + n % 10) ∷ buf) in if n == 0 then buf else rest

unfoldable pub format_u64 : ℕ → Bytes
unfolding u64_loop
format_u64 n = if n == 0 then codes "0" else u64_loop 20 n []

abbrev pub status_forbids_body : HttpStatusCode → Bool
status_forbids_body no_content = true
status_forbids_body not_modified = true
status_forbids_body _ = false

unfoldable pub connection_lines : Connection → Bytes
unfolding format_u64
connection_lines c =
    if c.keep_alive
    then codes "connection: keep-alive\r\n"
      ++ (codes "keep-alive: timeout=" ++ (format_u64 c.keep_alive_timeout_secs ++ codes "\r\n"))
    else codes "connection: close\r\n"

abbrev pub is_injected : Bytes → Bool
is_injected name =
    eq_ignore_ascii_case name (codes "date")
    || eq_ignore_ascii_case name (codes "connection")
    || eq_ignore_ascii_case name (codes "keep-alive")

-- The loop over the user's headers
unfoldable pub user_lines : Fields → Bytes
unfolding eq_ignore_ascii_case
user_lines [] = []
user_lines ((name, value) ∷ fs) =
    let rest = user_lines fs in
    if is_injected name then rest else (name ++ (codes ": " ++ (value ++ codes "\r\n"))) ++ rest

abbrev pub is_none {ℓ} : {A : Type ℓ} → Option A → Bool
is_none none = true
is_none (some _) = false

abbrev pub cookie_lines : ℕ → Option CookieStore → Bytes
cookie_lines now none = []
cookie_lines now (some store) = Cookies.to_bytes now store

module _ {H : Type 0} where
  unfoldable pub zero_length_line : HttpResponse H → Bytes
  unfolding Fields.get
  zero_length_line response =
      if not (status_forbids_body response.status_code)
        && is_none response.body
        && is_none (Fields.get response.field_lines (codes "content-length"))
      then codes "content-length: 0\r\n"
      else []

  -- `header_buf`, and the date that is kept
  unfoldable pub write_head :
      (ℕ → Bytes) → ℕ → ℕ → DateCache → Connection → HttpResponse H → DateCache × Bytes
  unfolding write_date_header connection_lines zero_length_line user_lines Cookies.to_bytes
  write_head format now_secs now cache c response =
      let status_line =
        response.http_version ++ (codes " " ++ (to_bytes response.status_code ++ codes "\r\n")) in
      let (cache, buf) = write_date_header format now_secs now cache status_line in
      (
        cache,
        buf
            ++ (connection_lines c
                ++ (zero_length_line response
                    ++ (user_lines response.field_lines
                        ++ (cookie_lines now response.cookies ++ codes "\r\n")))),
      )

-- `field_lines.get("transfer-encoding").map(|v| v.contains("chunked")).unwrap_or(false)`
unfoldable pub is_chunked : Fields → Bool
unfolding Fields.get contains
is_chunked fs = elim (Fields.get fs (codes "transfer-encoding")) [
  | none ↦ false
  | some v ↦ contains v (codes "chunked")
]

-- What `tokio::io::copy` copies: the reads until one is empty; `false` where one fails before
unfoldable pub copied : List (Option Bytes) → Bool × Bytes
copied [] = (true, [])
copied (none ∷ reads) = (false, [])
copied (some s ∷ reads) =
    let rest = copied reads in if is_empty s then (true, []) else (rest.0, s ++ rest.1)

-- The loop over a chunked stream; a read that fails returns from it, with `false`.
unfoldable pub streamed : List (Option Bytes) → Bool × Bytes
unfolding write_chunk
streamed [] = (true, write_terminating_chunk)
streamed (none ∷ reads) = (false, [])
streamed (some s ∷ reads) =
    let rest = streamed reads in
    if is_empty s then (true, write_terminating_chunk) else (rest.0, write_chunk s ++ rest.1)

-- What is sent of a stream, once the writer is flushed
abbrev send_out : Bool × Bytes → Writer → Bool × Writer
send_out (done, s) w = (done, write_all s w)

-- `write_body`, with `false` for a failed write or read
unfoldable pub write_body : Option Body → Fields → Writer → Bool × Writer
unfolding is_chunked write_chunk streamed copied write_all flush
write_body none field_lines w = (true, w)
write_body (some (bytes s _)) field_lines w = (
  true,
  if is_chunked field_lines
      then write_all write_terminating_chunk (write_all (write_chunk s) w)
      else write_all s w,
)
write_body (some (stream reads _ _)) field_lines w =
    if w.broken
    then (false, w)
    else send_out (if is_chunked field_lines then streamed reads else copied reads) (flush w)

-- What `write_response` leaves: whether it succeeded, the date, the connection, and the hook with the
-- status that it is called with.
pub record Written (H : Type 0) : Type 0 where
  pub succeeded : Bool
  pub cache : DateCache
  pub connection : Connection
  pub hook : Option (H × HttpStatusCode)

-- `if self.reader.is_empty() { self.writer.flush().await?; }`
unfoldable pub flush_if_idle : Bytes → Writer → Bool × Writer
unfolding flush
flush_if_idle reader w =
    if is_empty reader then (if w.broken then (false, w) else (true, flush w)) else (true, w)

abbrev pub then_flush : Bytes → Bool × Writer → Bool × Writer
then_flush reader (true, w) = flush_if_idle reader w
then_flush reader (false, w) = (false, w)

module _ {H : Type 0} where
  abbrev pub call_hook : HttpResponse H → Option (H × HttpStatusCode)
  call_hook response = Option.map (λ hook. (hook, response.status_code)) response.on_sent

  abbrev pub body_or_none : HttpResponse H → Writer → Bool × Writer
  body_or_none response w =
      if not response.suppress_body && not (status_forbids_body response.status_code)
      then write_body response.body response.field_lines w
      else (true, w)

  abbrev finish_response : HttpResponse H → DateCache → Connection → Bool × Writer → Written H
  finish_response response cache c (succeeded, w) = record {
    succeeded = succeeded;
    cache = cache;
    connection = record c { writer = w };
    hook = if succeeded then call_hook response else none;
  }

  unfoldable pub write_response :
      (ℕ → Bytes) → ℕ → ℕ → DateCache → HttpResponse H → Connection → Written H
  unfolding write_head write_all write_body flush_if_idle
  write_response format now_secs now cache response c =
      let (cache, header_buf) = write_head format now_secs now cache c response in
      let w = write_all header_buf c.writer in
      finish_response response cache (record c { has_written_response = true })
        (then_flush c.input.reader (body_or_none response w))
