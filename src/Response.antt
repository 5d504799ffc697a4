-- ===== src/Response.antt =====
-- `HttpResponse` of src/response.rs and `is_compressible` of src/compress.rs. The header fields are the
-- abstract fields that `FieldLines` implements. The encoders of `async_compression` are not part of the
-- source, and are parameters.
pub mod Status
pub mod Reserved
pub mod Lengths
pub mod Tests
use mhttp.Common.{
  ℕ, suc, ◌+◌, Bool, true, false, ◌&&◌, ◌||◌, not, Option, none, some, List, [], ◌∷◌, ◌++◌, Bytes,
  codes, ltb, leb, ◌==◌, if◌then◌else◌, length, is_empty, starts_with, eq_ignore_ascii_case,
  contains,
}
use mathlib.Core.Option
use mhttp.Common.Decimal.{to_decimal}
use mhttp.FieldLines.Fields
use mhttp.FieldLines.Fields.{Fields}
use mhttp.Cookies.{CookieStore, CookieOptions}
use mhttp.Cookies
use mhttp.Response.Status.{HttpStatusCode, ok}

abbrev pub reserved_headers : List Bytes
reserved_headers =
    codes "content-type"
    ∷ codes "content-length"
    ∷ codes "x-request-id"
    ∷ codes "access-control-allow-origin"
    ∷ codes "access-control-allow-credentials"
    ∷ codes "access-control-allow-methods"
    ∷ codes "access-control-request-headers"
    ∷ codes "access-control-max-age"
    ∷ codes "access-control-expose-headers"
    ∷ codes "cookie"
    ∷ codes "set-cookie"
    ∷ codes "accept-encoding"
    ∷ codes "date"
    ∷ codes "connection"
    ∷ codes "keep-alive"
    ∷ codes "content-range"
    ∷ codes "accept-ranges"
    ∷ []

unfoldable pub any_ignore_case : Bytes → List Bytes → Bool
any_ignore_case name [] = false
any_ignore_case name (h ∷ hs) = eq_ignore_ascii_case name h || any_ignore_case name hs

-- `Body` of src/body.rs; a stream is what its reader returns, in order, where `none` is an error.
pub data Body : Type 0 where
  bytes : (bytes : Bytes) (content_type : Option Bytes) → Body
  stream : (reads : List (Option Bytes)) (content_length : ℕ) (content_type : Option Bytes) → Body

-- `H` is the type of the hook that runs once the response is sent.
pub record HttpResponse (H : Type 0) : Type 0 where
  pub http_version : Bytes
  pub path : Bytes
  pub status_code : HttpStatusCode
  pub body : Option Body
  pub field_lines : Fields
  pub cookies : Option CookieStore
  pub suppress_body : Bool
  pub on_sent : Option H

-- What `async_compression` makes of a body, or of what a reader returns
pub record Encoders : Type 0 where
  pub with_zstd : Bytes → Bytes
  pub with_brotli : Bytes → Bytes
  pub with_gzip : Bytes → Bytes
  pub zstd_stream : List (Option Bytes) → List (Option Bytes)
  pub brotli_stream : List (Option Bytes) → List (Option Bytes)
  pub gzip_stream : List (Option Bytes) → List (Option Bytes)

pub data Encoding : Type 0 where
  zstd : Encoding
  br : Encoding
  gzip : Encoding

unfoldable pub encoding_name : Encoding → Bytes
encoding_name zstd = codes "zstd"
encoding_name br = codes "br"
encoding_name gzip = codes "gzip"

unfoldable pub is_compressible : Bytes → Bool
unfolding starts_with contains
is_compressible content_type =
    starts_with content_type (codes "text/")
    || contains content_type (codes "json")
    || contains content_type (codes "javascript")
    || contains content_type (codes "xml")
    || contains content_type (codes "svg")

unfoldable pub choose_encoding : Bytes → Option Encoding
unfolding contains
choose_encoding accept_encoding =
    if contains accept_encoding (codes "zstd")
    then some zstd
    else if contains accept_encoding (codes "br")
    then some br
    else if contains accept_encoding (codes "gzip")
    then some gzip
    else none

abbrev pub or_empty : Option Bytes → Bytes
or_empty none = []
or_empty (some v) = v

unfoldable pub encode : Encoders → Encoding → Bytes → Bytes
encode e zstd s = e.with_zstd s
encode e br s = e.with_brotli s
encode e gzip s = e.with_gzip s

unfoldable pub encode_stream : Encoders → Encoding → List (Option Bytes) → List (Option Bytes)
encode_stream e zstd s = e.zstd_stream s
encode_stream e br s = e.brotli_stream s
encode_stream e gzip s = e.gzip_stream s

abbrev or_new : Option CookieStore → CookieStore
or_new none = Cookies.new
or_new (some store) = store

module _ {H : Type 0} where
  abbrev pub with_fields : Fields → HttpResponse H → HttpResponse H
  with_fields fs r = record r { field_lines = fs }

  -- `HttpResponse::new`
  unfoldable pub new_response : Bytes → Bytes → Bytes → HttpResponse H
  unfolding Fields.set
  new_response http_version request_id path = record {
    http_version = http_version;
    path = path;
    status_code = ok;
    body = none;
    field_lines = Fields.set [] (codes "x-request-id") request_id;
    cookies = none;
    suppress_body = false;
    on_sent = none;
  }

  abbrev pub into_initialized : Option Body → HttpResponse H → HttpResponse H
  into_initialized b r = record r { body = b }

  -- `__add_header_internal` and `__remove_header_internal`
  unfoldable pub add_header_internal : Bytes → Bytes → HttpResponse H → HttpResponse H
  unfolding Fields.set
  add_header_internal k v r = with_fields (Fields.set r.field_lines k v) r

  unfoldable pub remove_header_internal : Bytes → HttpResponse H → HttpResponse H
  unfolding Fields.remove
  remove_header_internal k r = with_fields (Fields.remove r.field_lines k) r

  -- `json` is given what `serde_json::to_vec` makes of its value
  unfoldable pub with_json : Bytes → HttpResponse H → HttpResponse H
  unfolding add_header_internal
  with_json json_bytes r =
      into_initialized (some (bytes json_bytes (some (codes "application/json")))) (
        add_header_internal (codes "content-length") (to_decimal (length json_bytes))
          (add_header_internal (codes "content-type") (codes "application/json") r))

  unfoldable pub with_bytes : Bytes → Bytes → HttpResponse H → HttpResponse H
  unfolding add_header_internal
  with_bytes b content_type r = into_initialized (some (bytes b (some content_type))) (
      add_header_internal (codes "content-length") (to_decimal (length b))
        (add_header_internal (codes "content-type") content_type r))

  unfoldable pub with_stream : List (Option Bytes) → ℕ → Bytes → HttpResponse H → HttpResponse H
  unfolding add_header_internal
  with_stream reads content_len content_type r =
      let typed = add_header_internal (codes "content-type") content_type r in
      let framed =
        if content_len == 0
        then add_header_internal (codes "transfer-encoding") (codes "chunked") typed
        else add_header_internal (codes "content-length") (to_decimal content_len) typed in
      into_initialized (some (stream reads content_len (some content_type)))
        (add_header_internal (codes "content-length") (to_decimal content_len) framed)

  unfoldable pub empty : HttpResponse H → HttpResponse H
  empty r = into_initialized none r

  unfoldable pub set_status_code : HttpStatusCode → HttpResponse H → HttpResponse H
  set_status_code code r = record r { status_code = code }

  unfoldable pub set_on_sent : H → HttpResponse H → HttpResponse H
  set_on_sent hook r = record r { on_sent = some hook }

  unfoldable pub suppress : HttpResponse H → HttpResponse H
  suppress r = record r { suppress_body = true }

  unfoldable pub add_header : Bytes → Bytes → HttpResponse H → HttpResponse H
  unfolding any_ignore_case Fields.set
  add_header name value r =
      if not (any_ignore_case name reserved_headers)
      then with_fields (Fields.set r.field_lines name value) r
      else r

  unfoldable pub remove_header : Bytes → HttpResponse H → HttpResponse H
  unfolding any_ignore_case Fields.remove
  remove_header name r =
      if not (any_ignore_case name reserved_headers)
      then with_fields (Fields.remove r.field_lines name) r
      else r

  unfoldable pub add_cookie : Bytes → Bytes → Option CookieOptions → HttpResponse H → HttpResponse H
  unfolding Cookies.set
  add_cookie name value options r = record r {
    cookies = some (Cookies.set (or_new r.cookies) name value options);
  }

  unfoldable pub remove_cookie : Bytes → HttpResponse H → HttpResponse H
  unfolding Cookies.remove
  remove_cookie name r = record r {
    cookies = Option.map (λ store. (Cookies.remove store name).0) r.cookies;
  }

  -- The last step of `compress`, once an encoding is chosen
  unfoldable pub compress_body : Encoders → Encoding → Body → HttpResponse H → HttpResponse H
  unfolding encode encode_stream encoding_name add_header_internal remove_header_internal
  compress_body enc encoding (bytes b ct) r =
      let compressed = encode enc encoding b in
      if ltb (length b) 1024 || leb (length b) (length compressed)
      then r
      else into_initialized (some (bytes compressed ct)) (
          add_header_internal (codes "vary") (codes "Accept-Encoding") (
            add_header_internal (codes "content-length") (to_decimal (length compressed))
              (add_header_internal (codes "content-encoding") (encoding_name encoding) r)))
  compress_body enc encoding (stream reads n ct) r =
      into_initialized (some (stream (encode_stream enc encoding reads) 0 ct)) (
        add_header_internal (codes "vary") (codes "Accept-Encoding") (
          add_header_internal (codes "content-encoding") (encoding_name encoding) (
            add_header_internal (codes "transfer-encoding") (codes "chunked")
              (remove_header_internal (codes "content-length") r))))

  -- Where the source takes the body out and puts it back, the response is as it was.
  unfoldable pub compress_as : Encoders → Option Encoding → Body → HttpResponse H → HttpResponse H
  unfolding compress_body
  compress_as enc none b r = r
  compress_as enc (some encoding) b r = compress_body enc encoding b r

  unfoldable pub compress_some : Encoders → Option Body → HttpResponse H → HttpResponse H
  unfolding Fields.get is_compressible choose_encoding compress_as
  compress_some enc none r = r
  compress_some enc (some b) r =
      let encoding =
        choose_encoding (or_empty (Fields.get r.field_lines (codes "accept-encoding"))) in
      if not (is_compressible (or_empty (Fields.get r.field_lines (codes "content-type"))))
      then r
      else compress_as enc encoding b r

  unfoldable pub compress : Encoders → HttpResponse H → HttpResponse H
  unfolding compress_some
  compress enc r = compress_some enc r.body r
