-- ===== src/Request.antt =====
-- `HttpRequest` and its parser in src/request.rs. Once the header block is read, the request keeps
-- the abstract fields that its `FieldLines` holds. The query string is decoded by `form_urlencoded`,
-- which is not part of the source; an address is a number.
pub mod Lines
pub mod Parsing
pub mod Tests
use mhttp.Common.{
  ℕ, suc, ◌+◌, ◌-◌, Bool, true, false, ◌&&◌, Option, none, some, List, [], ◌∷◌, ◌++◌, Bytes, codes,
  ltb, ◌==◌, if◌then◌else◌, length, take, drop, memchr, is_empty, contains, ends_with,
}
use mathlib.Core.Option
use mhttp.Common.Utf8.{is_utf8}
use mhttp.Common.Trim.{trim}
use mhttp.Common.Decimal.{parse_decimal}
use mhttp.Method.{HttpMethod, from_str}
use mhttp.Method
use mhttp.FieldLines.Fields
use mhttp.FieldLines.Fields.{Fields}
use mhttp.FieldLines.Slices.{contents}
use mhttp.FieldLines.Parse
use mhttp.Response.{Body}
use mhttp.Cookies.{CookieStore}
use mhttp.Cookies

-- `HttpRequestError`; the messages of `RequestLineParsingFailed` are constructors
pub data RequestError : Type 0 where
  missing_request_line : RequestError
  missing_method : RequestError
  missing_route : RequestError
  header_parsing_failed : RequestError
  payload_too_large : RequestError
  request_line_too_long : RequestError
  headers_too_large : RequestError
  timeout : RequestError
  io : RequestError

-- What a step gives; `panic` is an index out of range in `FieldLines`.
pub data Outcome {ℓ} (A : Type ℓ) : Type ℓ where
  ok : A → Outcome A
  err : RequestError → Outcome A
  panic : Outcome A

infixl 5 ◌>>=◌
abbrev pub ◌>>=◌ {ℓ κ} : {A : Type ℓ} {B : Type κ} → Outcome A → (A → Outcome B) → Outcome B
ok a >>= f = f a
err e >>= f = err e
panic >>= f = panic

abbrev pub ok_or {ℓ} : {A : Type ℓ} → RequestError → Option A → Outcome A
ok_or e none = err e
ok_or e (some a) = ok a

abbrev pub or_panic {ℓ} : {A : Type ℓ} → Option A → Outcome A
or_panic none = panic
or_panic (some a) = ok a

pub data BodyState : Type 0 where
  unread : (content_length : ℕ) (is_chunked : Bool) → BodyState
  reading : BodyState
  read : Body → BodyState

pub data IpAddr : Type 0 where
  v4 : ℕ → IpAddr
  v6 : ℕ → IpAddr

abbrev pub ipv4 : IpAddr → Option ℕ
ipv4 (v4 ip) = some ip
ipv4 (v6 ip) = none

abbrev pub ipv6 : IpAddr → Option ℕ
ipv6 (v4 ip) = none
ipv6 (v6 ip) = some ip

pub record HttpRequest : Type 0 where
  pub client_ipv4_address : Option ℕ
  pub client_ipv6_address : Option ℕ
  pub host : Option Bytes
  pub http_version : Bytes
  pub method : HttpMethod
  pub route : Bytes
  pub field_lines : Fields
  pub cookies : CookieStore
  pub max_body_size : ℕ
  pub body_state : BodyState
  pub path_params : List (Bytes × Bytes)

-- `if line.last() == Some(&b'\r') { line = &line[..line.len() - 1]; }`
unfoldable pub cut_cr : Bytes → Bytes
unfolding ends_with
cut_cr line = if ends_with line (codes "\r") then take (length line - 1) line else line

-- `std::str::from_utf8(s).unwrap_or("")`
unfoldable pub text_or_empty : Bytes → Bytes
unfolding is_utf8
text_or_empty s = if is_utf8 s then s else []

abbrev pub method_or_get : Option HttpMethod → HttpMethod
method_or_get none = Method.get
method_or_get (some m) = m

-- The method, the route and the version of a request line
unfoldable pub parse_line : Bytes → Outcome (HttpMethod × Bytes × Bytes)
unfolding memchr text_or_empty from_str
parse_line line = do
  first_space ← ok_or missing_method (memchr b' ' line)
  let after_method = first_space + 1
  second_space_rel ← ok_or missing_route (memchr b' ' (drop after_method line))
  let version_start = after_method + second_space_rel + 1
  ok (
    method_or_get (from_str (text_or_empty (take first_space line))),
    text_or_empty (take second_space_rel (drop after_method line)),
    drop version_start line,
  )

abbrev pub length_or_zero : Option ℕ → ℕ
length_or_zero none = 0
length_or_zero (some n) = n

-- `.get("content-length").unwrap_or("0").parse::<usize>().unwrap_or(0)`
unfoldable pub content_length_of : Option Bytes → ℕ
unfolding parse_decimal
content_length_of none = 0
content_length_of (some v) = length_or_zero (parse_decimal v)

unfoldable pub is_chunked_of : Option Bytes → Bool
unfolding contains
is_chunked_of none = false
is_chunked_of (some v) = contains v (codes "chunked")

unfoldable pub cookies_of : Option Bytes → CookieStore
unfolding Cookies.from
cookies_of none = Cookies.new
cookies_of (some v) = Cookies.from v

-- The request of a request line and of header fields
unfoldable pub make_request : HttpMethod × Bytes × Bytes → Fields → IpAddr → ℕ → HttpRequest
unfolding Fields.get trim content_length_of is_chunked_of cookies_of
make_request (method, route, http_version) fields peer max_body_size = record {
  client_ipv4_address = ipv4 peer;
  client_ipv6_address = ipv6 peer;
  host = Option.map trim (Fields.get fields (codes "host"));
  http_version = http_version;
  method = method;
  route = route;
  field_lines = fields;
  cookies = cookies_of (Fields.get fields (codes "cookie"));
  max_body_size = max_body_size;
  body_state =
      unread (content_length_of (Fields.get fields (codes "content-length")))
        (is_chunked_of (Fields.get fields (codes "transfer-encoding")));
  path_params = [];
}

unfoldable pub parse : Bytes → IpAddr → ℕ → Outcome HttpRequest
unfolding memchr cut_cr parse_line Parse.from Fields.get content_length_of make_request
parse header_bytes peer max_body_size = do
  req_line_end ← ok_or missing_request_line (memchr b'\n' header_bytes)
  line ← parse_line (cut_cr (take req_line_end header_bytes))
  fl ← or_panic (Parse.from (drop (req_line_end + 1) header_bytes))
  let fields = contents fl
  if ltb max_body_size (content_length_of (Fields.get fields (codes "content-length")))
      then err payload_too_large
      else ok (make_request line fields peer max_body_size)
