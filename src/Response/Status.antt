-- ===== src/Response/Status.antt =====
-- `HttpStatusCode` of src/response.rs
use mhttp.Common.{ℕ, ◌≡◌, refl, Bytes, codes, take, some}
use mhttp.Common.Decimal.{parse_decimal}

pub data HttpStatusCode : Type 0 where
  ok : HttpStatusCode
  created : HttpStatusCode
  accepted : HttpStatusCode
  no_content : HttpStatusCode
  bad_request : HttpStatusCode
  unauthorized : HttpStatusCode
  forbidden : HttpStatusCode
  not_found : HttpStatusCode
  internal_server_error : HttpStatusCode
  not_implemented : HttpStatusCode
  bad_gate_way : HttpStatusCode
  service_unavailable : HttpStatusCode
  content_too_large : HttpStatusCode
  uri_too_long : HttpStatusCode
  request_header_fields_too_large : HttpStatusCode
  not_modified : HttpStatusCode
  method_not_allowed : HttpStatusCode
  partial_content : HttpStatusCode
  request_timeout : HttpStatusCode

unfoldable pub to_bytes : HttpStatusCode → Bytes
to_bytes ok = codes "200 OK"
to_bytes created = codes "201 Created"
to_bytes accepted = codes "202 Accepted"
to_bytes no_content = codes "204 No Content"
to_bytes partial_content = codes "206 Partial Content"
to_bytes not_modified = codes "304 Not Modified"
to_bytes bad_request = codes "400 Bad Request"
to_bytes unauthorized = codes "401 Unauthorized"
to_bytes forbidden = codes "403 Forbidden"
to_bytes not_found = codes "404 Not Found"
to_bytes method_not_allowed = codes "405 Method Not Allowed"
to_bytes request_timeout = codes "408 Request Timeout"
to_bytes content_too_large = codes "413 Content Too Large"
to_bytes uri_too_long = codes "414 URI Too Long"
to_bytes request_header_fields_too_large = codes "431 Request Header Fields Too Large"
to_bytes internal_server_error = codes "500 Internal Server Error"
to_bytes not_implemented = codes "501 Not Implemented"
to_bytes bad_gate_way = codes "502 Bad Gateway"
to_bytes service_unavailable = codes "503 Service Unavailable"

-- `impl From<HttpStatusCode> for u16`
unfoldable pub to_u16 : HttpStatusCode → ℕ
to_u16 ok = 200
to_u16 created = 201
to_u16 accepted = 202
to_u16 no_content = 204
to_u16 partial_content = 206
to_u16 not_modified = 304
to_u16 bad_request = 400
to_u16 unauthorized = 401
to_u16 forbidden = 403
to_u16 not_found = 404
to_u16 method_not_allowed = 405
to_u16 request_timeout = 408
to_u16 content_too_large = 413
to_u16 uri_too_long = 414
to_u16 request_header_fields_too_large = 431
to_u16 internal_server_error = 500
to_u16 not_implemented = 501
to_u16 bad_gate_way = 502
to_u16 service_unavailable = 503

-- The three digits in front of the reason are the number of the status, for every status.
pub to_bytes-to_u16 : (c : HttpStatusCode) → parse_decimal (take 3 (to_bytes c)) ≡ some (to_u16 c)
unfolding to_bytes to_u16 parse_decimal
to_bytes-to_u16 ok = refl
to_bytes-to_u16 created = refl
to_bytes-to_u16 _ = refl
