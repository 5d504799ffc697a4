-- ===== src/Response/Tests.antt =====
-- Responses that a handler builds (src/response.rs).
use mhttp.Common.{◌≡◌, refl, Bool, true, some, List, [], ◌∷◌, codes, eq_ignore_ascii_case}
use mhttp.FieldLines.Fields
use mhttp.Response.Status.{created}
use mhttp.Response.{
  HttpResponse, Encoders, any_ignore_case, new_response, with_stream, compress, is_compressible,
  choose_encoding, br,
}
use mhttp.Response.Reserved.{
  Change, status, header, no_header, changes, changes-IsReserved, of_bytes, start, compress-start,
}

svg_test : is_compressible (codes "image/svg+xml") ≡ true
unfolding is_compressible
svg_test = refl

br_test : choose_encoding (codes "gzip, deflate, br") ≡ some br
unfolding choose_encoding
br_test = refl

abbrev blank : HttpResponse Bool
blank = record (new_response (codes "HTTP/1.1") (codes "id") (codes "/")) {
  field_lines = (codes "date", codes "now") ∷ [];
}

abbrev edits : List Change
edits = header (codes "Date") (codes "never") ∷ no_header (codes "DATE") ∷ status created ∷ []

changes-IsReserved_example :
    Fields.get (changes edits blank).field_lines (codes "Date")
    ≡ Fields.get blank.field_lines (codes "Date")
unfolding any_ignore_case eq_ignore_ascii_case
changes-IsReserved_example = changes-IsReserved edits blank (codes "Date") refl

abbrev plain : Encoders
plain = record {
  with_zstd = λ s. s;
  with_brotli = λ s. [];
  with_gzip = λ s. s;
  zstd_stream = λ s. s;
  brotli_stream = λ s. s;
  gzip_stream = λ s. s;
}

abbrev asked : List Change
asked = header (codes "accept-encoding") (codes "br") ∷ []

abbrev answered : HttpResponse Bool
answered = changes asked (
    start (of_bytes (codes "text") (codes "text/plain"))
      (changes asked (new_response (codes "HTTP/1.1") (codes "id") (codes "/"))))

compress-start_example : compress plain answered ≡ answered
compress-start_example =
    compress-start plain (codes "HTTP/1.1") (codes "id") (codes "/") asked asked
      (of_bytes (codes "text") (codes "text/plain"))

abbrev file : HttpResponse Bool
file = with_stream (some (codes "abcde") ∷ []) 5 (codes "text/css") blank
