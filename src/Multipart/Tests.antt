-- ===== src/Multipart/Tests.antt =====
-- Forms that `Multipart::parse` (src/body.rs) reads.
use mhttp.Common.{Bytes, ◌≡◌, ◌≢◌, refl, none, some, [], ◌∷◌, codes}
use mhttp.Response.{bytes}
use mhttp.Multipart.{ok, err, no_fuel, parse, parse_headers_memchr}
use mhttp.Multipart.Bodies.{as_multipart}
use mhttp.Multipart.Ends.{parse-ends}
use mhttp.Multipart.Parts.{Part, form}

parse-ends_example : parse (codes "--b\r\nx") (codes "b") ≢ err no_fuel
parse-ends_example = parse-ends (codes "--b\r\nx") (codes "b")

abbrev text_part : Part
text_part = record { name = codes "a"; type = none; content = codes "one\r\n--" }

abbrev file_part : Part
file_part = record { name = codes "a"; type = some (codes "image/png"); content = [] }

abbrev sent_form : Bytes
sent_form = form (codes "b") text_part (file_part ∷ []) (codes "\r\n")

-- A boundary in quotes is not found in the body.
quoted_test :
    as_multipart (
      bytes
        (codes "--b\r\nContent-Disposition: form-data; name=\"a\"\r\n\r\nx\r\n--b--")
        (some (codes "multipart/form-data; boundary=\"b\"")))
    ≡ none
unfolding as_multipart
quoted_test = refl

-- A file whose name has a semicolon is read under a part of it.
semicolon_test :
    parse_headers_memchr (codes "Content-Disposition: form-data; name=\"a;name=b\"")
    ≡ ok (codes "b\"", none)
unfolding parse_headers_memchr
semicolon_test = refl
