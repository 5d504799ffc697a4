-- ===== src/Cookies/Tests.antt =====
-- A cookie header that is read, and cookies that are written (src/cookie_store.rs).
use mhttp.Common.{◌≡◌, refl, true, false, none, some, [], Bytes, codes, split, bytes_eq}
use mhttp.Cookies.{CookieOptions, minutes, lax, set, get, to_bytes, from, format_http_date}
use mhttp.Cookies.Reading.{last_value, get-from}

abbrev sent : Bytes
sent = codes "a=1; b = 2;;=3; a=4"

last_counts : get (from sent) (codes "a") ≡ some (codes "4")
unfolding get from bytes_eq
last_counts = refl

get-from_example : get (from sent) (codes "b") ≡ last_value (codes "b") (split b';' sent)
get-from_example = get-from sent (codes "b")

epoch_test : format_http_date 0 ≡ codes "Thu, 01 Jan 1970 00:00:00 GMT"
unfolding format_http_date
epoch_test = refl

leap_test : format_http_date 1709210096 ≡ codes "Thu, 29 Feb 2024 12:34:56 GMT"
unfolding format_http_date
leap_test = refl

abbrev options : CookieOptions
options = record {
  domain = none;
  path = some (codes "/");
  expires = none;
  max_age = some (minutes 5);
  secure = true;
  http_only = false;
  same_site = some lax;
}

written_test :
    to_bytes 0 (set [] (codes " id ") (codes "x") (some options))
    ≡ codes "Set-Cookie: id=x; Path=/; Max-Age=300; Secure; SameSite=Lax\r\n"
unfolding to_bytes set
written_test = refl
