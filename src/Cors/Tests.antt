-- ===== src/Cors/Tests.antt =====
-- A policy with a list of origins (src/cors.rs).
use mhttp.Common.{◌≡◌, refl, Bool, true, Option, none, some, [], Bytes, codes, eq_ignore_ascii_case}
use mhttp.FieldLines.Fields
use mhttp.Method.{get, put}
use mhttp.Response.{HttpResponse, new_response}
use mhttp.Cors.{
  Cors, new, only_origins, add_origin, add_method, set_credentials, allow_origin, add_cors_headers,
  apply_cors,
}
use mhttp.Cors.Policy.{Answer, Preflight, add_cors_headers-Answer, apply_cors-Preflight}

unfoldable policy : Cors
unfolding only_origins add_origin add_method set_credentials
policy =
    set_credentials true
      (add_method put (add_method get (add_origin (codes "https://a.example") (only_origins new))))

abbrev request : Option Bytes
request = some (codes "HTTPS://A.example")

listed_test : allow_origin policy.allowed_origin true request ≡ request
unfolding policy allow_origin eq_ignore_ascii_case
listed_test = refl

abbrev fresh_response : HttpResponse Bool
fresh_response = record (new_response (codes "HTTP/1.1") (codes "id") (codes "/")) {
  field_lines = [];
}

add_cors_headers-Answer_example :
    Answer policy request (
      Fields.get
        (add_cors_headers policy request fresh_response).field_lines
        (codes "access-control-allow-origin"))
    × ((v : Bytes)
        → Fields.get
            (add_cors_headers policy request fresh_response).field_lines
            (codes "access-control-allow-credentials")
          ≡ some v
        → policy.allow_credentials ≡ true)
unfolding Fields.get
add_cors_headers-Answer_example = add_cors_headers-Answer policy request fresh_response refl refl

apply_cors-Preflight_example :
    (s : HttpResponse Bool) × (apply_cors policy request
        (some (codes "PUT"))
        none
        true
        fresh_response
      ≡ some s)
    × Preflight policy
        (some (codes "PUT"))
        (allow_origin policy.allowed_origin policy.allow_credentials request)
        s
    × Answer policy request (allow_origin policy.allowed_origin policy.allow_credentials request)
unfolding Fields.get
apply_cors-Preflight_example =
    apply_cors-Preflight policy request (some (codes "PUT")) none fresh_response refl
