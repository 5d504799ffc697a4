-- ===== src/Cors.antt =====
-- src/cors.rs: the policy, its builder, and the headers it adds. A call is given by the three request
-- headers that are read, and by the response that `call.response()` makes.
pub mod Policy
pub mod Tests
use mhttp.Common.{
  ℕ, Bool, true, false, ◌&&◌, ◌||◌, not, Option, none, some, List, [], ◌∷◌, ◌++◌, Bytes, codes,
  if◌then◌else◌, is_empty, eq_ignore_ascii_case, map,
}
use mhttp.Common.Decimal.{to_decimal}
use mhttp.Method.{HttpMethod, method_eq, to_string, from_str}
use mhttp.Response.Status.{HttpStatusCode, no_content}
use mhttp.Response.{
  HttpResponse, any_ignore_case, add_header_internal, set_status_code, empty, or_empty,
}

pub data AllowedOrigin : Type 0 where
  any : AllowedOrigin
  only : List Bytes → AllowedOrigin

pub record Cors : Type 0 where
  pub allowed_origin : AllowedOrigin
  pub allowed_methods : List HttpMethod
  pub allowed_headers : List Bytes
  pub exposed_headers : List Bytes
  pub allow_credentials : Bool
  pub max_age : Option ℕ

-- `list.iter().any(|allowed| allowed.eq_ignore_ascii_case(o))`
unfoldable pub in_list : Bytes → List Bytes → Bool
in_list o [] = false
in_list o (allowed ∷ list) = eq_ignore_ascii_case allowed o || in_list o list

-- The `match` on the policy and the origin; `none` is its last arm.
unfoldable pub allow_origin : AllowedOrigin → Bool → Option Bytes → Option Bytes
unfolding in_list
allow_origin any credentials (some o) = some (if credentials then o else codes "*")
allow_origin any credentials none = some (codes "*")
allow_origin (only list) credentials (some o) = if in_list o list then some o else none
allow_origin (only list) credentials none = none

unfoldable pub join : Bytes → List Bytes → Bytes
join sep [] = []
join sep (s ∷ []) = s
join sep (s ∷ t ∷ ss) = s ++ (sep ++ join sep (t ∷ ss))

abbrev pub is_any : AllowedOrigin → Bool
is_any any = true
is_any (only _) = false

-- The part of `vary` that both functions push first
unfoldable pub vary_origin : Cors → List Bytes
vary_origin c =
    if c.allow_credentials
    then codes "Origin" ∷ []
    else if not (is_any c.allowed_origin)
    then codes "Origin" ∷ []
    else []

unfoldable pub methods_str : Cors → Bytes
unfolding join to_string
methods_str c = join (codes ",") (map to_string c.allowed_methods)

unfoldable pub contains_method : HttpMethod → List HttpMethod → Bool
unfolding method_eq
contains_method m [] = false
contains_method m (n ∷ ns) = method_eq n m || contains_method m ns

-- What a preflight request may send, by its own wish and the policy
unfoldable pub allow_headers : Cors → Bytes → Bytes
unfolding any_ignore_case join
allow_headers c request_headers =
    if is_empty c.allowed_headers
    then if is_empty request_headers then [] else request_headers
    else if any_ignore_case (codes "*") c.allowed_headers
    then request_headers
    else join (codes ",") c.allowed_headers

abbrev max_age_value : Option ℕ → Bytes
max_age_value none = []
max_age_value (some n) = to_decimal n

abbrev is_some : Option ℕ → Bool
is_some none = false
is_some (some n) = true

-- Whether the method that a preflight asks for is one that the policy has
unfoldable pub method_allowed : Cors → Option Bytes → Bool
unfolding from_str contains_method
method_allowed c none = false
method_allowed c (some val) = elim (from_str val) [
  | none ↦ false
  | some m ↦ contains_method m c.allowed_methods
]

module _ {H : Type 0} where
  -- `if test { resp = resp.__add_header_internal(name, value); }`
  unfoldable pub add_if : Bool → Bytes → Bytes → HttpResponse H → HttpResponse H
  unfolding add_header_internal
  add_if test name value r = if test then add_header_internal name value r else r

  unfoldable pub add_allowed : Cors → Bytes → HttpResponse H → HttpResponse H
  add_allowed c allowed r =
      let first = add_header_internal (codes "access-control-allow-origin") allowed r in
      let second =
        add_if c.allow_credentials (codes "access-control-allow-credentials") (codes "true")
          first in
      let third =
        add_header_internal (codes "access-control-allow-methods") (methods_str c) second in
      let fourth =
        add_if (not (is_empty c.exposed_headers)) (codes "access-control-expose-headers")
          (join (codes ",") c.exposed_headers) third in
      add_if (not (is_empty (vary_origin c))) (codes "vary") (join (codes ", ") (vary_origin c))
        fourth

  -- `add_cors_headers`, by the arm of its `match`
  unfoldable pub add_for : Cors → Option Bytes → HttpResponse H → HttpResponse H
  add_for c none resp = resp
  add_for c (some allowed) resp = add_allowed c allowed resp

  unfoldable pub add_cors_headers : Cors → Option Bytes → HttpResponse H → HttpResponse H
  add_cors_headers c origin resp =
      add_for c (allow_origin c.allowed_origin c.allow_credentials origin) resp

  -- The response of `apply_cors` that says no: only a preflight is answered
  unfoldable pub refuse : Bool → HttpResponse H → Option (HttpResponse H)
  unfolding set_status_code empty
  refuse is_preflight resp =
      if is_preflight then some (empty (set_status_code no_content resp)) else none

  -- The response of `apply_cors` once origin and method are allowed
  unfoldable pub allow : Cors → Bytes → Bytes → Bool → HttpResponse H → HttpResponse H
  unfolding set_status_code empty
  allow c allowed request_headers is_preflight resp =
      let headers = allow_headers c request_headers in
      let asked = is_preflight && not (is_empty headers) in
      let vary =
        if asked
        then vary_origin c ++ codes "Access-Control-Request-Headers" ∷ []
        else vary_origin c in
      let started = if is_preflight then set_status_code no_content resp else resp in
      let first = add_header_internal (codes "access-control-allow-origin") allowed started in
      let second =
        add_if c.allow_credentials (codes "access-control-allow-credentials") (codes "true")
          first in
      let third =
        add_header_internal (codes "access-control-allow-methods") (methods_str c) second in
      let fourth = add_if asked (codes "access-control-allow-headers") headers third in
      let fifth =
        add_if (is_preflight && is_some c.max_age) (codes "access-control-max-age")
          (max_age_value c.max_age) fourth in
      let sixth = add_if (not (is_empty vary)) (codes "vary") (join (codes ", ") vary) fifth in
      empty (
        add_if (not (is_empty c.exposed_headers)) (codes "access-control-expose-headers")
          (join (codes ",") c.exposed_headers) sixth)

  -- `apply_cors`; `none` is that no response is sent
  unfoldable pub apply_for :
      Cors → Option Bytes → Option Bytes → Bytes → Bool → HttpResponse H → Option (HttpResponse H)
  apply_for c none request_method request_headers is_preflight resp = refuse is_preflight resp
  apply_for c (some allowed) request_method request_headers is_preflight resp =
      if is_preflight && not (method_allowed c request_method)
      then refuse is_preflight resp
      else some (allow c allowed request_headers is_preflight resp)

  unfoldable pub apply_cors :
      Cors
      → Option Bytes
      → Option Bytes
      → Option Bytes
      → Bool
      → HttpResponse H
      → Option (HttpResponse H)
  apply_cors c origin request_method request_headers is_preflight resp =
      apply_for c (allow_origin c.allowed_origin c.allow_credentials origin) request_method
        (or_empty request_headers) is_preflight resp

-- `CorsBuilder`, whose type parameters say which methods may be called
abbrev pub new : Cors
new = record {
  allowed_origin = any;
  allowed_methods = [];
  allowed_headers = [];
  exposed_headers = [];
  allow_credentials = false;
  max_age = none;
}

unfoldable pub only_origins : Cors → Cors
only_origins b = record b { allowed_origin = only [] }

abbrev pushed : Bytes → AllowedOrigin → AllowedOrigin
pushed origin any = any
pushed origin (only origins) = only (origins ++ origin ∷ [])

unfoldable pub add_origin : Bytes → Cors → Cors
add_origin origin b = record b { allowed_origin = pushed origin b.allowed_origin }

unfoldable pub add_method : HttpMethod → Cors → Cors
add_method m b = record b { allowed_methods = b.allowed_methods ++ m ∷ [] }

unfoldable pub add_allowed_header : Bytes → Cors → Cors
add_allowed_header h b = record b { allowed_headers = b.allowed_headers ++ h ∷ [] }

unfoldable pub add_exposed_header : Bytes → Cors → Cors
add_exposed_header h b = record b { exposed_headers = b.exposed_headers ++ h ∷ [] }

unfoldable pub set_credentials : Bool → Cors → Cors
set_credentials value b = record b { allow_credentials = value }

unfoldable pub set_max_age : ℕ → Cors → Cors
set_max_age value b = record b { max_age = some value }
