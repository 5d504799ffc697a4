-- ===== src/Multipart/Bodies.antt =====
-- What a handler makes of a body that was read: `Body::{as_multipart, as_json, to_bytes, is_stream}` of
-- src/body.rs. The parser of JSON is `serde_json`'s, and a parameter.
use mhttp.Common.{
  ◌≡◌, Bool, true, false, Option, none, some, List, [], ◌∷◌, ◌++◌, Bytes, codes, if◌then◌else◌,
  drop, starts_with, split, Lacks,
}
use mhttp.Common.Trim.{trim}
use mhttp.Response.{Body, bytes, stream}
use mhttp.Multipart.{Parsed, ok, err, Multipart, parse}

-- `Result::ok`
abbrev pub ok_of {ℓ} : {A : Type ℓ} → Parsed A → Option A
ok_of (ok a) = some a
ok_of (err e) = none

-- The `find_map` over the parts of a content type
unfoldable pub find_boundary : List Bytes → Bytes
unfolding trim starts_with
find_boundary [] = []
find_boundary (param ∷ params) =
    let rest = find_boundary params in
    if starts_with (trim param) (codes "boundary=") then drop 9 (trim param) else rest

unfoldable pub multipart_of : Bytes → Option Bytes → Option Multipart
unfolding starts_with split find_boundary parse
multipart_of s none = none
multipart_of s (some ct) =
    if starts_with ct (codes "multipart/form-data")
    then ok_of (parse s (find_boundary (split b';' ct)))
    else none

unfoldable pub as_multipart : Body → Option Multipart
unfolding multipart_of
as_multipart (bytes s ct) = multipart_of s ct
as_multipart (stream reads n ct) = none

unfoldable pub json_of : {V : Type 0} → (Bytes → Option V) → Bytes → Option Bytes → Option V
unfolding starts_with
json_of from_slice s none = none
json_of from_slice s (some ct) =
    if starts_with ct (codes "application/json") then from_slice s else none

unfoldable pub as_json : {V : Type 0} → (Bytes → Option V) → Body → Option V
unfolding json_of
as_json from_slice (bytes s ct) = json_of from_slice s ct
as_json from_slice (stream reads n ct) = none

-- `Body::to_bytes`; a stream is a panic
unfoldable pub to_bytes : Body → Option Bytes
to_bytes (bytes s ct) = some s
to_bytes (stream reads n ct) = none

unfoldable pub is_stream : Body → Bool
is_stream (bytes s ct) = false
is_stream (stream reads n ct) = true

-- A boundary that is one parameter of the content type
pub record IsBoundary (boundary : Bytes) : Type 0 where
  pub one_param : Lacks b';' boundary
  pub trimmed : trim (codes " boundary=" ++ boundary) ≡ codes "boundary=" ++ boundary

abbrev pub form_type : Bytes → Bytes
form_type boundary = codes "multipart/form-data; boundary=" ++ boundary
