-- ===== src/Response/Reserved.antt =====
-- The reserved headers of src/response.rs, and what they mean for `compress`.
use mhttp.Common.{
  length, ℕ, ◌==◌, ◌≡◌, refl, sym, ap, ◌∙◌, true, false, Option, none, some, List, [], ◌∷◌, Bytes,
  codes, if◌then◌else◌, arith, eq_ignore_ascii_case, Bool-cases, inl, inr,
}
use mhttp.FieldLines.Fields
use mhttp.FieldLines.Fields.{Fields, eq_ignore_iff, get-set}
use mhttp.Cookies.{CookieOptions}
use mhttp.Response.Status.{HttpStatusCode}
use mhttp.Common.Decimal.{to_decimal}
use mhttp.Response.{
  with_json, compress_some, HttpResponse, Body, Encoders, any_ignore_case, reserved_headers,
  set_status_code, add_header, remove_header, add_cookie, remove_cookie, with_bytes, with_stream,
  empty, new_response, compress, add_header_internal, is_compressible, or_empty,
}

-- Names that differ in case only are reserved or not alike.
any_ignore_case_same :
    (k j : Bytes) (hs : List Bytes)
    → eq_ignore_ascii_case k j ≡ true
    → any_ignore_case k hs ≡ any_ignore_case j hs
unfolding any_ignore_case
any_ignore_case_same k j [] e = refl
any_ignore_case_same k j (h ∷ hs) e =
    ground
      (arith, eq_ignore_iff k j, eq_ignore_iff k h, eq_ignore_iff j h, any_ignore_case_same k j hs)

get-remove_other :
    (fs : Fields) (k j : Bytes)
    → eq_ignore_ascii_case k j ≡ false
    → Fields.get (Fields.remove fs k) j ≡ Fields.get fs j
unfolding Fields.get Fields.remove
get-remove_other [] k j e = refl
get-remove_other ((n, w) ∷ fs) k j e =
    ground
      (arith, get-remove_other fs k j e, eq_ignore_iff n k, eq_ignore_iff n j, eq_ignore_iff k j)

-- What a handler can do with a response before and after its body is set.
pub data Change : Type 0 where
  status : HttpStatusCode → Change
  header : Bytes → Bytes → Change
  no_header : Bytes → Change
  cookie : Bytes → Bytes → Option CookieOptions → Change
  no_cookie : Bytes → Change

-- How a response gets its body
pub data Start : Type 0 where
  of_json : Bytes → Start
  of_bytes : Bytes → Bytes → Start
  of_stream : List (Option Bytes) → ℕ → Bytes → Start
  of_nothing : Start

abbrev pub IsReserved : Bytes → Type 0
IsReserved name = any_ignore_case name reserved_headers ≡ true

apart :
    (k name : Bytes)
    → IsReserved name
    → any_ignore_case k reserved_headers ≡ false
    → eq_ignore_ascii_case k name ≡ false
apart k name h open_name = elim (Bool-cases (eq_ignore_ascii_case k name)) [
  | inr e ↦ e
  | inl e ↦
      let same = any_ignore_case_same k name reserved_headers e in
      let clash : false ≡ true = sym open_name ∙ same ∙ h in cc
]

abbrev encoding_header : Bytes
encoding_header = codes "accept-encoding"

IsReserved-encoding : IsReserved encoding_header
unfolding any_ignore_case eq_ignore_ascii_case
IsReserved-encoding = refl

eq_length : eq_ignore_ascii_case (codes "content-length") encoding_header ≡ false
unfolding eq_ignore_ascii_case
eq_length = refl

eq_type : eq_ignore_ascii_case (codes "content-type") encoding_header ≡ false
unfolding eq_ignore_ascii_case
eq_type = refl

eq_transfer : eq_ignore_ascii_case (codes "transfer-encoding") encoding_header ≡ false
unfolding eq_ignore_ascii_case
eq_transfer = refl

pub set_other :
    (fs : Fields) (k v name : Bytes)
    → eq_ignore_ascii_case k name ≡ false
    → Fields.get (Fields.set fs k v) name ≡ Fields.get fs name
set_other fs k v name e = get-set fs k v name ∙ rw e refl

-- Where a type and a length are set, every other header is as it was.
typed_other :
    (fs : Fields) (ct n : Bytes)
    → Fields.get
        (Fields.set (Fields.set fs (codes "content-type") ct) (codes "content-length") n)
        encoding_header
      ≡ Fields.get fs encoding_header
typed_other fs ct n =
    set_other (Fields.set fs (codes "content-type") ct) (codes "content-length") n encoding_header
      eq_length
    ∙ set_other fs (codes "content-type") ct encoding_header eq_type

new_encoding :
    (id : Bytes) → Fields.get (Fields.set [] (codes "x-request-id") id) encoding_header ≡ none
unfolding Fields.set Fields.get eq_ignore_ascii_case
new_encoding id = refl

-- The headers of a stream
unfoldable pub stream_fields : ℕ → Bytes → Fields → Fields
stream_fields n ct fs =
    let typed = Fields.set fs (codes "content-type") ct in
    if n == 0
    then Fields.set typed (codes "transfer-encoding") (codes "chunked")
    else Fields.set typed (codes "content-length") (to_decimal n)

stream_other :
    (n : ℕ) (ct : Bytes) (fs : Fields)
    → Fields.get (stream_fields n ct fs) encoding_header ≡ Fields.get fs encoding_header
unfolding stream_fields
stream_other n ct fs = elim (Bool-cases (n == 0)) [
  | inl e ↦ rw e (
      set_other (Fields.set fs (codes "content-type") ct) (codes "transfer-encoding")
        (codes "chunked") encoding_header eq_transfer
      ∙ set_other fs (codes "content-type") ct encoding_header eq_type)
  | inr e ↦ rw e (typed_other fs ct (to_decimal n))
]

module _ {H : Type 0} where
  unfoldable pub change : Change → HttpResponse H → HttpResponse H
  unfolding set_status_code add_header remove_header add_cookie remove_cookie
  change (status c) r = set_status_code c r
  change (header k v) r = add_header k v r
  change (no_header k) r = remove_header k r
  change (cookie k v o) r = add_cookie k v o r
  change (no_cookie k) r = remove_cookie k r

  unfoldable pub changes : List Change → HttpResponse H → HttpResponse H
  unfolding change
  changes [] r = r
  changes (c ∷ cs) r = changes cs (change c r)

  get-change :
      (c : Change) (r : HttpResponse H) (name : Bytes)
      → IsReserved name
      → Fields.get (change c r).field_lines name ≡ Fields.get r.field_lines name
  unfolding change set_status_code add_header remove_header add_cookie remove_cookie
  get-change (status c) r name h = refl
  get-change (cookie k v o) r name h = refl
  get-change (no_cookie k) r name h = refl
  get-change (header k v) r name h = elim (Bool-cases (any_ignore_case k reserved_headers)) [
    | inl e ↦ rw e refl
    | inr e ↦ rw e (get-set r.field_lines k v name ∙ rw (apart k name h e) refl)
  ]
  get-change (no_header k) r name h = elim (Bool-cases (any_ignore_case k reserved_headers)) [
    | inl e ↦ rw e refl
    | inr e ↦ rw e (get-remove_other r.field_lines k name (apart k name h e))
  ]

  -- No sequence of status, header and cookie changes by a handler, additions and removals alike, alters
  -- the value of a reserved header, in whatever case its name is written.
  pub changes-IsReserved :
      (cs : List Change) (r : HttpResponse H) (name : Bytes)
      → IsReserved name
      → Fields.get (changes cs r).field_lines name ≡ Fields.get r.field_lines name
  unfolding changes
  changes-IsReserved [] r name h = refl
  changes-IsReserved (c ∷ cs) r name h =
      changes-IsReserved cs (change c r) name h ∙ get-change c r name h

  unfoldable pub start : Start → HttpResponse H → HttpResponse H
  unfolding with_json with_bytes with_stream empty
  start (of_json b) r = with_json b r
  start (of_bytes b ct) r = with_bytes b ct r
  start (of_stream reads n ct) r = with_stream reads n ct r
  start of_nothing r = empty r

  pub with_stream_fields :
      (reads : List (Option Bytes)) (n : ℕ) (ct : Bytes) (r : HttpResponse H)
      → (with_stream reads n ct r).field_lines
        ≡ Fields.set (stream_fields n ct r.field_lines) (codes "content-length") (to_decimal n)
  unfolding with_stream stream_fields add_header_internal
  with_stream_fields reads n ct r = elim (Bool-cases (n == 0)) [
    | inl e ↦ rw e refl
    | inr e ↦ rw e refl
  ]

  -- Setting a body does not touch `accept-encoding`.
  get-start :
      (s : Start) (r : HttpResponse H)
      → Fields.get (start s r).field_lines (codes "accept-encoding")
        ≡ Fields.get r.field_lines (codes "accept-encoding")
  unfolding start with_json with_bytes empty add_header_internal
  get-start (of_json b) r =
      typed_other r.field_lines (codes "application/json") (to_decimal (length b))
  get-start (of_bytes b ct) r = typed_other r.field_lines ct (to_decimal (length b))
  get-start (of_stream reads n ct) r =
      ap (λ fs. Fields.get fs encoding_header) (with_stream_fields reads n ct r)
      ∙ set_other (stream_fields n ct r.field_lines) (codes "content-length") (to_decimal n)
          encoding_header eq_length
      ∙ stream_other n ct r.field_lines
  get-start of_nothing r = refl

  no_encoding :
      (enc : Encoders) (b : Option Body) (r : HttpResponse H)
      → Fields.get r.field_lines encoding_header ≡ none
      → compress_some enc b r ≡ r
  unfolding compress_some
  no_encoding enc none r e = refl
  no_encoding enc (some b) r e =
      elim (Bool-cases
        (is_compressible (or_empty (Fields.get r.field_lines (codes "content-type"))))) [
          | inl c ↦ rw (c, e) refl
          | inr c ↦ rw c refl
        ]

  -- A response that a handler builds from a new one is never compressed, whatever its body, its content
  -- type and its headers: `compress` looks for `accept-encoding` in the response, where a handler
  -- cannot put it.
  pub compress-start :
      (enc : Encoders) (version id path : Bytes) (before after : List Change) (s : Start)
      → compress enc
          (changes after (start s (changes before (new_response {H = H} version id path))))
        ≡ changes after (start s (changes before (new_response {H = H} version id path)))
  unfolding compress new_response
  compress-start enc version id path before after s =
      let r = changes before (new_response version id path) in
      no_encoding enc _ (changes after (start s r)) (
        changes-IsReserved after (start s r) encoding_header IsReserved-encoding
        ∙ get-start s r
        ∙ changes-IsReserved before (new_response version id path) encoding_header
            IsReserved-encoding
        ∙ new_encoding id)
