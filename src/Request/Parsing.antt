-- ===== src/Request/Parsing.antt =====
-- What `parse` of src/request.rs gives for a printed request head, and for every head that the
-- connection lets through.
use mhttp.Common.{
  ℕ, ◌+◌, ◌*◌, ◌<◌, ◌≤◌, ◌≡◌, refl, Bool, true, some, [], ◌∷◌, ◌++◌, Bytes, codes, ltb,
  if◌then◌else◌, length, take, drop, memchr, memchr_first, arith, Lacks, All, Option-cases,
  Bool-cases, inl, inr, length-drop, take-append, drop_past,
}
use native.Mathlib.Nat.{mul-le-mul_left, mul-le-mul_right}
use mhttp.Common.Utf8.{is_utf8}
use mhttp.Method.{HttpMethod}
use mhttp.FieldLines.{u32_mod, FieldLines}
use mhttp.FieldLines.Fields
use mhttp.FieldLines.Fields.{Fields}
use mhttp.FieldLines.Block.{from-refines}
use mhttp.FieldLines.Parse.{from}
use mhttp.FieldLines.Slices.{contents}
use mhttp.FieldLines.RoundTrip.{IsClean, Fresh, from-print}
use mhttp.Request.{
  Outcome, ok, err, panic, payload_too_large, HttpRequest, IpAddr, content_length_of, make_request,
  is_chunked_of, or_panic, ◌>>=◌, parse, parse_line, missing_method, missing_route,
  missing_request_line, RequestError, cut_cr, unread,
}
use mhttp.Request.Lines.{request_line, parse_line_lem, cut_cr-append, request_line-Lacks}

-- A request head as a client writes it: a request line, the fields, and an empty line.
unfoldable pub request_head : HttpMethod → Bytes → Bytes → Fields → Bytes
request_head m route version fs =
    (request_line m route version ++ codes "\r") ++ (b'\n' ∷ (Fields.print fs ++ codes "\r\n"))

-- A route and a version that the request line can carry, and clean fields with different names that
-- the arena has room for.
pub record IsWritable (route version : Bytes) (fs : Fields) : Type 0 where
  pub no_space : Lacks b' ' route
  pub route_line : Lacks b'\n' route
  pub text : is_utf8 route ≡ true
  pub version_line : Lacks b'\n' version
  pub clean : All IsClean fs
  pub fresh : Fresh [] fs
  pub room :
      length (Fields.print fs ++ codes "\r\n") * length (Fields.print fs ++ codes "\r\n")
      < 2 * u32_mod

-- The length that the fields announce
abbrev pub announced : Fields → ℕ
announced fs = content_length_of (Fields.get fs (codes "content-length"))

-- A written request head is parsed into the request it was written from, unless it announces a body
-- longer than the limit, which is the error for a payload too large.
pub parse-request_head :
    (m : HttpMethod) (route version : Bytes) (fs : Fields) (peer : IpAddr) (max_body_size : ℕ)
    → IsWritable route version fs
    → parse (request_head m route version fs) peer max_body_size ≡ (
        if ltb max_body_size (announced fs)
        then err payload_too_large
        else ok (make_request (m, route, version) fs peer max_body_size))
unfolding parse request_head
parse-request_head m route version fs peer max_body_size w =
    let line : Bytes = request_line m route version ++ codes "\r" in
    let block : Bytes = Fields.print fs ++ codes "\r\n" in
    let whole = request_line-Lacks m route version w.route_line w.version_line in
    let (fl, run, valid, same) = from-print fs w.clean w.fresh w.room in
    let end = memchr_first b'\n' line block whole in
    let front = take-append line (b'\n' ∷ block) in
    let back = drop_past line b'\n' block in
    rw
      (
        end,
        front,
        cut_cr-append (request_line m route version),
        parse_line_lem m route version w.no_space w.text,
        back,
        run,
        same,
      )
      refl

-- The errors of a malformed or too large request
abbrev pub IsRefusal : RequestError → Type 0
IsRefusal missing_request_line = Unit
IsRefusal missing_method = Unit
IsRefusal missing_route = Unit
IsRefusal payload_too_large = Unit
IsRefusal _ = ⊥

abbrev LineResult : Outcome (HttpMethod × Bytes × Bytes) → Type 0
LineResult (ok _) = Unit
LineResult (err e) = IsRefusal e
LineResult panic = ⊥

parse_line-LineResult : (line : Bytes) → LineResult (parse_line line)
unfolding parse_line
parse_line-LineResult line = elim (Option-cases (memchr b' ' line)) [
  | inl gone ↦ rw gone tt
  | inr (i, found) ↦ elim (Option-cases (memchr b' ' (drop (i + 1) line))) [
    | inl gone ↦ rw (found, gone) tt
    | inr (j, next) ↦ rw (found, next) tt
  ]
]

-- What the parser may give: a request whose body is not read yet and whose announced length is within the
-- limit that it keeps, or one of the errors of a malformed or too large request, but no panic.
abbrev pub InLimit : ℕ → Outcome HttpRequest → Type 0
InLimit limit (ok r) =
    (announced r.field_lines ≤ limit)
    × (r.max_body_size ≡ limit)
    × (c : Bool) × (r.body_state ≡ unread (announced r.field_lines) c)
InLimit limit (err e) = IsRefusal e
InLimit limit panic = ⊥

checked-InLimit :
    (line : HttpMethod × Bytes × Bytes) (fs : Fields) (peer : IpAddr) (limit : ℕ)
    → InLimit limit (
        if ltb limit (announced fs)
        then err payload_too_large
        else ok (make_request line fs peer limit))
unfolding make_request
checked-InLimit line fs peer limit = elim (Bool-cases (ltb limit (announced fs))) [
  | inl big ↦ rw big tt
  | inr fits ↦
      rw fits (
        ground (arith, fits),
        refl,
        is_chunked_of (Fields.get fs (codes "transfer-encoding")),
        refl,
      )
]

-- From a request line on, with fields that are read without a panic
with_fields-InLimit :
    (line : Outcome (HttpMethod × Bytes × Bytes)) (block : Bytes) (peer : IpAddr) (limit : ℕ)
    → LineResult line
    → ((fl : FieldLines) × (from block ≡ some fl))
    → InLimit limit (
        line >>= (λ l. or_panic (from block) >>= (λ fl.
          if ltb limit (announced (contents fl))
          then err payload_too_large
          else ok (make_request l (contents fl) peer limit))))
with_fields-InLimit (ok l) block peer limit _ (fl, run) =
    rw run (checked-InLimit l (contents fl) peer limit)
with_fields-InLimit (err e) block peer limit h _ = h
with_fields-InLimit panic block peer limit h _ = absurd h

-- A head that is short enough for the arena is parsed without a panic: it gives a request that
-- announces a body within the limit, or one of the four errors of a malformed or too large request.
pub parse-InLimit :
    (bytes : Bytes) (peer : IpAddr) (max_body_size : ℕ)
    → length bytes * length bytes < 2 * u32_mod
    → InLimit max_body_size (parse bytes peer max_body_size)
unfolding parse
parse-InLimit bytes peer max_body_size small = elim (Option-cases (memchr b'\n' bytes)) [
  | inl gone ↦ rw gone tt
  | inr (i, found) ↦
      let rest : Bytes = drop (i + 1) bytes in
      let shorter : length rest ≤ length bytes = omega (arith, length-drop (i + 1) bytes) in
      let room : length rest * length rest < 2 * u32_mod =
        omega
          (arith, mul-le-mul_left (length rest) shorter, mul-le-mul_right (length bytes) shorter) in
      let (fl, run, _, _) = from-refines rest room in
      rw found (
        with_fields-InLimit (parse_line (cut_cr (take i bytes))) rest peer max_body_size
          (parse_line-LineResult (cut_cr (take i bytes))) (fl, run))
]
