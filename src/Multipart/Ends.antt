-- ===== src/Multipart/Ends.antt =====
-- The loops of `Multipart::parse` (src/body.rs) end on every body.
use mhttp.Common.{
  ℕ, zero, suc, ◌+◌, ◌<◌, ◌≤◌, ◌≡◌, ◌≢◌, Option, none, some, [], ◌∷◌, ◌++◌, Bytes, codes, length,
  take, drop, length-drop, is_empty, memchr, memmem, memmem_le, memchr_lt, starts_with, arith,
  Bool-cases, Option-cases, inl, inr,
}
use mathlib.Core.Path.{subst}
use mhttp.Common.Utf8.{is_utf8}
use mhttp.Request.{cut_cr}
use mhttp.Multipart.{
  Parsed, ok, err, ok_or, MultipartError, no_fuel, missing_boundary, next_boundary_not_found,
  missing_name, Seen, Multipart, read_lines, parse_header_line, line_unless_empty,
  parse_headers_memchr, after_part, read_parts, parse, mid, ◌>>=◌,
}

-- Not the error of the model
abbrev InSource : MultipartError → Type 0
InSource no_fuel = ⊥
InSource _ = Unit

abbrev Ends {ℓ} : {A : Type ℓ} → Parsed A → Type 0
Ends (ok a) = Unit
Ends (err e) = InSource e

line-Ends : (line : Bytes) (seen : Seen) → Ends (line_unless_empty line seen)
unfolding parse_header_line
line-Ends [] seen = tt
line-Ends (c ∷ line) seen = elim (Bool-cases (is_utf8 (c ∷ line))) [
  | inl e ↦ rw e tt
  | inr e ↦ rw e tt
]

bind-Ends {ℓ κ} :
    {A : Type ℓ} {B : Type κ} (r : Parsed A) (f : A → Parsed B)
    → Ends r
    → ((a : A) → Ends (f a))
    → Ends (r >>= f)
bind-Ends (ok a) f h k = k a
bind-Ends (err e) f h k = h

read_lines-Ends :
    (fuel : ℕ) (hdr : Bytes) (seen : Seen) → length hdr < fuel → Ends (read_lines fuel hdr seen)
unfolding read_lines
read_lines-Ends zero hdr seen enough = absurd (omega arith)
read_lines-Ends (suc fuel) hdr seen enough = elim (Option-cases (memchr b'\n' hdr)) [
  | inl gone ↦ rw (gone, Ends) (line-Ends hdr seen)
  | inr (off, found) ↦
      let inside = memchr_lt b'\n' hdr off found in
      rw (found, Ends)
        (bind-Ends (line_unless_empty (cut_cr (take off hdr)) seen)
          (read_lines fuel (drop (off + 1) hdr)) (line-Ends (cut_cr (take off hdr)) seen)
          (λ next.
            read_lines-Ends fuel (drop (off + 1) hdr) next
              (omega (arith, length-drop (off + 1) hdr))))
]

or-Ends {ℓ} : {A : Type ℓ} (e : MultipartError) (o : Option A) → InSource e → Ends (ok_or e o)
or-Ends e none h = h
or-Ends e (some a) h = tt

parse_headers-Ends : (hdr : Bytes) → Ends (parse_headers_memchr hdr)
unfolding parse_headers_memchr
parse_headers-Ends hdr =
    bind-Ends _ _ (read_lines-Ends (suc (length hdr)) hdr _ (omega arith)) (λ seen.
      bind-Ends (ok_or missing_name seen.name) _ (or-Ends missing_name seen.name tt) (λ name. tt))

after-Ends :
    (after : Bytes) (fields : Multipart) (more : Parsed Multipart)
    → Ends more
    → Ends (after_part after fields more)
unfolding after_part
after-Ends after fields more h = elim (Bool-cases (starts_with after (codes "--"))) [
  | inl e ↦ rw e tt
  | inr e ↦ elim (Bool-cases (starts_with after (codes "\r\n"))) [
    | inl f ↦ elim (Bool-cases (is_empty (drop 2 after))) [
      | inl g ↦ rw (e, f, g) tt
      | inr g ↦ rw (e, f, g) h
    ]
    | inr f ↦ rw (e, f) tt
  ]
]

read_parts-Ends :
    (fuel : ℕ) (delimiter buf : Bytes) (fields : Multipart)
    → length buf < fuel
    → Ends (read_parts fuel delimiter buf fields)
unfolding read_parts
read_parts-Ends zero delimiter buf fields enough = absurd (omega arith)
read_parts-Ends (suc fuel) delimiter buf fields enough =
    elim (Option-cases (memmem buf (codes "\r\n\r\n"))) [
      | inl gone ↦ rw gone tt
      | inr (hdr_rel, found) ↦
          let inside = memmem_le buf (codes "\r\n\r\n") hdr_rel found in
          let search : Bytes = drop (hdr_rel + 4) buf in
          let shorter = length-drop (hdr_rel + 4) buf in
          rw found (
            bind-Ends _ _ (parse_headers-Ends (take hdr_rel buf)) (λ seen.
              bind-Ends _ _ (or-Ends next_boundary_not_found (memmem search delimiter) tt) (λ rel.
                let after : Bytes = drop (rel + length delimiter) search in
                let left : length (drop 2 after) ≤ length search =
                  omega (arith, length-drop 2 after, length-drop (rel + length delimiter) search) in
                after-Ends after _ _
                  (read_parts-Ends fuel delimiter (drop 2 after) _ (omega arith)))))
    ]

Ends-ne {ℓ} : {A : Type ℓ} (r : Parsed A) → Ends r → r ≢ err no_fuel
Ends-ne (ok a) h e = cc
Ends-ne (err e) h p = let same : e ≡ no_fuel = cc in absurd (subst InSource same h)

-- Every body is parsed to an end: the loops over the parts and over the lines of their headers always
-- have fuel enough.
pub parse-ends : (body boundary : Bytes) → parse body boundary ≢ err no_fuel
unfolding parse
parse-ends body boundary =
    let opening : Bytes = codes "--" ++ (boundary ++ codes "\r\n") in
    let start = λ (first : ℕ). drop (first + length opening) body in
    let short : (first : ℕ) → length (start first) < suc (length body) =
      λ first. omega (arith, length-drop (first + length opening) body) in
    Ends-ne _ (
      bind-Ends _ _ (or-Ends missing_boundary (memmem body opening) tt) (λ first.
        read_parts-Ends (suc (length body)) (mid boundary) (start first) [] (short first)))
