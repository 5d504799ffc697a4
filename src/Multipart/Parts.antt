-- ===== src/Multipart/Parts.antt =====
-- A form that is written part by part is read back by `Multipart::parse` (src/body.rs).
use mhttp.Common.{
  ℕ, zero, suc, ◌+◌, ◌<◌, ◌≤◌, ◌≡◌, refl, sym, ap, ◌∙◌, true, false, Option, some, List, [], ◌∷◌,
  ◌++◌, Bytes, codes, length, drop, length-append, drop-sum, take-append, drop-append, is_empty,
  memmem, memmem-append, starts_with, append_assoc, All, arith,
}
use mhttp.Multipart.{Parsed, ok, Multipart, insert_field, after_part, read_parts, parse, mid}
use mhttp.Multipart.Headers.{header_lines, IsName, IsTypeOf, parse_headers-header_lines}

-- A part as it is written: its name, maybe a type, and its content
pub record Part : Type 0 where
  pub name : Bytes
  pub type : Option Bytes
  pub content : Bytes

-- The header lines of a part, and what they say
abbrev header : Part → Bytes
header p = header_lines p.name p.type

abbrev said : Part → Bytes × Option Bytes
said p = (p.name, p.type)

-- The name can stand in quotes and the type on a line, no empty line is in the header lines, and the
-- boundary does not begin inside the content.
pub record IsPart (delimiter : Bytes) (p : Part) : Type 0 where
  pub named : IsName p.name
  pub typed : IsTypeOf p.type
  pub header_end :
      memmem (header p ++ codes "\r\n\r\n") (codes "\r\n\r\n") ≡ some (length (header p))
  pub content_end : memmem (p.content ++ delimiter) delimiter ≡ some (length p.content)

-- One part, in front of what stands behind its boundary
abbrev written : Bytes → Part → Bytes → Bytes
written delimiter p t = header p ++ (codes "\r\n\r\n" ++ (p.content ++ (delimiter ++ t)))

-- The parts behind the opening line, and any epilogue
abbrev pub spelled : Bytes → Part → List Part → Bytes → Bytes
spelled delimiter p [] epilogue = written delimiter p (codes "--" ++ epilogue)
spelled delimiter p (q ∷ ps) epilogue =
    written delimiter p (codes "\r\n" ++ spelled delimiter q ps epilogue)

abbrev pub opening : Bytes → Bytes
opening boundary = codes "--" ++ (boundary ++ codes "\r\n")

-- A whole form
pub form : Bytes → Part → List Part → Bytes → Bytes
form boundary p ps epilogue = opening boundary ++ spelled (mid boundary) p ps epilogue

-- The fields of the parts, where a later one replaces one with the same name
abbrev pub held : Multipart → List Part → Multipart
held fields [] = fields
held fields (p ∷ ps) = held (insert_field (said p) p.content fields) ps

starts_with_self : (s t : Bytes) → starts_with (s ++ t) s ≡ true
unfolding starts_with
starts_with_self [] t = unfold starts_with in refl
starts_with_self (c ∷ s) t = ground (arith, starts_with_self s t)

memmem_front : (s t : Bytes) → is_empty s ≡ false → memmem (s ++ t) s ≡ some 0
unfolding memmem
memmem_front [] t h = absurd (cc)
memmem_front (c ∷ s) t h = rw (starts_with_self (c ∷ s) t) refl

one_part :
    (fuel : ℕ) (delimiter : Bytes) (p : Part) (t : Bytes) (fields : Multipart)
    → IsPart delimiter p
    → (let grown = insert_field (said p) p.content fields in
        read_parts (suc fuel) delimiter (written delimiter p t) fields
        ≡ after_part t grown (read_parts fuel delimiter (drop 2 t) grown))
unfolding read_parts
one_part fuel delimiter p t fields good =
    let crlf2 : Bytes = codes "\r\n\r\n" in
    let rest : Bytes = p.content ++ (delimiter ++ t) in
    let first : memmem (header p ++ (crlf2 ++ rest)) crlf2 ≡ some (length (header p)) =
      ap (λ s. memmem s crlf2) (sym (append_assoc (header p) crlf2 rest))
      ∙ memmem-append (header p ++ crlf2) rest crlf2 (length (header p)) good.header_end in
    let meaning = parse_headers-header_lines p.name p.type good.named good.typed in
    let head = take-append (header p) (crlf2 ++ rest) in
    let behind : drop (length (header p) + 4) (header p ++ (crlf2 ++ rest)) ≡ rest =
      drop-sum (length (header p)) 4 (header p ++ (crlf2 ++ rest))
      ∙ ap (drop 4) (drop-append (header p) (crlf2 ++ rest)) in
    let second : memmem rest delimiter ≡ some (length p.content) =
      ap (λ s. memmem s delimiter) (sym (append_assoc p.content delimiter t))
      ∙ memmem-append (p.content ++ delimiter) t delimiter (length p.content) good.content_end in
    let content = take-append p.content (delimiter ++ t) in
    let after : drop (length p.content + length delimiter) rest ≡ t =
      drop-sum (length p.content) (length delimiter) rest
      ∙ ap (drop (length delimiter)) (drop-append p.content (delimiter ++ t))
      ∙ drop-append delimiter t in
    rw (first, head, meaning, behind, second, content, after) refl

not_empty : (s t : Bytes) → is_empty t ≡ false → is_empty (s ++ t) ≡ false
not_empty [] t h = h
not_empty (c ∷ s) t h = refl

spelled-ne :
    (delimiter : Bytes) (p : Part) (ps : List Part) (epilogue : Bytes)
    → is_empty (spelled delimiter p ps epilogue) ≡ false
spelled-ne delimiter p [] epilogue = not_empty (header p) _ refl
spelled-ne delimiter p (q ∷ ps) epilogue = not_empty (header p) _ refl

after_crlf :
    (s : Bytes) (fields : Multipart) (more : Parsed Multipart)
    → is_empty s ≡ false
    → after_part (codes "\r\n" ++ s) fields more ≡ more
unfolding after_part starts_with
after_crlf s fields more h = rw h refl

read_parts-spelled :
    (fuel : ℕ) (delimiter : Bytes) (p : Part) (ps : List Part) (epilogue : Bytes)
    (fields : Multipart)
    → All (IsPart delimiter) (p ∷ ps)
    → length ps < fuel
    → read_parts fuel delimiter (spelled delimiter p ps epilogue) fields ≡ ok (held fields (p ∷ ps))
read_parts-spelled zero delimiter p ps epilogue fields good enough = absurd (omega arith)
read_parts-spelled (suc fuel) delimiter p [] epilogue fields (good, _) enough =
    one_part fuel delimiter p (codes "--" ++ epilogue) fields good
    ∙ unfold after_part starts_with in refl
read_parts-spelled (suc fuel) delimiter p (q ∷ ps) epilogue fields (good, more) enough =
    let t : Bytes = codes "\r\n" ++ spelled delimiter q ps epilogue in
    one_part fuel delimiter p t fields good
    ∙ after_crlf (spelled delimiter q ps epilogue) _ _ (spelled-ne delimiter q ps epilogue)
    ∙ read_parts-spelled fuel delimiter q ps epilogue (insert_field (said p) p.content fields) more
        (omega arith)

length-spelled :
    (delimiter : Bytes) (p : Part) (ps : List Part) (epilogue : Bytes)
    → length ps ≤ length (spelled delimiter p ps epilogue)
length-spelled delimiter p [] epilogue = omega arith
length-spelled delimiter p (q ∷ ps) epilogue =
    let rest : Bytes = spelled delimiter q ps epilogue in
    omega (
      arith,
      length-spelled delimiter q ps epilogue,
      length-append (header p)
          (codes "\r\n\r\n" ++ (p.content ++ (delimiter ++ (codes "\r\n" ++ rest)))),
      length-append p.content (delimiter ++ (codes "\r\n" ++ rest)),
      length-append delimiter (codes "\r\n" ++ rest),
    )

-- A form of parts with names and types that can stand on their lines, with a boundary that does not begin inside a
-- content, is read back whole: the fields are those of the parts, whatever stands behind the last
-- boundary.
pub parse-form :
    (boundary : Bytes) (p : Part) (ps : List Part) (epilogue : Bytes)
    → All (IsPart (mid boundary)) (p ∷ ps)
    → parse (form boundary p ps epilogue) boundary ≡ ok (held [] (p ∷ ps))
unfolding parse form
parse-form boundary p ps epilogue good =
    let s : Bytes = spelled (mid boundary) p ps epilogue in
    let enough = length-spelled (mid boundary) p ps epilogue in
    let none_more : 0 + length (opening boundary) ≡ length (opening boundary) = omega arith in
    let start : drop (0 + length (opening boundary)) (opening boundary ++ s) ≡ s =
      ap (λ n. drop n (opening boundary ++ s)) none_more ∙ drop-append (opening boundary) s in
    rw (memmem_front (opening boundary) s refl, start)
      (read_parts-spelled (suc (length (opening boundary ++ s))) (mid boundary) p ps epilogue []
        good (omega (arith, length-append (opening boundary) s)))
