-- ===== src/Multipart/Headers.antt =====
-- The header lines of a part (src/body.rs), as a browser writes them.
use mathlib.Core.List.{reverse, reverse-append, reverse-reverse}
use mhttp.Common.{
  ℕ, zero, suc, ◌-◌, ◌≡◌, refl, sym, ap, ◌∙◌, true, false, Option, none, some, [], ◌∷◌, ◌++◌, Bytes,
  codes, ◌==◌, ltb, length, length-append, take-append, is_empty, memchr, memchr_first, drop_past,
  ends_with, append_assoc, Lacks, Lacks-split, All-append, split, arith,
}
use mhttp.Common.Utf8.{is_utf8}
use mhttp.Common.Trim.{trim, trim_start, trim_end, strip, white_front, white_back}
use mhttp.FieldLines.RoundTrip.{ends_with-append}
use mhttp.Multipart.{
  ok, Seen, strip_quotes, unquote, read_segment, read_segments, parse_header_line, read_lines,
  parse_headers_memchr, line_unless_empty, ◌>>=◌,
}
use mhttp.Request.Lines.{cut_cr-append}

strip_none : (white : Bytes → ℕ) (n : ℕ) (s : Bytes) → white s ≡ 0 → strip white n s ≡ s
unfolding strip
strip_none white zero s h = refl
strip_none white (suc n) s h = rw (h, strip) refl

trim_start_lem : (s : Bytes) → white_front s ≡ 0 → trim_start s ≡ s
unfolding trim_start
trim_start_lem s h = strip_none white_front (length s) s h

trim_end_lem : (s : Bytes) → white_back (reverse s) ≡ 0 → trim_end s ≡ s
unfolding trim_end
trim_end_lem s h =
    ap reverse (strip_none white_back (length (reverse s)) (reverse s) h) ∙ reverse-reverse s

-- A text that ends in a quote
quote_back : (s : Bytes) → white_back (reverse (s ++ codes "\"")) ≡ 0
unfolding white_back
quote_back s = rw (reverse-append s (codes "\"")) (ground arith)

-- A text from a letter or a quote to a quote is trimmed, also behind a blank.
trim_quoted :
    (s : Bytes) → white_front (s ++ codes "\"") ≡ 0 → trim (s ++ codes "\"") ≡ s ++ codes "\""
unfolding trim
trim_quoted s h =
    ap trim_end (trim_start_lem (s ++ codes "\"") h) ∙ trim_end_lem (s ++ codes "\"") (quote_back s)

trim_blank : (s : Bytes) → trim (b' ' ∷ s) ≡ trim s
unfolding trim
trim_blank s =
    let same : trim_start (b' ' ∷ s) ≡ trim_start s = unfold trim_start strip white_front in refl in
    ap trim_end same

Lacks-memchr : (c : ℕ) (s : Bytes) → Lacks c s → memchr c s ≡ none
unfolding memchr
Lacks-memchr c [] h = refl
Lacks-memchr c (b ∷ s) (h, hs) =
    let other : (b == c) ≡ false = ground arith in rw (other, Lacks-memchr c s hs) refl

strip_quotes_lem : (x : Bytes) → strip_quotes (codes "\"" ++ (x ++ codes "\"")) ≡ x
unfolding strip_quotes
strip_quotes_lem x =
    let quoted : Bytes = codes "\"" ++ (x ++ codes "\"") in
    let size = length-append x (codes "\"") in
    let long : ltb (length quoted) 2 ≡ false = ground arith in
    let ends : ends_with quoted (codes "\"") ≡ true =
      ends_with-append (codes "\"" ++ x) (codes "\"") in
    let inner : length quoted - 2 ≡ length x = omega arith in
    rw (long, ends, inner) (take-append x (codes "\""))

unquote_lem : (x : Bytes) → unquote (codes "\"" ++ (x ++ codes "\"")) ≡ x
unfolding unquote
unquote_lem x =
    ap strip_quotes (trim_quoted (codes "\"" ++ x) (unfold white_front in refl))
    ∙ strip_quotes_lem x

-- A line that names a part
unfoldable pub disposition : Bytes → Bytes
disposition name = codes "Content-Disposition: form-data; name=\"" ++ (name ++ codes "\"")

-- A name that can stand in quotes
pub record IsName (name : Bytes) : Type 0 where
  pub one_line : Lacks b'\n' name
  pub one_part : Lacks b';' name
  pub text : is_utf8 (disposition name) ≡ true

disposition_lem :
    (name : Bytes) (seen : Seen)
    → IsName name
    → parse_header_line (disposition name) seen ≡ ok (record seen { name = some name })
unfolding parse_header_line disposition memchr
disposition_lem name seen good =
    let tail : Bytes = name ++ codes "\"" in
    let value : Bytes = codes "form-data; name=\"" ++ tail in
    let trimmed : trim (b' ' ∷ value) ≡ value =
      trim_blank value
      ∙ trim_quoted (codes "form-data; name=\"" ++ name) (unfold white_front in refl) in
    let second : trim (codes " name=\"" ++ tail) ≡ codes "name=\"" ++ tail =
      trim_blank (codes "name=\"" ++ tail)
      ∙ trim_quoted (codes "name=\"" ++ name) (unfold white_front in refl) in
    let parts : split b';' value ≡ codes "form-data" ∷ (codes " name=\"" ++ tail) ∷ [] =
      unfold split in
      rw (Lacks-split b';' tail (All-append _ name (codes "\"") good.one_part (omega arith, tt)))
        refl in
    let read : read_segments (codes "form-data" ∷ (codes " name=\"" ++ tail) ∷ []) seen
        ≡ record seen { name = some name } =
      unfold read_segments read_segment in rw (second, unquote_lem name) refl in
    rw (good.text, trimmed, parts) (ap ok read)

-- A line that gives the type of a part
unfoldable pub content_type : Bytes → Bytes
content_type type = codes "Content-Type: " ++ type

-- A type that can stand on a line
pub record IsContentType (type : Bytes) : Type 0 where
  pub not_empty : is_empty type ≡ false
  pub one_line : Lacks b'\n' type
  pub trimmed : trim (b' ' ∷ type) ≡ type
  pub text : is_utf8 (content_type type) ≡ true

content_type_lem :
    (type : Bytes) (seen : Seen)
    → IsContentType type
    → parse_header_line (content_type type) seen ≡ ok (record seen { ctype = some type })
unfolding parse_header_line content_type memchr
content_type_lem type seen good = rw (good.text, good.trimmed, good.not_empty) refl

-- The header lines of a part with a name, and maybe a type
abbrev pub header_lines : Bytes → Option Bytes → Bytes
header_lines name none = disposition name
header_lines name (some type) = disposition name ++ (codes "\r\n" ++ content_type type)

abbrev pub IsTypeOf : Option Bytes → Type 0
IsTypeOf none = Unit
IsTypeOf (some type) = IsContentType type

disposition-Lacks : (name : Bytes) → IsName name → Lacks b'\n' (disposition name)
unfolding disposition
disposition-Lacks name good =
    All-append _ (codes "Content-Disposition: form-data; name=\"") (name ++ codes "\"")
      (omega arith) (All-append _ name (codes "\"") good.one_line (omega arith, tt))

last_line :
    (fuel : ℕ) (line : Bytes) (seen : Seen)
    → Lacks b'\n' line
    → read_lines (suc fuel) line seen ≡ line_unless_empty line seen
unfolding read_lines
last_line fuel line seen h = rw (Lacks-memchr b'\n' line h, read_lines) refl

next_line :
    (fuel : ℕ) (line rest : Bytes) (seen : Seen)
    → Lacks b'\n' line
    → read_lines (suc fuel) (line ++ (codes "\r\n" ++ rest)) seen
      ≡ (line_unless_empty line seen >>= read_lines fuel rest)
unfolding read_lines
next_line fuel line rest seen h =
    let ended : Bytes = line ++ codes "\r" in
    let regroup : ended ++ (b'\n' ∷ rest) ≡ line ++ (codes "\r\n" ++ rest) =
      append_assoc line (codes "\r") (b'\n' ∷ rest) in
    let first =
      memchr_first b'\n' ended rest (All-append _ line (codes "\r") h (omega arith, tt)) in
    let step : read_lines (suc fuel) (ended ++ (b'\n' ∷ rest)) seen
        ≡ (line_unless_empty line seen >>= read_lines fuel rest) =
      rw
        (
          first,
          read_lines,
          take-append ended (b'\n' ∷ rest),
          drop_past ended b'\n' rest,
          cut_cr-append line,
        )
        refl in
    ap (λ t. read_lines (suc fuel) t seen) (sym regroup) ∙ step

content_type-Lacks : (type : Bytes) → IsContentType type → Lacks b'\n' (content_type type)
unfolding content_type
content_type-Lacks type good =
    All-append _ (codes "Content-Type: ") type (omega arith) good.one_line

abbrev nothing : Seen
nothing = record { name = none; filename = none; ctype = none }

disposition_line :
    (name : Bytes) (seen : Seen)
    → IsName name
    → line_unless_empty (disposition name) seen ≡ ok (record seen { name = some name })
disposition_line name seen good =
    let some_line : line_unless_empty (disposition name) seen
        ≡ parse_header_line (disposition name) seen =
      unfold disposition in refl in
    some_line ∙ disposition_lem name seen good

content_type_line :
    (type : Bytes) (seen : Seen)
    → IsContentType type
    → line_unless_empty (content_type type) seen ≡ ok (record seen { ctype = some type })
content_type_line type seen good =
    let some_line : line_unless_empty (content_type type) seen
        ≡ parse_header_line (content_type type) seen =
      unfold content_type in refl in
    some_line ∙ content_type_lem type seen good

-- The header lines of a part, as they are written for a name and maybe a type, mean this name and
-- this type.
pub parse_headers-header_lines :
    (name : Bytes) (type : Option Bytes)
    → IsName name
    → IsTypeOf type
    → parse_headers_memchr (header_lines name type) ≡ ok (name, type)
unfolding parse_headers_memchr
parse_headers-header_lines name none good _ =
    let last =
      last_line (length (disposition name)) (disposition name) nothing
        (disposition-Lacks name good) in
    rw (last, disposition_line name nothing good) refl
parse_headers-header_lines name (some type) good typed =
    let hdr : Bytes = header_lines name (some type) in
    let fuel : ℕ = length hdr - 1 in
    let size : length hdr ≡ suc fuel =
      omega (arith, length-append (disposition name) (codes "\r\n" ++ content_type type)) in
    let first =
      next_line (suc fuel) (disposition name) (content_type type) nothing
        (disposition-Lacks name good) in
    let named : Seen = record nothing { name = some name } in
    let second = last_line fuel (content_type type) named (content_type-Lacks type typed) in
    rw (size, first, disposition_line name nothing good, second, content_type_line type named typed)
      refl
