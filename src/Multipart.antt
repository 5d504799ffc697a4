-- ===== src/Multipart.antt =====
-- `Multipart` of src/body.rs: the parts of a form, each with its own header lines, between lines with
-- the boundary. Texts are their UTF-8 bytes, and the offsets into the body are kept as what is left of it.
pub mod Headers
pub mod Ends
pub mod Parts
pub mod Bodies
pub mod Tests
use mhttp.Common.{
  ℕ, zero, suc, ◌+◌, ◌-◌, Bool, true, false, ◌&&◌, ◌||◌, not, Option, none, some, List, [], ◌∷◌,
  ◌++◌, Bytes, codes, ◌==◌, ltb, if◌then◌else◌, length, take, drop, is_empty, memchr, memmem,
  starts_with, ends_with, bytes_eq, split, eq_ignore_ascii_case,
}
use mhttp.Common.Utf8.{is_utf8}
use mhttp.Common.Trim.{trim}
use mhttp.Common.HashMap
use mhttp.Request.{cut_cr}

pub data MultipartError : Type 0 where
  missing_boundary : MultipartError
  headers_missing_end : MultipartError
  next_boundary_not_found : MultipartError
  boundary_missing_end : MultipartError
  missing_name : MultipartError
  utf8 : MultipartError
  -- no error of the source: the fuel of the model has run out
  no_fuel : MultipartError

pub data Parsed {ℓ} (A : Type ℓ) : Type ℓ where
  ok : A → Parsed A
  err : MultipartError → Parsed A

infixl 5 ◌>>=◌
abbrev pub ◌>>=◌ {ℓ κ} : {A : Type ℓ} {B : Type κ} → Parsed A → (A → Parsed B) → Parsed B
ok a >>= f = f a
err e >>= f = err e

abbrev pub ok_or {ℓ} : {A : Type ℓ} → MultipartError → Option A → Parsed A
ok_or e none = err e
ok_or e (some a) = ok a

pub record MultiPartField : Type 0 where
  pub name : Bytes
  pub content_type : Option Bytes
  pub content : Bytes

-- `fields`
abbrev pub Multipart : Type 0
Multipart = List (Bytes × MultiPartField)

-- `name`, `filename` and `ctype` while the header lines are read
pub record Seen : Type 0 where
  pub name : Option Bytes
  pub filename : Option Bytes
  pub ctype : Option Bytes

-- The quotes round a text go, where there are two.
unfoldable pub strip_quotes : Bytes → Bytes
unfolding starts_with ends_with
strip_quotes s =
    if not (ltb (length s) 2) && starts_with s (codes "\"") && ends_with s (codes "\"")
    then take (length s - 2) (drop 1 s)
    else s

unfoldable pub unquote : Bytes → Bytes
unfolding trim strip_quotes
unquote s = strip_quotes (trim s)

-- One `;`-separated part of a disposition, which is trimmed
unfoldable pub read_segment : Bytes → Seen → Seen
unfolding starts_with unquote
read_segment seg seen =
    if starts_with seg (codes "name=")
    then record seen { name = some (unquote (drop 5 seg)) }
    else if starts_with seg (codes "filename=")
    then record seen { filename = some (unquote (drop 9 seg)) }
    else seen

unfoldable pub read_segments : List Bytes → Seen → Seen
unfolding trim read_segment
read_segments [] seen = seen
read_segments (seg ∷ segs) seen = read_segments segs (read_segment (trim seg) seen)

-- What a line with a key and a value adds
unfoldable pub read_value : Bytes → Bytes → Seen → Seen
unfolding eq_ignore_ascii_case split read_segments
read_value key val seen =
    if eq_ignore_ascii_case key (codes "Content-Type")
    then if is_empty val then seen else record seen { ctype = some val }
    else if eq_ignore_ascii_case key (codes "Content-Disposition")
    then read_segments (split b';' val) seen
    else seen

abbrev pub read_pair : Bytes → Seen → Option ℕ → Seen
read_pair s seen none = seen
read_pair s seen (some colon) = read_value (trim (take colon s)) (trim (drop (colon + 1) s)) seen

unfoldable pub parse_header_line : Bytes → Seen → Parsed Seen
unfolding is_utf8 memchr trim read_value
parse_header_line line seen =
    if is_utf8 line then ok (read_pair line seen (memchr b':' line)) else err utf8

abbrev pub line_unless_empty : Bytes → Seen → Parsed Seen
line_unless_empty line seen = if is_empty line then ok seen else parse_header_line line seen

-- The loop over the lines. A line uses a byte at least, so one more than the length is fuel enough.
unfoldable pub read_lines : ℕ → Bytes → Seen → Parsed Seen
unfolding memchr cut_cr parse_header_line
read_lines zero hdr seen = err no_fuel
read_lines (suc fuel) hdr seen = elim (memchr b'\n' hdr) [
  | none ↦ line_unless_empty hdr seen
  | some off ↦
      line_unless_empty (cut_cr (take off hdr)) seen >>= read_lines fuel (drop (off + 1) hdr)
]

abbrev pub default_type : Option Bytes → Option Bytes → Option Bytes
default_type none (some filename) = some (codes "application/octet-stream")
default_type ctype filename = ctype

unfoldable pub parse_headers_memchr : Bytes → Parsed (Bytes × Option Bytes)
unfolding read_lines
parse_headers_memchr hdr = do
  seen ← read_lines (suc (length hdr)) hdr (record { name = none; filename = none; ctype = none })
  name ← ok_or missing_name seen.name
  ok (name, default_type seen.ctype seen.filename)

-- `mid`, the boundary in front of which a part ends
unfoldable pub mid : Bytes → Bytes
mid boundary = codes "\r\n--" ++ boundary

abbrev pub field_of : Bytes × Option Bytes → Bytes → MultiPartField
field_of (name, content_type) content = record {
  name = name;
  content_type = content_type;
  content = content;
}

abbrev pub insert_field : Bytes × Option Bytes → Bytes → Multipart → Multipart
insert_field seen content fields = HashMap.insert seen.0 (field_of seen content) fields

-- Behind a part: the end of the form, the end of the body, or what `more` makes of the next part
unfoldable pub after_part : Bytes → Multipart → Parsed Multipart → Parsed Multipart
unfolding starts_with
after_part after fields more =
    if starts_with after (codes "--")
    then ok fields
    else if not (starts_with after (codes "\r\n"))
    then err boundary_missing_end
    else if is_empty (drop 2 after)
    then ok fields
    else more

-- The loop over the parts, on what stands behind `pos`. A part uses four bytes at least, so one more
-- than the length is fuel enough.
unfoldable pub read_parts : ℕ → Bytes → Bytes → Multipart → Parsed Multipart
unfolding memmem parse_headers_memchr after_part HashMap.insert
read_parts zero delimiter buf fields = err no_fuel
read_parts (suc fuel) delimiter buf fields = do
  hdr_rel ← ok_or headers_missing_end (memmem buf (codes "\r\n\r\n"))
  seen ← parse_headers_memchr (take hdr_rel buf)
  let search = drop (hdr_rel + 4) buf
  rel ← ok_or next_boundary_not_found (memmem search delimiter)
  let after = drop (rel + length delimiter) search
  let grown = insert_field seen (take rel search) fields
  let more = read_parts fuel delimiter (drop 2 after) grown
  after_part after grown more

unfoldable pub parse : Bytes → Bytes → Parsed Multipart
unfolding memmem mid read_parts
parse body boundary = do
  first ← ok_or missing_boundary (memmem body (codes "--" ++ (boundary ++ codes "\r\n")))
  let start = drop (first + length (codes "--" ++ (boundary ++ codes "\r\n"))) body
  read_parts (suc (length body)) (mid boundary) start []

unfoldable pub get : Bytes → Multipart → Option MultiPartField
unfolding HashMap.lookup
get name fields = HashMap.lookup name fields
