-- ===== src/FieldLines/Parse.antt =====
-- `impl From<&[u8]> for FieldLines` of src/field_lines.rs: reading a block of header lines.
use mhttp.Common.{
  ℕ, zero, suc, ◌+◌, ◌-◌, Bool, ◌&&◌, ◌||◌, not, Option, none, some, [], ◌∷◌, ◌++◌, Bytes, codes,
  ◌==◌, if◌then◌else◌, ◌>>=◌, length, take, drop, get_elem?, is_empty, make_ascii_lowercase,
  bytes_eq, memchr, trim_start_by, trim_end_by, ends_with,
}
use mhttp.Common.Utf8.{is_utf8}
use mhttp.FieldLines.{as_u32, sub_u32, FieldLines, slice, new, position, relocate}

abbrev is_blank : ℕ → Bool
is_blank c = c == b' ' || c == b'\t'

abbrev is_blank_or_cr : ℕ → Bool
is_blank_or_cr c = c == b' ' || c == b'\t' || c == b'\r'

unfoldable pub trim_ascii : Bytes → Bytes
unfolding trim_start_by trim_end_by
trim_ascii s = trim_end_by is_blank_or_cr (trim_start_by is_blank s)

-- `end`, as the bytes in front of it
unfoldable pub cut_end : Bytes → Bytes
unfolding ends_with
cut_end bytes =
    if ends_with bytes (codes "\r\n\r\n")
    then take (length bytes - 4) bytes
    else if ends_with bytes (codes "\n\n") || ends_with bytes (codes "\r\n")
    then take (length bytes - 2) bytes
    else if ends_with bytes (codes "\n")
    then take (length bytes - 1) bytes
    else bytes

-- The value moves to the end of the arena by `extend_from_within`.
unfoldable pub append_within : FieldLines → ℕ → Bytes → Option FieldLines
unfolding slice relocate
append_within fl idx value = do
  e ← get_elem? fl.headers idx
  let new_vp = as_u32 (length fl.arena)
  old ← slice fl.arena e.value_start (e.value_start + e.value_len)
  let grown = ((fl.arena ++ old) ++ codes ", ") ++ value
  some (record {
    arena = grown;
    headers = relocate idx new_vp (sub_u32 (as_u32 (length grown)) new_vp) fl.headers;
  })

-- The name is copied in bulk, then put in lower case in place.
unfoldable pub push_bulk : FieldLines → Bytes → Bytes → FieldLines
push_bulk fl name value =
    let np = as_u32 (length fl.arena) in
    let copied = fl.arena ++ name in
    let lowered = take np copied ++ make_ascii_lowercase (drop np copied) in
    let vp = as_u32 (length lowered) in
    record {
      arena = lowered ++ value;
      headers =
          fl.headers
          ++ record {
            name_start = np;
            name_len = as_u32 (length name);
            value_start = vp;
            value_len = sub_u32 (as_u32 (length (lowered ++ value))) vp;
          }
            ∷ [];
    }

unfoldable pub upsert : FieldLines → Bytes → Bytes → Option FieldLines
unfolding position append_within push_bulk
upsert fl name value = do
  found ← position fl.arena name fl.headers
  elim found [ some idx ↦ append_within fl idx value | none ↦ some (push_bulk fl name value) ]

-- The name and the value of a line, where both are texts and the name is not empty.
unfoldable pub split_line : Bytes → Option (Bytes × Bytes)
unfolding memchr trim_ascii is_utf8
split_line line = elim (memchr b':' line) [
  | none ↦ none
  | some colon_pos ↦
      let name_bytes = trim_ascii (take colon_pos line) in
      let val_bytes = trim_ascii (drop (colon_pos + 1) line) in
      if not (is_empty name_bytes) && (is_utf8 name_bytes && is_utf8 val_bytes)
      then some (name_bytes, val_bytes)
      else none
]

unfoldable pub read_line : FieldLines → Bytes → Option FieldLines
unfolding bytes_eq split_line upsert
read_line fl line =
    if is_empty line || bytes_eq line (codes "\r")
    then some fl
    else elim (split_line line) [ none ↦ some fl | some (name, value) ↦ upsert fl name value ]

abbrev pub or_else : ℕ → Option ℕ → ℕ
or_else n none = n
or_else n (some m) = m

-- `while i < end`, over the bytes from `i` to `end`; each round takes one byte at least, so their
-- number is fuel enough.
unfoldable pub read_lines : ℕ → Bytes → FieldLines → Option FieldLines
unfolding memchr read_line
read_lines zero rest fl = some fl
read_lines (suc fuel) [] fl = some fl
read_lines (suc fuel) (c ∷ s) fl =
    let line_end = or_else (length (c ∷ s)) (memchr b'\n' (c ∷ s)) in
    read_line fl (take line_end (c ∷ s)) >>= λ next.
    read_lines fuel (drop (line_end + 1) (c ∷ s)) next

unfoldable pub from : Bytes → Option FieldLines
unfolding cut_end read_lines new
from bytes = let block = cut_end bytes in read_lines (length block) block new
