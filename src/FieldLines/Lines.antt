-- ===== src/FieldLines/Lines.antt =====
-- `impl From<&[u8]> for FieldLines` of src/field_lines.rs against a description by lines: the block is
-- cut at its newlines, and each line that is a header is set in turn. The arena needs at most half the
-- square of the block's length, since each line copies at most what was read before it.
use mhttp.Common.{
  ℕ, ◌+◌, ◌-◌, ◌%◌, ◌<◌, ◌≡◌, ap, ◌∙◌, ◌||◌, none, some, List, [], ◌∷◌, ◌++◌, append_assoc, arith,
  Bytes, codes, if◌then◌else◌, ◌==◌, inl, inr, length, get_elem?, is_empty, Option-cases, bytes_eq,
  make_ascii_lowercase, length-append, drop-append, take-append, cons_head,
}
use mhttp.FieldLines.{u32_mod, Entry, FieldLines, append_value, push_header, set}
use mhttp.FieldLines.Fields
use mhttp.FieldLines.Fields.{Fields}
use mhttp.FieldLines.Slices.{
  contents, IsValid, copy_loop-sub_text, slice_inside, get_inside, sub_text,
}
use mhttp.FieldLines.Entries.{position-index_of, index_of_get, length-lowercase}
use mhttp.FieldLines.Index.{index_of}
use mhttp.FieldLines.Parse.{append_within, push_bulk, upsert, split_line}

append_within-eq :
    (fl : FieldLines) (i : ℕ) (e : Entry) (v : Bytes)
    → IsValid fl
    → get_elem? fl.headers i ≡ some e
    → append_within fl i v ≡ append_value fl i v
unfolding append_within append_value
append_within-eq fl i e v valid got =
    let r = get_inside _ i fl.headers e got valid.inside in
    rw (
      got,
      slice_inside fl.arena e.value_start e.value_len r.value,
      copy_loop-sub_text e.value_len e.value_start fl.arena r.value,
      append_assoc (fl.arena ++ sub_text fl.arena e.value_start e.value_len) (codes ", ") v,
    )

push_bulk-eq :
    (fl : FieldLines) (k v : Bytes)
    → length fl.arena + length k + length v < u32_mod
    → push_bulk fl k v ≡ push_header fl k v
unfolding push_bulk push_header
push_bulk-eq fl k v room =
    let a = fl.arena in
    let low : Bytes = make_ascii_lowercase k in
    let np : length a % u32_mod ≡ length a = omega arith in
    let size : length ((a ++ low) ++ v) ≡ length (a ++ low) + length v =
      length-append (a ++ low) v in
    let named : length (a ++ low) ≡ length a + length k =
      length-append a low ∙ ap (λ n. length a + n) (length-lowercase k) in
    let vl : (length ((a ++ low) ++ v) % u32_mod + u32_mod - length (a ++ low) % u32_mod) % u32_mod
        ≡ length v % u32_mod =
      omega arith in
    rw (np, take-append a k, drop-append a k, vl)

-- The parser's way to store a header and `set` are the same function, on a valid arena with room
-- for the new text.
pub upsert-eq-set :
    (fl : FieldLines) (k v : Bytes)
    → IsValid fl
    → length fl.arena + length k + length v < u32_mod
    → upsert fl k v ≡ set fl k v
unfolding upsert set
upsert-eq-set fl k v valid room =
    let at = position-index_of fl.arena k fl.headers valid.fits valid.inside in
    elim (Option-cases (index_of (contents fl) k)) [
      | inl e ↦ rw (at, e) (ap some (push_bulk-eq fl k v room))
      | inr (i, e) ↦
          let (entry, got) = index_of_get fl.arena k fl.headers i e in
          rw (at, e) (append_within-eq fl i entry v valid got)
    ]

-- The lines of a block; a newline at its end begins no new line.
unfoldable pub lines : Bytes → List Bytes
lines [] = []
lines (c ∷ s) = let rest = lines s in if c == b'\n' then [] ∷ rest else cons_head c rest

-- What one line, and then a list of lines, does to the fields.
unfoldable pub set_line : Fields → Bytes → Fields
set_line fs line =
    if is_empty line || bytes_eq line (codes "\r")
    then fs
    else elim (split_line line) [ none ↦ fs | some (n, v) ↦ Fields.set fs n v ]

unfoldable pub set_lines : Fields → List Bytes → Fields
set_lines fs [] = fs
set_lines fs (l ∷ ls) = set_lines (set_line fs l) ls
