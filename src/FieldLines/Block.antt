-- ===== src/FieldLines/Block.antt =====
-- `impl From<&[u8]> for FieldLines` of src/field_lines.rs on a whole block: what its loop computes,
-- and the bound on its arena that keeps every u32 index exact.
use mhttp.Common.{
  memchr_lt, ℕ, zero, suc, ◌+◌, ◌-◌, ◌*◌, ◌≤◌, ◌<◌, ◌≡◌, refl, sym, ap, ◌∙◌, Bool, ◌||◌, some, [],
  ◌∷◌, ◌++◌, arith, Bytes, codes, inl, inr, length, take, drop, is_empty, Bool-cases, Option-cases,
  memchr, bytes_eq, length-append, length-take, length-drop, trim_start_by, trim_end_by,
}
use mhttp.FieldLines.{u32_mod, FieldLines, new}
use mhttp.FieldLines.Fields
use mhttp.FieldLines.Fields.{Fields}
use mhttp.FieldLines.Slices.{contents, IsValid}
use mhttp.FieldLines.Entries.{new-IsValid}
use mhttp.FieldLines.Refine.{Short, set-grows}
use mhttp.FieldLines.Parse.{
  trim_ascii, cut_end, upsert, split_line, read_line, or_else, read_lines, from,
}
use mhttp.FieldLines.Lines.{upsert-eq-set, lines, set_line, set_lines}

length-trim_start_by : (p : ℕ → Bool) (s : Bytes) → length (trim_start_by p s) ≤ length s
unfolding trim_start_by
length-trim_start_by p [] = omega arith
length-trim_start_by p (c ∷ s) = ground (arith, length-trim_start_by p s)

length-trim_end_by : (p : ℕ → Bool) (s : Bytes) → length (trim_end_by p s) ≤ length s
unfolding trim_end_by
length-trim_end_by p [] = omega arith
length-trim_end_by p (c ∷ s) = ground (arith, length-trim_end_by p s)

length-trim_ascii : (s : Bytes) → length (trim_ascii s) ≤ length s
unfolding trim_ascii
length-trim_ascii s =
    omega (arith, length-trim_end_by _ (trim_start_by _ s), length-trim_start_by _ s)

split_line_bounds :
    (line n v : Bytes)
    → split_line line ≡ some (n, v)
    → (1 ≤ length n) × (length n + length v + 1 ≤ length line)
unfolding split_line
split_line_bounds line n v h = elim (Option-cases (memchr b':' line)) [
  | inl e ↦ absurd (ground arith)
  | inr (p, e) ↦ ground (
    arith,
    memchr_lt b':' line p e,
    length-trim_ascii (take p line),
    length-trim_ascii (drop (p + 1) line),
    length-take p line,
    length-drop (p + 1) line,
  )
]

Short-mono : (c d : ℕ) (fs : Fields) → c ≤ d → Short c fs → Short d fs
Short-mono c d [] le h = tt
Short-mono c d (f ∷ fs) le (s, h) = (omega arith, Short-mono c d fs le h)

set-Short :
    (c d : ℕ) (fs : Fields) (k v : Bytes)
    → c + length v + 2 ≤ d
    → Short c fs
    → Short d (Fields.set fs k v)
unfolding Fields.set
set-Short c d [] k v le h = (omega arith, tt)
set-Short c d ((n, w) ∷ fs) k v le (s, h) =
    ground (arith, set-Short c d fs k v le h, Short-mono c d fs, length-append w (codes ", " ++ v))

-- What holds when `c` bytes of the block have been read.
record Held (c : ℕ) (fl : FieldLines) (fs : Fields) : Type 0 where
  valid : IsValid fl
  same : contents fl ≡ fs
  short : Short c fs
  small : 2 * length fl.arena ≤ c * c

square_grows : (c l a b : ℕ) → 2 ≤ l → 2 * a ≤ c * c → b ≤ a + c + l → 2 * b ≤ (c + l) * (c + l)
square_grows c l a b two h k = grind arith

Held-mono : (c d : ℕ) {fl : FieldLines} {fs : Fields} → c ≤ d → Held c fl fs → Held d fl fs
Held-mono c d {fl} {fs} le h = record {
  valid = h.valid;
  same = h.same;
  short = Short-mono c d fs le h.short;
  small = let m : c * c ≤ d * d = grind arith in omega (arith, h.small);
}

upsert-Held :
    (c l : ℕ) (fl : FieldLines) (fs : Fields) (k v : Bytes)
    → Held c fl fs
    → 1 ≤ length k
    → length k + length v + 1 ≤ l
    → (c + l) * (c + l) < 2 * u32_mod
    → (fl' : FieldLines) × (upsert fl k v ≡ some fl') × Held (c + l) fl' (Fields.set fs k v)
upsert-Held c l fl fs k v h some_name fits room =
    let total : 2 * (length fl.arena + c + l) ≤ (c + l) * (c + l) =
      square_grows c l (length fl.arena) _ (omega arith) h.small (omega arith) in
    let bridge = upsert-eq-set fl k v h.valid (omega arith) in
    let short = rw (← h.same) at h.short in
    let (fl', run, ok, growth, same) =
      set-grows c fl k v h.valid short (omega arith) (omega arith) in
    let bound : length fl'.arena ≤ length fl.arena + c + l = grind arith in
    (
      fl',
      bridge ∙ run,
      record {
        valid = ok;
        same = same ∙ ap (λ gs. Fields.set gs k v) h.same;
        short = set-Short c (c + l) fs k v (omega arith) h.short;
        small = square_grows c l (length fl.arena) (length fl'.arena) (omega arith) h.small bound;
      },
    )

read_line-Held :
    (c l : ℕ) (fl : FieldLines) (fs : Fields) (line : Bytes)
    → Held c fl fs
    → length line ≤ l
    → (c + l) * (c + l) < 2 * u32_mod
    → (fl' : FieldLines) × (read_line fl line ≡ some fl') × Held (c + l) fl' (set_line fs line)
unfolding read_line set_line
read_line-Held c l fl fs line h fits room =
    let kept = Held-mono c (c + l) (omega arith) h in
    elim (Bool-cases (is_empty line || bytes_eq line (codes "\r"))) [
      | inl skip ↦ rw skip (fl, refl, kept)
      | inr look ↦ rw look (elim (Option-cases (split_line line)) [
        | inl e ↦ rw e (fl, refl, kept)
        | inr ((k, v), e) ↦
            let (some_name, size) = split_line_bounds line k v e in
            rw e (upsert-Held c l fl fs k v h some_name (omega arith) room)
      ])
    ]

-- Up to its end a line is what stands in front of the first newline.
lines-line :
    (c : ℕ) (s : Bytes)
    → let e = or_else (length (c ∷ s)) (memchr b'\n' (c ∷ s)) in
      lines (c ∷ s) ≡ take e (c ∷ s) ∷ lines (drop (e + 1) (c ∷ s))
unfolding lines memchr
lines-line c [] = ground arith
lines-line c (d ∷ s) = ground (arith, lines-line d s, Option-cases (memchr b'\n' (d ∷ s)))

line_end_le : (s : Bytes) → or_else (length s) (memchr b'\n' s) ≤ length s
line_end_le s = elim (Option-cases (memchr b'\n' s)) [
  | inl e ↦ rw e (omega arith)
  | inr (n, e) ↦ rw e (omega (arith, memchr_lt b'\n' s n e))
]

square_le : (a b : ℕ) → a ≤ b → a * a ≤ b * b
square_le a b h = grind arith

read_lines-Held :
    (fuel c n : ℕ) (rest : Bytes) (fl : FieldLines) (fs : Fields)
    → length rest ≤ fuel
    → c + length rest ≤ n
    → n * n < 2 * u32_mod
    → Held c fl fs
    → (fl' : FieldLines) × (read_lines fuel rest fl ≡ some fl')
      × IsValid fl'
      × (contents fl' ≡ set_lines fs (lines rest))
unfolding read_lines set_lines lines
read_lines-Held zero c n [] fl fs enough total room h = (fl, refl, h.valid, h.same)
read_lines-Held zero c n (b ∷ s) fl fs enough total room h = absurd (omega arith)
read_lines-Held (suc fuel) c n [] fl fs enough total room h = (fl, refl, h.valid, h.same)
read_lines-Held (suc fuel) c n (b ∷ s) fl fs enough total room h =
    let e : ℕ = or_else (length (b ∷ s)) (memchr b'\n' (b ∷ s)) in
    let inside : e ≤ length (b ∷ s) = line_end_le (b ∷ s) in
    let line = take e (b ∷ s) in
    let rest = drop (e + 1) (b ∷ s) in
    let square : (c + e) * (c + e) ≤ n * n = square_le (c + e) n (omega arith) in
    let (next, run, held) =
      read_line-Held c e fl fs line h (omega (arith, length-take e (b ∷ s))) (omega arith) in
    let (fl', runs, valid, same) =
      read_lines-Held fuel (c + e) n rest next (set_line fs line)
        (omega (arith, length-drop (e + 1) (b ∷ s))) (omega (arith, length-drop (e + 1) (b ∷ s)))
        room held in
    (fl', rw run runs, valid, same ∙ ap (set_lines fs) (sym (lines-line b s)))

length-cut_end : (bytes : Bytes) → length (cut_end bytes) ≤ length bytes
unfolding cut_end
length-cut_end bytes = ground (
  arith,
  length-take (length bytes - 4) bytes,
  length-take (length bytes - 2) bytes,
  length-take (length bytes - 1) bytes,
)

-- A block of n bytes with n * n < 2 ^ 33 is read without a panic or an index that wraps around: the
-- result is valid, and holds what setting its header lines in order, one by one, would give.
pub from-refines :
    (bytes : Bytes)
    → length bytes * length bytes < 2 * u32_mod
    → (fl : FieldLines) × (from bytes ≡ some fl)
      × IsValid fl
      × (contents fl ≡ set_lines [] (lines (cut_end bytes)))
unfolding from
from-refines bytes room =
    let shorter = length-cut_end bytes in
    read_lines-Held (length (cut_end bytes)) 0 (length bytes) (cut_end bytes) new [] (omega arith)
      (omega arith) room
      (record {
        valid = new-IsValid;
        same = unfold new in refl;
        short = tt;
        small = unfold new in omega arith;
      })
