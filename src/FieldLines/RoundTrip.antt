-- ===== src/FieldLines/RoundTrip.antt =====
-- Reading back what `to_bytes` of src/field_lines.rs prints.
use mhttp.Common.{
  memchr_first, ℕ, ◌+◌, ◌*◌, ◌-◌, ◌<◌, ◌≡◌, refl, sym, ap, ◌∙◌, Bool, true, false, ◌||◌, some, none,
  [], ◌∷◌, ◌++◌, append_assoc, append-nil, arith, Bytes, codes, ◌==◌, length, drop, is_empty, All,
  All-append, Lacks, bytes_eq, bytes_eq_refl, make_ascii_lowercase, length-append, trim_start_by,
  trim_end_by, ends_with, drop_past, drop-append, take-append,
}
use mhttp.Common.Utf8.{is_utf8}
use mhttp.FieldLines.{u32_mod, FieldLines}
use mhttp.FieldLines.Fields
use mhttp.FieldLines.Fields.{Fields}
use mhttp.FieldLines.Slices.{contents, IsValid}
use mhttp.FieldLines.Parse.{trim_ascii, cut_end, split_line, from}
use mhttp.FieldLines.Lines.{lines, set_line, set_lines}
use mhttp.FieldLines.Block.{from-refines}

-- A field that a line can carry: a name in lower case with no colon, no newline and no space round
-- it, and a value with no newline and no space round it, both valid texts.
pub record IsClean (f : Bytes × Bytes) : Type 0 where
  pub named : is_empty f.0 ≡ false
  pub lower : make_ascii_lowercase f.0 ≡ f.0
  pub no_colon : Lacks b':' f.0
  pub name_line : Lacks b'\n' f.0
  pub value_line : Lacks b'\n' f.1
  pub name_trim : trim_ascii f.0 ≡ f.0
  pub value_trim : trim_ascii f.1 ≡ f.1
  pub name_text : is_utf8 f.0 ≡ true
  pub value_text : is_utf8 f.1 ≡ true

-- No name comes twice, nor one of the fields in front.
abbrev pub Fresh : Fields → Fields → Type 0
Fresh acc [] = Unit
Fresh acc ((n, v) ∷ fs) = (Fields.get acc n ≡ none) × Fresh (acc ++ (n, v) ∷ []) fs

set_new :
    (fs : Fields) (n v : Bytes)
    → Fields.get fs n ≡ none
    → make_ascii_lowercase n ≡ n
    → Fields.set fs n v ≡ fs ++ (n, v) ∷ []
unfolding Fields.set Fields.get
set_new [] n v new lower = rw lower
set_new ((m, w) ∷ fs) n v new lower = ground (arith, set_new fs n v)

trim_end_concat :
    (p : ℕ → Bool) (s : Bytes) (c : ℕ) → p c ≡ true → trim_end_by p (s ++ c ∷ []) ≡ trim_end_by p s
unfolding trim_end_by
trim_end_concat p [] c h = rw h
trim_end_concat p (b ∷ s) c h = rw (trim_end_concat p s c h)

-- A carriage return behind a value is trimmed.
trim_ascii_cr : (s : Bytes) → trim_ascii (s ++ b'\r' ∷ []) ≡ trim_ascii s
unfolding trim_ascii trim_start_by
trim_ascii_cr [] = unfold trim_end_by in refl
trim_ascii_cr (b ∷ s) =
    let rest = trim_ascii_cr s in
    ground
      (arith, rest, trim_end_concat (λ c. c == b' ' || c == b'\t' || c == b'\r') (b ∷ s) b'\r' refl)

trim_ascii_blank : (s : Bytes) → trim_ascii (b' ' ∷ s) ≡ trim_ascii s
unfolding trim_ascii trim_start_by
trim_ascii_blank s = refl

-- A printed field without its line end.
abbrev line_of : Bytes × Bytes → Bytes
line_of f = f.0 ++ (codes ": " ++ f.1)

split_line_of :
    (f : Bytes × Bytes) (tail : Bytes)
    → IsClean f
    → trim_ascii (f.1 ++ tail) ≡ f.1
    → split_line (f.0 ++ (codes ": " ++ (f.1 ++ tail))) ≡ some f
unfolding split_line
split_line_of f tail clean trims =
    let rest : Bytes = b' ' ∷ (f.1 ++ tail) in
    let colon = memchr_first b':' f.0 rest clean.no_colon in
    let name = take-append f.0 (b':' ∷ rest) in
    let value : drop (length f.0 + 1) (f.0 ++ b':' ∷ rest) ≡ rest = drop_past f.0 b':' rest in
    rw (split_line, colon, name, value, clean.name_trim, trim_ascii_blank (f.1 ++ tail), trims)
      (ground arith)

not_skipped :
    (s : Bytes) (c d : ℕ) (t : Bytes)
    → (is_empty (s ++ c ∷ d ∷ t) || bytes_eq (s ++ c ∷ d ∷ t) (codes "\r")) ≡ false
unfolding bytes_eq
not_skipped [] c d t = ground arith
not_skipped (x ∷ []) c d t = ground arith
not_skipped (x ∷ y ∷ s) c d t = ground arith

set_line_of :
    (fs : Fields) (f : Bytes × Bytes) (tail : Bytes)
    → IsClean f
    → trim_ascii (f.1 ++ tail) ≡ f.1
    → Fields.get fs f.0 ≡ none
    → set_line fs (f.0 ++ (codes ": " ++ (f.1 ++ tail))) ≡ fs ++ f ∷ []
unfolding set_line
set_line_of fs f tail clean trims new =
    let read = split_line_of f tail clean trims in
    let looked = not_skipped f.0 b':' b' ' (f.1 ++ tail) in
    rw (looked, read) (set_new fs f.0 f.1 new clean.lower)

lines_cons : (s t : Bytes) → Lacks b'\n' s → lines (s ++ b'\n' ∷ t) ≡ s ∷ lines t
unfolding lines
lines_cons [] t h = refl
lines_cons (c ∷ s) t (p, h) = ground (arith, lines_cons s t h)

lines_last : (c : ℕ) (s : Bytes) → Lacks b'\n' (c ∷ s) → lines (c ∷ s) ≡ (c ∷ s) ∷ []
unfolding lines
lines_last c [] (p, h) = ground arith
lines_last c (d ∷ s) (p, h) = ground (arith, lines_last d s h)

Lacks-line_of :
    (f : Bytes × Bytes) (tail : Bytes)
    → IsClean f
    → Lacks b'\n' tail
    → Lacks b'\n' (f.0 ++ (codes ": " ++ (f.1 ++ tail)))
Lacks-line_of f tail clean h =
    All-append _ f.0 _ clean.name_line
      (omega arith, (omega arith, All-append _ f.1 tail clean.value_line h))

lines_last_of :
    (s : Bytes) (c : ℕ) (t : Bytes)
    → Lacks b'\n' (s ++ c ∷ t)
    → lines (s ++ c ∷ t) ≡ (s ++ c ∷ t) ∷ []
lines_last_of [] c t h = lines_last c t h
lines_last_of (x ∷ s) c t h = lines_last x (s ++ c ∷ t) h

-- The printed fields without the last line end.
body : Fields → Bytes
body [] = []
body (f ∷ []) = f.0 ++ (codes ": " ++ (f.1 ++ []))
body (f ∷ g ∷ fs) = (f.0 ++ (codes ": " ++ (f.1 ++ codes "\r"))) ++ b'\n' ∷ body (g ∷ fs)

set_lines-body :
    (acc fs : Fields) → All IsClean fs → Fresh acc fs → set_lines acc (lines (body fs)) ≡ acc ++ fs
unfolding body set_lines
set_lines-body acc [] clean fresh = unfold lines in sym (append-nil acc)
set_lines-body acc (f ∷ []) (clean, _) (new, _) =
    rw (lines_last_of f.0 b':' (b' ' ∷ (f.1 ++ [])) (Lacks-line_of f [] clean tt))
      (set_line_of acc f [] clean (rw append-nil clean.value_trim) new)
set_lines-body acc (f ∷ g ∷ fs) (clean, more) (new, fresh) =
    let cr : trim_ascii (f.1 ++ codes "\r") ≡ f.1 = trim_ascii_cr f.1 ∙ clean.value_trim in
    rw
      (
        lines_cons (f.0 ++ (codes ": " ++ (f.1 ++ codes "\r"))) (body (g ∷ fs))
            (Lacks-line_of f (codes "\r") clean (omega arith, tt)),
        set_lines,
        set_line_of acc f (codes "\r") clean cr new,
      )
      (set_lines-body (acc ++ f ∷ []) (g ∷ fs) more fresh ∙ append_assoc acc (f ∷ []) (g ∷ fs))

print-body :
    (f : Bytes × Bytes) (fs : Fields) → Fields.print (f ∷ fs) ≡ body (f ∷ fs) ++ codes "\r\n"
unfolding Fields.print body
print-body f [] = simp (append_assoc, append-nil)
print-body f (g ∷ fs) = rw (print-body g fs) (simp append_assoc)

pub ends_with-append : (s t : Bytes) → ends_with (s ++ t) t ≡ true
unfolding ends_with
ends_with-append s t =
    let n : length (s ++ t) - length t ≡ length s = omega (arith, length-append s t) in
    rw (n, drop-append s t, bytes_eq_refl t) (ground (arith, length-append s t))

-- The empty line behind the last header is cut with its line end.
cut_end_crlf : (s : Bytes) → cut_end ((s ++ codes "\r\n") ++ codes "\r\n") ≡ s
unfolding cut_end
cut_end_crlf s =
    let regroup : (s ++ codes "\r\n") ++ codes "\r\n" ≡ s ++ codes "\r\n\r\n" =
      append_assoc s _ _ in
    let n : length (s ++ codes "\r\n\r\n") - 4 ≡ length s =
      omega (arith, length-append s (codes "\r\n\r\n")) in
    rw (regroup, ends_with-append s (codes "\r\n\r\n"), n) (take-append s (codes "\r\n\r\n"))

-- Clean fields with different names, printed and closed by an empty line, are read back as they
-- were, if the text is short enough for the arena.
pub from-print :
    (fs : Fields)
    → All IsClean fs
    → Fresh [] fs
    → length (Fields.print fs ++ codes "\r\n") * length (Fields.print fs ++ codes "\r\n")
      < 2 * u32_mod
    → (fl : FieldLines) × (from (Fields.print fs ++ codes "\r\n") ≡ some fl)
      × IsValid fl
      × (contents fl ≡ fs)
from-print [] clean fresh room =
    let (fl, run, valid, same) = from-refines (Fields.print [] ++ codes "\r\n") room in
    (fl, run, valid, same ∙ unfold Fields.print cut_end lines set_lines in refl)
from-print (f ∷ fs) clean fresh room =
    let (fl, run, valid, same) = from-refines (Fields.print (f ∷ fs) ++ codes "\r\n") room in
    let cut : cut_end (Fields.print (f ∷ fs) ++ codes "\r\n") ≡ body (f ∷ fs) =
      rw (print-body f fs) (cut_end_crlf (body (f ∷ fs))) in
    (
      fl,
      run,
      valid,
      same ∙ (ap (λ s. set_lines [] (lines s)) cut ∙ set_lines-body [] (f ∷ fs) clean fresh),
    )
