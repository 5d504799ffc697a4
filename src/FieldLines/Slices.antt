-- ===== src/FieldLines/Slices.antt =====
-- Reading the arena: slices inside it do not panic, and appending leaves them as they were.
use mhttp.Common.{
  ℕ, zero, suc, ◌+◌, ◌-◌, ◌%◌, ◌≤◌, ◌<◌, ◌≡◌, refl, sym, ap, ◌∙◌, some, List, [], ◌∷◌, ◌++◌, map,
  append_assoc, append-nil, arith, Bytes, length, take, drop, get_elem?, All, length-append,
  length-drop, take-append_le, drop-append_le, drop-append, take-append, le→leb,
}
use native.Mathlib.Numerals.{add-one}
use mhttp.FieldLines.{u32_mod, Entry, FieldLines, slice, name_of, value_of, copy_loop}
use mhttp.FieldLines.Fields.{Fields}

-- `len` bytes from `start`
abbrev pub sub_text : Bytes → ℕ → ℕ → Bytes
sub_text s start len = take len (drop start s)

pub record InRange (n : ℕ) (e : Entry) : Type 0 where
  pub name : e.name_start + e.name_len ≤ n
  pub value : e.value_start + e.value_len ≤ n

abbrev pub field_of : Bytes → Entry → Bytes × Bytes
field_of arena e =
    (sub_text arena e.name_start e.name_len, sub_text arena e.value_start e.value_len)

abbrev pub contents : FieldLines → Fields
contents fl = map (field_of fl.arena) fl.headers

-- Every index is inside the arena, which u32 can index.
pub record IsValid (fl : FieldLines) : Type 0 where
  pub fits : length fl.arena < u32_mod
  pub inside : All (InRange (length fl.arena)) fl.headers

pub slice_inside :
    (s : Bytes) (a l : ℕ) → a + l ≤ length s → slice s a (a + l) ≡ some (sub_text s a l)
unfolding slice
slice_inside s a l h =
    let width : a + l - a ≡ l = omega arith in
    rw (le→leb a (a + l) (omega arith), le→leb _ _ h, width)

pub name_of_inside :
    (s : Bytes) (e : Entry)
    → length s < u32_mod
    → InRange (length s) e
    → name_of s e ≡ some (sub_text s e.name_start e.name_len)
unfolding name_of
name_of_inside s e small r =
    let exact : (e.name_start + e.name_len) % u32_mod ≡ e.name_start + e.name_len = omega arith in
    rw exact (slice_inside s e.name_start e.name_len r.name)

pub value_of_inside :
    (s : Bytes) (e : Entry)
    → length s < u32_mod
    → InRange (length s) e
    → value_of s e ≡ some (sub_text s e.value_start e.value_len)
unfolding value_of
value_of_inside s e small r =
    let exact : (e.value_start + e.value_len) % u32_mod ≡ e.value_start + e.value_len =
      omega arith in
    rw exact (slice_inside s e.value_start e.value_len r.value)

pub sub_text-append :
    (s t : Bytes) (a l : ℕ) → a + l ≤ length s → sub_text (s ++ t) a l ≡ sub_text s a l
sub_text-append s t a l h =
    ap (take l) (drop-append_le a s t (omega arith))
    ∙ take-append_le l (drop a s) t (omega (arith, length-drop a s))

-- What was appended is found behind the old end.
pub sub_text_end : (s t u : Bytes) → sub_text (s ++ (t ++ u)) (length s) (length t) ≡ t
sub_text_end s t u = rw (drop-append s (t ++ u)) (take-append t u)

pub sub_text_last : (s t : Bytes) → sub_text (s ++ t) (length s) (length t) ≡ t
sub_text_last s t =
    ap (λ u. sub_text (s ++ u) (length s) (length t)) (sym (append-nil t)) ∙ sub_text_end s t []

pub length-sub_text : (s : Bytes) (a l : ℕ) → a + l ≤ length s → length (sub_text s a l) ≡ l
length-sub_text s a zero h = refl
length-sub_text s zero (suc l) h = go s l (omega arith)
  where
    go : (t : Bytes) (n : ℕ) → suc n ≤ length t → length (take (suc n) t) ≡ suc n
    go [] n h = absurd (omega arith)
    go (x ∷ t) zero h = refl
    go (x ∷ t) (suc n) h = ap suc (go t n (omega arith))
length-sub_text [] (suc a) (suc l) h = absurd (omega arith)
length-sub_text (x ∷ s) (suc a) (suc l) h = length-sub_text s a (suc l) (omega arith)

field_of-append :
    (s t : Bytes) (e : Entry) → InRange (length s) e → field_of (s ++ t) e ≡ field_of s e
field_of-append s t e r = λ i. (
  sub_text-append s t e.name_start e.name_len r.name i,
  sub_text-append s t e.value_start e.value_len r.value i,
)

pub map-field_of-append :
    (s t : Bytes) (es : List Entry)
    → All (InRange (length s)) es
    → map (field_of (s ++ t)) es ≡ map (field_of s) es
map-field_of-append s t [] h = refl
map-field_of-append s t (e ∷ es) (r, h) =
    λ i. field_of-append s t e r i ∷ map-field_of-append s t es h i

pub InRange-mono : (m n : ℕ) (es : List Entry) → m ≤ n → All (InRange m) es → All (InRange n) es
InRange-mono m n [] le h = tt
InRange-mono m n (e ∷ es) le (r, h) =
    (record { name = omega arith; value = omega arith }, InRange-mono m n es le h)

pub get_inside :
    (n i : ℕ) (es : List Entry) (e : Entry)
    → get_elem? es i ≡ some e
    → All (InRange n) es
    → InRange n e
get_inside n i [] e got h = cc
get_inside n zero (x ∷ es) e got (r, h) = ground arith
get_inside n (suc i) (x ∷ es) e got (r, h) = get_inside n i es e got h

drop_get {ℓ} :
    {A : Type ℓ} (s : List A) (p : ℕ)
    → p < length s
    → (b : A) × (get_elem? s p ≡ some b) × (drop p s ≡ b ∷ drop (suc p) s)
drop_get [] p h = absurd (omega arith)
drop_get (x ∷ s) zero h = (x, refl, refl)
drop_get (x ∷ s) (suc p) h = drop_get s p (omega arith)

-- The byte by byte copy appends the slice.
pub copy_loop-sub_text :
    (n p : ℕ) (s : Bytes) → p + n ≤ length s → copy_loop n p s ≡ some (s ++ sub_text s p n)
unfolding copy_loop
copy_loop-sub_text zero p s h = ap some (sym (append-nil s))
copy_loop-sub_text (suc n) p s h =
    let (b, got, split) = drop_get s p (omega arith) in
    let rest : sub_text (s ++ b ∷ []) (suc p) n ≡ sub_text s (suc p) n =
      sub_text-append s (b ∷ []) (suc p) n (omega arith) in
    rw (got, split, add-one)
      (copy_loop-sub_text n (suc p) (s ++ b ∷ []) (omega (arith, length-append {0} s (b ∷ [])))
        ∙ rw (rest, append_assoc))
