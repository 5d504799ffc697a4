-- ===== src/FieldLines/Entries.antt =====
-- Entries of src/field_lines.rs against the arena: finding one, moving one's value, adding one.
use mhttp.Common.{
  ℕ, zero, suc, ◌+◌, ◌-◌, ◌%◌, ◌≤◌, ◌<◌, ◌≡◌, refl, ap, ◌∙◌, some, List, [], ◌∷◌, ◌++◌, map,
  append_assoc, arith, Bytes, codes, length, get_elem?, All, All-append, length-append, Bool-cases,
  inl, inr, make_ascii_lowercase, eq_ignore_ascii_case,
}
use mhttp.FieldLines.{
  u32_mod, Entry, FieldLines, position, relocate, append_value, push_header, new,
}
use mhttp.FieldLines.Index.{index_of, extend_at}
use mhttp.FieldLines.Slices.{
  sub_text, InRange, field_of, contents, IsValid, name_of_inside, sub_text-append, sub_text_end,
  sub_text_last, length-sub_text, map-field_of-append, InRange-mono, get_inside, copy_loop-sub_text,
}

pub new-IsValid : IsValid new
unfolding new
new-IsValid = record { fits = omega arith; inside = tt }

pub position-index_of :
    (arena k : Bytes) (es : List Entry)
    → length arena < u32_mod
    → All (InRange (length arena)) es
    → position arena k es ≡ some (index_of (map (field_of arena) es) k)
unfolding position index_of
position-index_of arena k [] small h = refl
position-index_of arena k (e ∷ es) small (r, h) =
    rw (name_of_inside arena e small r, position-index_of arena k es small h) (ground arith)

-- A position that was found is that of an entry.
pub index_of_get :
    (arena k : Bytes) (es : List Entry) (i : ℕ)
    → index_of (map (field_of arena) es) k ≡ some i
    → (e : Entry) × (get_elem? es i ≡ some e)
unfolding index_of
index_of_get arena k [] i h = cc
index_of_get arena k (e ∷ es) zero h = (e, refl)
index_of_get arena k (e ∷ es) (suc i) h =
    elim (Bool-cases (eq_ignore_ascii_case (field_of arena e).0 k)) [
      | inl same ↦ absurd (ground arith)
      | inr other ↦ index_of_get arena k es i (ground arith)
    ]

module _ (arena t v : Bytes) (start len : ℕ) where
  relocate-extend_at :
      (es : List Entry) (i : ℕ) (e : Entry)
      → get_elem? es i ≡ some e
      → All (InRange (length arena)) es
      → sub_text (arena ++ t) start len ≡ (field_of arena e).1 ++ (codes ", " ++ v)
      → map (field_of (arena ++ t)) (relocate i start len es)
        ≡ extend_at i v (map (field_of arena) es)
  unfolding relocate extend_at
  relocate-extend_at [] i e got h here = cc
  relocate-extend_at (x ∷ es) zero e got (r, h) here =
      let same : x ≡ e = ground arith in
      let name = sub_text-append arena t x.name_start x.name_len r.name in
      rw (map-field_of-append arena t es h, here, name, same)
  relocate-extend_at (x ∷ es) (suc i) e got (r, h) here =
      let first = map-field_of-append arena t (x ∷ []) (r, tt) in
      rw (relocate-extend_at es i e got h here) (ground (arith, first))

  relocate-InRange :
      (n : ℕ) (es : List Entry) (i : ℕ)
      → start + len ≤ n
      → All (InRange n) es
      → All (InRange n) (relocate i start len es)
  unfolding relocate
  relocate-InRange n [] i fits h = tt
  relocate-InRange n (x ∷ es) zero fits (r, h) = (record { name = r.name; value = fits }, h)
  relocate-InRange n (x ∷ es) (suc i) fits (r, h) = (r, relocate-InRange n es i fits h)

-- `append_value` joins the new value to the old one with ", ".
pub append_value-extend_at :
    (fl : FieldLines) (i : ℕ) (e : Entry) (v : Bytes)
    → IsValid fl
    → length fl.arena + e.value_len + length v + 2 < u32_mod
    → get_elem? fl.headers i ≡ some e
    → (fl' : FieldLines) × (append_value fl i v ≡ some fl')
      × IsValid fl'
      × (length fl'.arena ≡ length fl.arena + e.value_len + length v + 2)
      × (contents fl' ≡ extend_at i v (contents fl))
unfolding append_value
append_value-extend_at fl i e v valid room got =
    let r : InRange (length fl.arena) e = get_inside _ i fl.headers e got valid.inside in
    let old = sub_text fl.arena e.value_start e.value_len in
    let t : Bytes = old ++ (codes ", " ++ v) in
    let copied = copy_loop-sub_text e.value_len e.value_start fl.arena r.value in
    let regroup : (fl.arena ++ old) ++ (codes ", " ++ v) ≡ fl.arena ++ t =
      append_assoc fl.arena old _ in
    let width : length t ≡ e.value_len + (2 + length v) = omega (
      arith,
      length-append old (codes ", " ++ v),
      length-sub_text fl.arena e.value_start e.value_len r.value,
    ) in
    let all : length (fl.arena ++ t) ≡ length fl.arena + length t = length-append fl.arena t in
    let start : length fl.arena % u32_mod ≡ length fl.arena = omega (arith, valid.fits) in
    let size : (length (fl.arena ++ t) % u32_mod + u32_mod - length fl.arena) % u32_mod ≡ length t =
      omega (arith, r.value) in
    let here : sub_text (fl.arena ++ t) (length fl.arena) (length t) ≡ t =
      sub_text_last fl.arena t in
    (
      record {
        arena = fl.arena ++ t;
        headers = relocate i (length fl.arena) (length t) fl.headers;
      },
      rw (got, copied, regroup, start, size),
      record {
        fits = omega (arith, r.value);
        inside =
            relocate-InRange fl.arena t v (length fl.arena) (length t) _ fl.headers i (omega arith)
              (InRange-mono _ _ fl.headers (omega arith) valid.inside);
      },
      omega arith,
      relocate-extend_at fl.arena t v (length fl.arena) (length t) fl.headers i e got valid.inside
          here,
    )

pub length-lowercase : (s : Bytes) → length (make_ascii_lowercase s) ≡ length s
length-lowercase [] = refl
length-lowercase (c ∷ s) = ap suc (length-lowercase s)

pub map_concat {ℓ κ} :
    {A : Type ℓ} {B : Type κ} (f : A → B) (xs : List A) (x : A)
    → map f (xs ++ x ∷ []) ≡ map f xs ++ f x ∷ []
map_concat f [] x = refl
map_concat f (y ∷ xs) x = ap (◌∷◌ (f y)) (map_concat f xs x)

-- `push_header` adds the header, its name in lower case, behind the others.
pub push_header-concat :
    (fl : FieldLines) (k v : Bytes)
    → IsValid fl
    → length fl.arena + length k + length v < u32_mod
    → IsValid (push_header fl k v)
      × (length (push_header fl k v).arena ≡ length fl.arena + length k + length v)
      × (contents (push_header fl k v) ≡ contents fl ++ (make_ascii_lowercase k, v) ∷ [])
unfolding push_header
push_header-concat fl k v valid room =
    let low = make_ascii_lowercase k in
    let a = fl.arena in
    let named : length (a ++ low) ≡ length a + length k =
      omega (arith, length-append a low, length-lowercase k) in
    let grown : length ((a ++ low) ++ v) ≡ length a + length k + length v =
      omega (arith, length-append (a ++ low) v) in
    let e1 : length a % u32_mod ≡ length a = omega arith in
    let e2 : length k % u32_mod ≡ length low = omega (arith, length-lowercase k) in
    let e3 : length (a ++ low) % u32_mod ≡ length (a ++ low) = omega arith in
    let e4 : length v % u32_mod ≡ length v = omega arith in
    let e : Entry = record {
      name_start = length a;
      name_len = length low;
      value_start = length (a ++ low);
      value_len = length v;
    } in
    let name : sub_text ((a ++ low) ++ v) (length a) (length low) ≡ low =
      rw (append_assoc a low v) (sub_text_end a low v) in
    let value = sub_text_last (a ++ low) v in
    let old : map (field_of ((a ++ low) ++ v)) fl.headers ≡ contents fl =
      rw (append_assoc a low v) (map-field_of-append a (low ++ v) fl.headers valid.inside) in
    rw (e1, e2, e3, e4)
      (
        record {
          fits = omega arith;
          inside =
              All-append _ fl.headers (e ∷ [])
                (InRange-mono _ _ fl.headers (omega arith) valid.inside)
                (record { name = omega (arith, length-lowercase k); value = omega arith }, tt);
        },
        grown,
        map_concat _ fl.headers e ∙ λ i. old i ++ (name i, value i) ∷ [],
      )
