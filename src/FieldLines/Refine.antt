-- ===== src/FieldLines/Refine.antt =====
-- The arena of src/field_lines.rs implements `Fields`: no operation panics, each keeps the indices
-- inside the arena, and each does to the contents what its counterpart on lists does.
use mhttp.Common.{
  ℕ, zero, suc, ◌+◌, ◌*◌, ◌≤◌, ◌<◌, ◌≡◌, refl, sym, ap, ◌∙◌, Option, none, some, List, [], ◌∷◌,
  ◌++◌, map, append_assoc, append-nil, arith, Bytes, if◌then◌else◌, length, get_elem?, All, ◌⊎◌,
  Bool-cases, Option-cases, inl, inr, eq_ignore_ascii_case,
}
use mhttp.Common.Utf8.{is_utf8}
use mhttp.FieldLines.{
  u32_mod, Entry, FieldLines, push_header, set, get_in, get, remove_at, remove, iter_in, iter,
  to_bytes_in, to_bytes,
}
use mhttp.FieldLines.Fields
use mhttp.FieldLines.Fields.{Fields}
use mhttp.FieldLines.Index.{index_of, set-eq-set_by, remove-eq-remove_by}
use mhttp.FieldLines.Slices.{
  InRange, field_of, contents, IsValid, name_of_inside, value_of_inside, get_inside,
  length-sub_text,
}
use mhttp.FieldLines.Entries.{
  position-index_of, index_of_get, append_value-extend_at, push_header-concat,
}

-- The length of every value is at most `c`.
abbrev pub Short : ℕ → Fields → Type 0
Short c = All (λ f. length f.1 ≤ c)

get-Short :
    (c n i : ℕ) (arena : Bytes) (es : List Entry) (e : Entry)
    → n ≡ length arena
    → All (InRange n) es
    → Short c (map (field_of arena) es)
    → get_elem? es i ≡ some e
    → e.value_len ≤ c
get-Short c n i arena [] e size h short got = cc
get-Short c n zero arena (x ∷ es) e size (r, h) (s, short) got =
    let same : x ≡ e = ground arith in
    let bound : x.value_len ≤ c =
      omega (
        arith,
        r.value,
        length-sub_text arena x.value_start x.value_len (omega (arith, r.value)),
      ) in
    rw (← same) bound
get-Short c n (suc i) arena (x ∷ es) e size (r, h) (s, short) got =
    get-Short c n i arena es e size h short got

-- `set`, with the growth of the arena, where no value is longer than `c`
pub set-grows :
    (c : ℕ) (fl : FieldLines) (k v : Bytes)
    → IsValid fl
    → Short c (contents fl)
    → length fl.arena + c + length v + 2 < u32_mod
    → length fl.arena + length k + length v < u32_mod
    → (fl' : FieldLines) × (set fl k v ≡ some fl')
      × IsValid fl'
      × ((length fl'.arena ≤ length fl.arena + c + length v + 2)
          ⊎ (length fl'.arena ≤ length fl.arena + length k + length v))
      × (contents fl' ≡ Fields.set (contents fl) k v)
unfolding set
set-grows c fl k v valid short room place =
    let at = position-index_of fl.arena k fl.headers valid.fits valid.inside in
    let spec = set-eq-set_by (contents fl) k v in
    elim (Option-cases (index_of (contents fl) k)) [
      | inl e ↦
          let (ok, size, same) = push_header-concat fl k v valid (omega arith) in
          (push_header fl k v, rw (at, e), ok, inr (omega arith), same ∙ sym (rw e at spec))
      | inr (i, e) ↦
          let (entry, got) = index_of_get fl.arena k fl.headers i e in
          let width = get-Short c _ i fl.arena fl.headers entry refl valid.inside short got in
          let (fl', run, ok, size, same) =
            append_value-extend_at fl i entry v valid (omega arith) got in
          (fl', rw (at, e) run, ok, inl (omega arith), same ∙ sym (rw e at spec))
    ]

contents-Short :
    (n : ℕ) (arena : Bytes) (es : List Entry)
    → n ≡ length arena
    → All (InRange n) es
    → Short n (map (field_of arena) es)
contents-Short n arena [] size h = tt
contents-Short n arena (e ∷ es) size (r, h) = (
  omega (arith, r.value, length-sub_text arena e.value_start e.value_len (omega (arith, r.value))),
  contents-Short n arena es size h,
)

-- `set` on an arena with room for the new text does not panic, keeps it valid, and joins the value
-- to an equally named header, or adds the header behind the others with its name in lower case.
pub set-refines :
    (fl : FieldLines) (k v : Bytes)
    → IsValid fl
    → 2 * length fl.arena + length k + length v + 2 < u32_mod
    → (fl' : FieldLines) × (set fl k v ≡ some fl')
      × IsValid fl'
      × (contents fl' ≡ Fields.set (contents fl) k v)
set-refines fl k v valid room =
    let short = contents-Short _ fl.arena fl.headers refl valid.inside in
    let (fl', run, ok, _, same) =
      set-grows (length fl.arena) fl k v valid short (omega arith) (omega arith) in
    (fl', run, ok, same)

get_in-refines :
    (arena k : Bytes) (es : List Entry)
    → length arena < u32_mod
    → All (InRange (length arena)) es
    → get_in arena k es ≡ some (Fields.get (map (field_of arena) es) k)
unfolding get_in Fields.get
get_in-refines arena k [] small h = refl
get_in-refines arena k (e ∷ es) small (r, h) =
    rw
      (
        name_of_inside arena e small r,
        value_of_inside arena e small r,
        get_in-refines arena k es small h,
      )
      (ground arith)

-- `get` on a valid arena does not panic, and finds the value of the first equally named header.
pub get-refines :
    (fl : FieldLines) (k : Bytes) → IsValid fl → get fl k ≡ some (Fields.get (contents fl) k)
unfolding get
get-refines fl k valid = get_in-refines fl.arena k fl.headers valid.fits valid.inside

-- `String::from_utf8(v).ok()`
abbrev pub checked : Option Bytes → Option Bytes
checked none = none
checked (some v) = if is_utf8 v then some v else none

remove_at-InRange :
    (n i : ℕ) (es : List Entry) → All (InRange n) es → All (InRange n) (remove_at i es)
unfolding remove_at
remove_at-InRange n i [] h = tt
remove_at-InRange n zero (e ∷ es) (r, h) = h
remove_at-InRange n (suc i) (e ∷ es) (r, h) = (r, remove_at-InRange n i es h)

remove_at-map {ℓ κ} :
    {A : Type ℓ} {B : Type κ} (f : A → B) (i : ℕ) (xs : List A)
    → map f (remove_at i xs) ≡ remove_at i (map f xs)
unfolding remove_at
remove_at-map f i [] = refl
remove_at-map f zero (x ∷ xs) = refl
remove_at-map f (suc i) (x ∷ xs) = ap (◌∷◌ (f x)) (remove_at-map f i xs)

-- `get` by the position of the header
get-index_of :
    (arena k : Bytes) (es : List Entry) (i : ℕ) (e : Entry)
    → index_of (map (field_of arena) es) k ≡ some i
    → get_elem? es i ≡ some e
    → Fields.get (map (field_of arena) es) k ≡ some (field_of arena e).1
unfolding Fields.get index_of
get-index_of arena k [] i e h got = cc
get-index_of arena k (x ∷ es) zero e h got =
    elim (Bool-cases (eq_ignore_ascii_case (field_of arena x).0 k)) [
      | inl same ↦
          rw same (ap (λ o. elim o [ none ↦ none | some y ↦ some (field_of arena y).1 ]) got)
      | inr other ↦ absurd (ground (arith, Option-cases (index_of (map (field_of arena) es) k)))
    ]
get-index_of arena k (x ∷ es) (suc i) e h got =
    elim (Bool-cases (eq_ignore_ascii_case (field_of arena x).0 k)) [
      | inl same ↦ absurd (ground arith)
      | inr other ↦ rw other (get-index_of arena k es i e (ground arith) got)
    ]

get_of_no_index : (fs : Fields) (k : Bytes) → index_of fs k ≡ none → Fields.get fs k ≡ none
unfolding Fields.get index_of
get_of_no_index [] k h = refl
get_of_no_index ((n, w) ∷ fs) k h = ground (arith, get_of_no_index fs k)

-- `remove` does not panic; it takes the first equally named header out, and returns its value if
-- that is a text.
pub remove-refines :
    (fl : FieldLines) (k : Bytes)
    → IsValid fl
    → (fl' : FieldLines) × (remove fl k ≡ some (fl', checked (Fields.get (contents fl) k)))
      × IsValid fl'
      × (contents fl' ≡ Fields.remove (contents fl) k)
unfolding remove
remove-refines fl k valid =
    let at = position-index_of fl.arena k fl.headers valid.fits valid.inside in
    let spec = remove-eq-remove_by (contents fl) k in
    elim (Option-cases (index_of (contents fl) k)) [
      | inl e ↦
          let missing = get_of_no_index (contents fl) k e in
          (fl, rw (at, e, missing), valid, sym (rw e at spec))
      | inr (i, e) ↦
          let (entry, got) = index_of_get fl.arena k fl.headers i e in
          let found = get-index_of fl.arena k fl.headers i entry e got in
          let value =
            value_of_inside fl.arena entry valid.fits
              (get_inside _ i fl.headers entry got valid.inside) in
          (
            record fl { headers = remove_at i fl.headers },
            rw (at, e, got, value, found),
            record { fits = valid.fits; inside = remove_at-InRange _ i fl.headers valid.inside },
            remove_at-map _ i fl.headers ∙ sym (rw e at spec),
          )
    ]

iter_in-refines :
    (arena : Bytes) (es : List Entry)
    → length arena < u32_mod
    → All (InRange (length arena)) es
    → iter_in arena es ≡ some (map (field_of arena) es)
unfolding iter_in
iter_in-refines arena [] small h = refl
iter_in-refines arena (e ∷ es) small (r, h) = rw (
  name_of_inside arena e small r,
  value_of_inside arena e small r,
  iter_in-refines arena es small h,
)

to_bytes_in-refines :
    (arena : Bytes) (es : List Entry) (buf : Bytes)
    → length arena < u32_mod
    → All (InRange (length arena)) es
    → to_bytes_in arena es buf ≡ some (buf ++ Fields.print (map (field_of arena) es))
unfolding to_bytes_in Fields.print
to_bytes_in-refines arena [] buf small h = ap some (sym (append-nil buf))
to_bytes_in-refines arena (e ∷ es) buf small (r, h) =
    rw
      (
        name_of_inside arena e small r,
        value_of_inside arena e small r,
        to_bytes_in-refines arena es _ small h,
      )
      (simp append_assoc)

-- `iter` and `to_bytes` do not panic on a valid arena: they list and print the contents in order.
pub iter-refines :
    (fl : FieldLines)
    → IsValid fl
    → (iter fl ≡ some (contents fl)) × (to_bytes fl ≡ some (Fields.print (contents fl)))
unfolding iter to_bytes
iter-refines fl valid = (
  iter_in-refines fl.arena fl.headers valid.fits valid.inside,
  to_bytes_in-refines fl.arena fl.headers [] valid.fits valid.inside,
)
