-- ===== src/FieldLines/Index.antt =====
-- The operations on `Fields` by the position of the header that they touch.
use mathlib.Core.Option
use mhttp.Common.{
  ℕ, zero, suc, ◌+◌, ◌≡◌, refl, Option, none, some, [], ◌∷◌, ◌++◌, arith, Bytes, codes,
  if◌then◌else◌, Bool-cases, inl, inr, make_ascii_lowercase, eq_ignore_ascii_case,
}
use mhttp.FieldLines.{remove_at}
use mhttp.FieldLines.Fields
use mhttp.FieldLines.Fields.{Fields}

unfoldable pub index_of : Fields → Bytes → Option ℕ
index_of [] k = none
index_of ((n, w) ∷ fs) k =
    if eq_ignore_ascii_case n k then some 0 else Option.map (λ n. n + 1) (index_of fs k)

-- The value at a position gets `, v` behind it.
unfoldable pub extend_at : ℕ → Bytes → Fields → Fields
extend_at i v [] = []
extend_at zero v ((n, w) ∷ fs) = (n, w ++ (codes ", " ++ v)) ∷ fs
extend_at (suc i) v (f ∷ fs) = f ∷ extend_at i v fs

abbrev pub set_by : Option ℕ → Fields → Bytes → Bytes → Fields
set_by none fs k v = fs ++ (make_ascii_lowercase k, v) ∷ []
set_by (some i) fs k v = extend_at i v fs

abbrev pub remove_by : Option ℕ → Fields → Fields
remove_by none fs = fs
remove_by (some i) fs = remove_at i fs

set_by-map :
    (o : Option ℕ) (f : Bytes × Bytes) (fs : Fields) (k v : Bytes)
    → f ∷ set_by o fs k v ≡ set_by (Option.map (λ n. n + 1) o) (f ∷ fs) k v
unfolding extend_at
set_by-map none f fs k v = refl
set_by-map (some i) f fs k v = ground arith

pub set-eq-set_by : (fs : Fields) (k v : Bytes) → Fields.set fs k v ≡ set_by (index_of fs k) fs k v
unfolding Fields.set index_of extend_at
set-eq-set_by [] k v = refl
set-eq-set_by ((n, w) ∷ fs) k v = elim (Bool-cases (eq_ignore_ascii_case n k)) [
  | inl same ↦ rw same
  | inr other ↦ rw (other, set-eq-set_by fs k v) (set_by-map (index_of fs k) (n, w) fs k v)
]

remove_by-map :
    (o : Option ℕ) (f : Bytes × Bytes) (fs : Fields)
    → f ∷ remove_by o fs ≡ remove_by (Option.map (λ n. n + 1) o) (f ∷ fs)
unfolding remove_at
remove_by-map none f fs = refl
remove_by-map (some i) f fs = ground arith

pub remove-eq-remove_by :
    (fs : Fields) (k : Bytes) → Fields.remove fs k ≡ remove_by (index_of fs k) fs
unfolding Fields.remove index_of remove_at
remove-eq-remove_by [] k = refl
remove-eq-remove_by ((n, w) ∷ fs) k = elim (Bool-cases (eq_ignore_ascii_case n k)) [
  | inl same ↦ rw same
  | inr other ↦ rw (other, remove-eq-remove_by fs k) (remove_by-map (index_of fs k) (n, w) fs)
]
