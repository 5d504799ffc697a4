-- ===== src/FieldLines/Fields.antt =====
-- What a `FieldLines` holds, seen without its arena: names and values in order of first insertion.
use mhttp.Common.{
  ◌≡◌, refl, ◌↔◌, true, Option, none, some, List, [], ◌∷◌, ◌++◌, arith, Bytes, codes, if◌then◌else◌,
  make_ascii_lowercase, eq_ignore_ascii_case, bytes_eq_iff, make_lowercase_idem,
}

abbrev pub Fields : Type 0
Fields = List (Bytes × Bytes)

unfoldable pub set : Fields → Bytes → Bytes → Fields
set [] k v = (make_ascii_lowercase k, v) ∷ []
set ((n, w) ∷ fs) k v =
    if eq_ignore_ascii_case n k then (n, w ++ (codes ", " ++ v)) ∷ fs else (n, w) ∷ set fs k v

unfoldable pub get : Fields → Bytes → Option Bytes
get [] k = none
get ((n, w) ∷ fs) k = if eq_ignore_ascii_case n k then some w else get fs k

unfoldable pub remove : Fields → Bytes → Fields
remove [] k = []
remove ((n, w) ∷ fs) k = if eq_ignore_ascii_case n k then fs else (n, w) ∷ remove fs k

unfoldable pub print : Fields → Bytes
print [] = []
print ((n, w) ∷ fs) = n ++ (codes ": " ++ (w ++ (codes "\r\n" ++ print fs)))

pub eq_ignore_iff :
    (s t : Bytes)
    → (eq_ignore_ascii_case s t ≡ true) ↔ (make_ascii_lowercase s ≡ make_ascii_lowercase t)
unfolding eq_ignore_ascii_case
eq_ignore_iff s t =
    unfold eq_ignore_ascii_case in bytes_eq_iff (make_ascii_lowercase s) (make_ascii_lowercase t)

pub eq_ignore_refl : (s : Bytes) → eq_ignore_ascii_case s s ≡ true
eq_ignore_refl s = (eq_ignore_iff s s).1 refl

pub eq_ignore-lowercase :
    (s t : Bytes) → eq_ignore_ascii_case (make_ascii_lowercase s) t ≡ eq_ignore_ascii_case s t
unfolding eq_ignore_ascii_case
eq_ignore-lowercase s t = rw (make_lowercase_idem s)

abbrev joined : Option Bytes → Bytes → Bytes
joined none v = v
joined (some w) v = w ++ (codes ", " ++ v)

-- A header set again is joined to its old value by ", "; every other header is as it was.
pub get-set :
    (fs : Fields) (k v j : Bytes)
    → get (set fs k v) j
      ≡ (if eq_ignore_ascii_case k j then some (joined (get fs k) v) else get fs j)
unfolding get set
get-set [] k v j = rw (eq_ignore-lowercase k j)
get-set ((n, w) ∷ fs) k v j =
    ground (arith, get-set fs k v j, eq_ignore_iff n k, eq_ignore_iff n j, eq_ignore_iff k j)
