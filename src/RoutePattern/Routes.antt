-- ===== src/RoutePattern/Routes.antt =====
-- What `validate_route` (src/route_definition.rs) accepts, said without its own helpers: names by the codes of
-- their characters, and the catch-all by what stands behind any place where it occurs.
use mhttp.Common.{
  ℕ, ◌<◌, ◌≤◌, ◌≡◌, ◌≢◌, ◌⊎◌, ◌↔◌, refl, sym, ap, ◌∙◌, true, none, some, [], ◌∷◌, ◌++◌, Bytes,
  codes, All, arith, Bool-cases, inl, inr, starts_with, drop, length, length-append, length-drop,
  bytes_eq, Option-cases,
}
use mhttp.RoutePattern.{
  valid, is_valid_param_name, all_in_name, starts_name, in_name, validate_route, after_first,
  ends_route,
}
use mhttp.RoutePattern.Grammar.{IsPattern, empty, plain, param, validate_route_iff}

abbrev IsLetter : ℕ → Type 0
IsLetter c = ((b'A' ≤ c) × (c ≤ b'Z')) ⊎ ((b'a' ≤ c) × (c ≤ b'z'))

-- A letter or an underscore
abbrev pub Begins : ℕ → Type 0
Begins c = IsLetter c ⊎ (c ≡ b'_')

-- Or a digit
abbrev pub Continues : ℕ → Type 0
Continues c = Begins c ⊎ ((b'0' ≤ c) × (c ≤ b'9'))

abbrev pub IsName : Bytes → Type 0
IsName [] = ⊥
IsName (c ∷ s) = Begins c × All Continues s

-- Text without braces, and names in braces
pub data Spells : Bytes → Type 0 where
  nothing : Spells []
  text : (c : ℕ) (s : Bytes) → c ≢ b'{' → c ≢ b'}' → Spells s → Spells (c ∷ s)
  named : (name s : Bytes) → IsName name → Spells s → Spells (b'{' ∷ (name ++ b'}' ∷ s))

-- Behind the catch-all, wherever it stands, is nothing, or a slash alone.
abbrev pub IsLast : Bytes → Type 0
IsLast route =
    (front tail : Bytes)
    → route ≡ front ++ (codes "{__path__}" ++ tail)
    → (tail ≡ []) ⊎ (tail ≡ codes "/")

pub record IsRoute (route : Bytes) : Type 0 where
  pub slash : (rest : Bytes) × (route ≡ b'/' ∷ rest)
  pub spelled : Spells route
  pub last : IsLast route

starts_name-Begins : (c : ℕ) → starts_name c ≡ true → Begins c
starts_name-Begins c h = ground arith

Begins-starts_name : (c : ℕ) → Begins c → starts_name c ≡ true
Begins-starts_name c h = ground arith

in_name-Continues : (c : ℕ) → in_name c ≡ true → Continues c
in_name-Continues c h = ground arith

Continues-in_name : (c : ℕ) → Continues c → in_name c ≡ true
Continues-in_name c h = ground arith

all_in_name-All : (s : Bytes) → all_in_name s ≡ true → All Continues s
unfolding all_in_name
all_in_name-All [] h = tt
all_in_name-All (c ∷ s) h =
    let first : in_name c ≡ true = ground arith in
    let rest : all_in_name s ≡ true = ground arith in
    (in_name-Continues c first, all_in_name-All s rest)

All-all_in_name : (s : Bytes) → All Continues s → all_in_name s ≡ true
unfolding all_in_name
All-all_in_name [] h = refl
All-all_in_name (c ∷ s) (first, rest) = rw (Continues-in_name c first) (All-all_in_name s rest)

is_valid_param_name-IsName : (name : Bytes) → is_valid_param_name name ≡ true → IsName name
unfolding is_valid_param_name
is_valid_param_name-IsName [] h = absurd (cc)
is_valid_param_name-IsName (c ∷ s) h =
    let first : starts_name c ≡ true = ground arith in
    let rest : all_in_name s ≡ true = ground arith in
    (starts_name-Begins c first, all_in_name-All s rest)

IsName-is_valid_param_name : (name : Bytes) → IsName name → is_valid_param_name name ≡ true
unfolding is_valid_param_name
IsName-is_valid_param_name [] h = absurd h
IsName-is_valid_param_name (c ∷ s) (first, rest) =
    rw (Begins-starts_name c first) (All-all_in_name s rest)

IsPattern-Spells : (s : Bytes) → IsPattern s → Spells s
IsPattern-Spells _ empty = nothing
IsPattern-Spells _ (plain c s opens closes h) = text c s opens closes (IsPattern-Spells s h)
IsPattern-Spells _ (param name s good h) =
    named name s (is_valid_param_name-IsName name good) (IsPattern-Spells s h)

Spells-IsPattern : (s : Bytes) → Spells s → IsPattern s
Spells-IsPattern _ nothing = empty
Spells-IsPattern _ (text c s opens closes h) = plain c s opens closes (Spells-IsPattern s h)
Spells-IsPattern _ (named name s good h) =
    param name s (IsName-is_valid_param_name name good) (Spells-IsPattern s h)

-- The tail behind the first catch-all decides.
abbrev catch_all : Bytes
catch_all = codes "{__path__}"

abbrev IsTail : Bytes → Type 0
IsTail tail = (tail ≡ []) ⊎ (tail ≡ codes "/")

starts_with-split : (s p : Bytes) → starts_with s p ≡ true → (t : Bytes) × (s ≡ p ++ t)
unfolding starts_with
starts_with-split s [] h = (s, refl)
starts_with-split [] (c ∷ p) h = absurd (cc)
starts_with-split (b ∷ s) (c ∷ p) h =
    let same : b ≡ c = ground arith in
    let rest : starts_with s p ≡ true = ground arith in
    let (t, e) = starts_with-split s p rest in (t, rw (same, e) refl)

ends_route-IsTail : (tail : Bytes) → ends_route (some tail) ≡ valid → IsTail tail
unfolding ends_route bytes_eq
ends_route-IsTail [] h = inl refl
ends_route-IsTail (c ∷ []) h = let same : c ≡ b'/' = ground arith in inr (rw same refl)
ends_route-IsTail (c ∷ b ∷ s) h = absurd (ground arith)

IsTail-ends_route : (tail : Bytes) → IsTail tail → ends_route (some tail) ≡ valid
unfolding ends_route bytes_eq
IsTail-ends_route tail (inl e) = rw e refl
IsTail-ends_route tail (inr e) = rw e refl

-- Where a catch-all stands, one is found, at its place or before.
found_first :
    (front tail : Bytes)
    → (first : Bytes) × (after_first 10 catch_all (front ++ (catch_all ++ tail)) ≡ some first)
      × ((tail ≡ first) ⊎ (length tail < length first))
unfolding after_first
found_first [] tail = (tail, refl, inl refl)
found_first (c ∷ front) tail =
    let route : Bytes = c ∷ (front ++ (catch_all ++ tail)) in
    elim (Bool-cases (starts_with route catch_all)) [
      | inl e ↦
          let size = length-append front (catch_all ++ tail) in
          let left = length-drop 10 route in
          (drop 10 route, rw e refl, inr (omega (arith, size, left)))
      | inr e ↦
          let (first, found, where_first) = found_first front tail in
          (first, rw e found, where_first)
    ]

found_split :
    (s first : Bytes)
    → after_first 10 catch_all s ≡ some first
    → (front : Bytes) × (s ≡ front ++ (catch_all ++ first))
unfolding after_first
found_split [] first h = absurd (cc)
found_split (c ∷ s) first h = elim (Bool-cases (starts_with (c ∷ s) catch_all)) [
  | inl e ↦
      let (t, split) = starts_with-split (c ∷ s) catch_all e in
      let got : some (drop 10 (c ∷ s)) ≡ some first = rw e at h in
      let same : drop 10 (c ∷ s) ≡ first = cc in
      let rest : t ≡ first = ap (drop 10) (sym split) ∙ same in
      ([], split ∙ ap (λ u. catch_all ++ u) rest)
  | inr e ↦
      let later : after_first 10 catch_all s ≡ some first = rw e at h in
      let (front, split) = found_split s first later in (c ∷ front, ap (◌∷◌ c) split)
]

IsTail-shorter :
    (tail first : Bytes)
    → (tail ≡ first) ⊎ (length tail < length first)
    → IsTail first
    → IsTail tail
IsTail-shorter tail first (inl e) good = rw e good
IsTail-shorter [] first (inr shorter) good = inl refl
IsTail-shorter (c ∷ tail) first (inr shorter) (inl e) =
    let size = ap length e in absurd (omega (arith, size))
IsTail-shorter (c ∷ tail) first (inr shorter) (inr e) =
    let size = ap length e in absurd (omega (arith, size))

ends_route-IsLast :
    (route : Bytes) → ends_route (after_first 10 catch_all route) ≡ valid → IsLast route
ends_route-IsLast route h front tail e =
    let (first, found, position) = found_first front tail in
    let at_first : after_first 10 catch_all route ≡ some first =
      ap (after_first 10 catch_all) e ∙ found in
    IsTail-shorter tail first position (ends_route-IsTail first (ap ends_route (sym at_first) ∙ h))

no_catch_all : ends_route none ≡ valid
unfolding ends_route
no_catch_all = refl

IsLast-ends_route :
    (route : Bytes) → IsLast route → ends_route (after_first 10 catch_all route) ≡ valid
IsLast-ends_route route h = elim (Option-cases (after_first 10 catch_all route)) [
  | inl e ↦ ap ends_route e ∙ no_catch_all
  | inr (first, e) ↦
      let (front, split) = found_split route first e in
      ap ends_route e ∙ IsTail-ends_route first (h front first split)
]

-- `validate_route` accepts exactly the routes that begin with a slash, are text without braces and
-- names in braces, in any order, and have nothing, or a slash alone, behind any place where the text
-- `{__path__}` stands in them. A name is a letter or an underscore, and then letters, digits and
-- underscores.
pub validate_route-IsRoute : (route : Bytes) → (validate_route route ≡ valid) ↔ IsRoute route
unfolding starts_with
validate_route-IsRoute route =
    let (there, back) = validate_route_iff route in
    (
      λ h.
          let (slash, pattern, ended) = there h in
          record {
            slash = starts_with-split route (codes "/") slash;
            spelled = IsPattern-Spells route pattern;
            last = ends_route-IsLast route ended;
          },
      λ good.
          let (rest, split) = good.slash in
          let slash : starts_with route (codes "/") ≡ true = rw split refl in
          back (slash, Spells-IsPattern route good.spelled, IsLast-ends_route route good.last),
    )
