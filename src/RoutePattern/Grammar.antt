-- ===== src/RoutePattern/Grammar.antt =====
-- What `validate_route` (src/route_definition.rs) accepts, against a grammar of patterns.
use mhttp.Common.{
  ℕ, ◌≡◌, ◌≢◌, ◌↔◌, refl, ap, ◌∙◌, Bool, true, false, [], ◌∷◌, ◌++◌, Bytes, codes, ◌==◌,
  append_assoc, append-nil, arith, Bool-cases, inl, inr, is_empty, starts_with,
}
use mhttp.RoutePattern.{
  Verdict, valid, invalid, scan, is_valid_param_name, all_in_name, in_name, validate_route,
  after_first, ends_route, and_then,
}

-- Text without braces, and names in braces.
pub data IsPattern : Bytes → Type 0 where
  empty : IsPattern []
  plain : (c : ℕ) (s : Bytes) → c ≢ b'{' → c ≢ b'}' → IsPattern s → IsPattern (c ∷ s)
  param :
      (name s : Bytes)
      → is_valid_param_name name ≡ true
      → IsPattern s
      → IsPattern (b'{' ∷ (name ++ b'}' ∷ s))

-- The rest of a name that has begun, and what follows its brace.
abbrev Closes : Bytes → Bytes → Type 0
Closes name s =
    (more : Bytes) × (rest : Bytes) × (s ≡ more ++ b'}' ∷ rest)
    × (is_valid_param_name (name ++ more) ≡ true)
    × IsPattern rest

-- Both states of the walk
abbrev Accepted : Bool → Bytes → Bytes → Type 0
Accepted true name s = Closes name s
Accepted false name s = IsPattern s

scan-Accepted :
    (inside : Bool) (name s : Bytes) → scan inside name s ≡ valid → Accepted inside name s
unfolding scan
scan-Accepted true name [] h = absurd (cc)
scan-Accepted false name [] h = empty
scan-Accepted true name (c ∷ s) h = elim (Bool-cases (c == b'{')) [
  | inl e ↦ absurd (ground arith)
  | inr e ↦ elim (Bool-cases (c == b'}')) [
    | inl f ↦
        let brace : c ≡ b'}' = ground arith in
        let good : is_valid_param_name name ≡ true = ground arith in
        let rest : scan false name s ≡ valid = ground arith in
        ([], s, rw brace refl, rw (append-nil name) good, scan-Accepted false name s rest)
    | inr f ↦
        let longer : scan true (name ++ c ∷ []) s ≡ valid = ground arith in
        let (more, rest, text, good, pattern) = scan-Accepted true (name ++ c ∷ []) s longer in
        (c ∷ more, rest, ap (◌∷◌ c) text, rw (append_assoc name (c ∷ []) more) at good, pattern)
  ]
]
scan-Accepted false name (c ∷ s) h = elim (Bool-cases (c == b'{')) [
  | inl e ↦
      let brace : c ≡ b'{' = ground arith in
      let opened : scan true [] s ≡ valid = ground arith in
      let (more, rest, text, good, pattern) = scan-Accepted true [] s opened in
      rw (brace, text) (param more rest good pattern)
  | inr e ↦
      let closing : c ≢ b'}' = λ f. ground arith in
      let on : scan false name s ≡ valid = ground arith in
      plain c s (ground arith) closing (scan-Accepted false name s on)
]

all_in_name_at :
    (s : Bytes) (c : ℕ) (t : Bytes) → all_in_name (s ++ c ∷ t) ≡ true → in_name c ≡ true
unfolding all_in_name
all_in_name_at [] c t h = ground arith
all_in_name_at (b ∷ s) c t h = ground (arith, all_in_name_at s c t)

-- A name has no brace.
name_char :
    (s : Bytes) (c : ℕ) (t : Bytes)
    → is_valid_param_name (s ++ c ∷ t) ≡ true
    → (c ≢ b'{') × (c ≢ b'}')
unfolding is_valid_param_name
name_char [] c t h = (λ e. ground arith, λ e. ground arith)
name_char (b ∷ s) c t h =
    let rest : all_in_name (s ++ c ∷ t) ≡ true = ground arith in
    let good = all_in_name_at s c t rest in (λ e. ground arith, λ e. ground arith)

-- Outside of braces the name that was read last is of no account.
scan_outside : (name other s : Bytes) → scan false name s ≡ scan false other s
unfolding scan
scan_outside name other [] = refl
scan_outside name other (c ∷ s) = rw (scan_outside name other s) refl

not_empty : (name : Bytes) → is_valid_param_name name ≡ true → is_empty name ≡ false
unfolding is_valid_param_name
not_empty [] h = absurd (cc)
not_empty (c ∷ s) h = refl

scan_name :
    (name more rest : Bytes)
    → is_valid_param_name (name ++ more) ≡ true
    → scan true name (more ++ b'}' ∷ rest) ≡ scan false [] rest
unfolding scan
scan_name name [] rest good =
    let own : is_valid_param_name name ≡ true = rw (append-nil name) at good in
    rw (not_empty name own, own) (scan_outside name [] rest)
scan_name name (c ∷ more) rest good =
    let (opens, closes) = name_char name c more good in
    let first : (c == b'{') ≡ false = ground arith in
    let second : (c == b'}') ≡ false = ground arith in
    let next : is_valid_param_name ((name ++ c ∷ []) ++ more) ≡ true =
      rw (append_assoc name (c ∷ []) more) good in
    rw (first, second) (scan_name (name ++ c ∷ []) more rest next)

IsPattern-scan : (s : Bytes) → IsPattern s → scan false [] s ≡ valid
unfolding scan
IsPattern-scan _ empty = refl
IsPattern-scan _ (plain c s opens closes h) =
    let first : (c == b'{') ≡ false = ground arith in
    let second : (c == b'}') ≡ false = ground arith in rw (first, second) (IsPattern-scan s h)
IsPattern-scan _ (param name s good h) = scan_name [] name s good ∙ IsPattern-scan s h

both_valid : (a b : Verdict) → and_then a b ≡ valid → (a ≡ valid) × (b ≡ valid)
both_valid valid b h = (refl, h)
both_valid (invalid e) b h = absurd (cc)

-- The conditions of `validate_route`, one by one.
pub validate_route_iff :
    (route : Bytes)
    → (validate_route route ≡ valid) ↔ (
        (starts_with route (codes "/") ≡ true)
        × IsPattern route
        × (ends_route (after_first 10 (codes "{__path__}") route) ≡ valid))
unfolding validate_route
validate_route_iff route = (
  λ h. elim (Bool-cases (starts_with route (codes "/"))) [
    | inl e ↦
        let both : and_then (scan false [] route)
              (ends_route (after_first 10 (codes "{__path__}") route))
            ≡ valid =
          rw e at h in
        let (walked, ended) = both_valid _ _ both in (e, scan-Accepted false [] route walked, ended)
    | inr e ↦ absurd (ground arith)
  ],
  λ (slash, pattern, ended). rw (slash, IsPattern-scan route pattern, ended) refl,
)
