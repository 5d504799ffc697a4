-- ===== src/Macros/Literals.antt =====
-- What the macros of macros/src/lib.rs accept, against `RouteDefinition::validate_route` of
-- src/route_definition.rs, whose result the code that they write expects to be `Ok`.
use mhttp.Common.{
  ℕ, zero, suc, ◌≡◌, ◌≢◌, ◌↔◌, refl, sym, ap, ◌∙◌, true, false, Option, none, some, [], ◌∷◌, ◌++◌,
  Bytes, codes, ◌==◌, length, is_empty, memchr, starts_with, ends_with, contains, bytes_eq,
  bytes_eq_sound, bytes_eq_refl, memchr-CutAt, append_assoc, Lacks, All-append, arith, Bool-cases,
  Option-cases, inl, inr,
}
use mhttp.RoutePattern.{
  valid, is_valid_param_name, all_in_name, after_first, ends_route, validate_route,
}
use mhttp.RoutePattern.Grammar.{IsPattern, empty, plain, param, validate_route_iff}
use mhttp.Macros.{
  Checked, accepted, check_name, walk, validate_route_literal, final_route, static_route,
}

-- No catch-all stands in the text.
abbrev Without : Bytes → Type 0
Without s = after_first 10 (codes "{__path__}") s ≡ none

reserved :
    (name : Bytes) (rest : Checked (Unit {0}))
    → name ≡ codes "__path__"
    → check_name name rest ≢ accepted tt
unfolding check_name
reserved name rest e h =
    let stops : check_name (codes "__path__") rest ≡ accepted tt = rw e at h in cc

check_name_lem :
    (name : Bytes) (rest : Checked (Unit {0}))
    → check_name name rest ≡ accepted tt
    → (is_valid_param_name name ≡ true)
      × (bytes_eq name (codes "__path__") ≡ false)
      × (rest ≡ accepted tt)
unfolding check_name is_valid_param_name
check_name_lem [] rest h = absurd (cc)
check_name_lem (c ∷ s) rest h = elim (Bool-cases (bytes_eq (c ∷ s) (codes "__path__"))) [
  | inl e ↦ absurd (reserved (c ∷ s) rest (bytes_eq_sound (c ∷ s) (codes "__path__") e) h)
  | inr e ↦ (ground arith, e, ground arith)
]

after_plain : (c : ℕ) (s : Bytes) → c ≢ b'{' → Without s → Without (c ∷ s)
unfolding after_first starts_with
after_plain c s other h = ground (arith, h)

-- A name has no opening brace.
after_name : (name t : Bytes) → all_in_name name ≡ true → Without t → Without (name ++ t)
unfolding all_in_name
after_name [] t good h = h
after_name (c ∷ name) t good h =
    after_plain c (name ++ t) (λ e. ground arith) (after_name name t (ground arith) h)

-- A name and a brace that begin like another name and a brace are the same name.
same_name :
    (name other t : Bytes)
    → Lacks b'}' name
    → Lacks b'}' other
    → starts_with (name ++ b'}' ∷ t) (other ++ codes "}") ≡ true
    → name ≡ other
unfolding starts_with
same_name [] [] t h k e = refl
same_name [] (c ∷ other) t h (k, ks) e = absurd (k (ground arith))
same_name (b ∷ name) [] t (h, hs) k e = absurd (h (ground arith))
same_name (b ∷ name) (c ∷ other) t (h, hs) (k, ks) e =
    let first : b ≡ c = ground arith in let rest = same_name name other t hs ks (ground arith) in cc

valid-all_in_name : (name : Bytes) → is_valid_param_name name ≡ true → all_in_name name ≡ true
unfolding is_valid_param_name all_in_name
valid-all_in_name [] h = refl
valid-all_in_name (c ∷ s) h = ground arith

after_param :
    (name t : Bytes)
    → Lacks b'}' name
    → is_valid_param_name name ≡ true
    → bytes_eq name (codes "__path__") ≡ false
    → Without t
    → Without (b'{' ∷ (name ++ b'}' ∷ t))
unfolding after_first
after_param name t lacks good other h =
    let text : Bytes = name ++ b'}' ∷ t in
    let later : Without text =
      after_name name (b'}' ∷ t) (valid-all_in_name name good)
        (after_plain b'}' t (omega arith) h) in
    elim (Bool-cases (starts_with (b'{' ∷ text) (codes "{__path__}"))) [
      | inl e ↦
          let begins : starts_with text (codes "__path__" ++ codes "}") ≡ true =
            unfold starts_with in e in
          let same = same_name name (codes "__path__") t lacks (omega arith) begins in
          let equal : bytes_eq name (codes "__path__") ≡ true =
            rw same (bytes_eq_refl (codes "__path__")) in
          absurd (ground arith)
      | inr e ↦ rw e later
    ]

-- What the walk accepts
abbrev Walked : Bytes → Type 0
Walked s = IsPattern s × Without s

walk-Walked : (fuel : ℕ) (s : Bytes) → walk fuel s ≡ accepted tt → Walked s
unfolding walk
walk-Walked fuel [] h = (empty, unfold after_first starts_with in refl)
walk-Walked zero (c ∷ s) h = absurd (cc)
walk-Walked (suc fuel) (c ∷ s) h = elim (Bool-cases (c == b'{')) [
  | inl e ↦ elim (Option-cases (memchr b'}' s)) [
    | inl gone ↦ absurd (ground arith)
    | inr (i, found) ↦
        let (name, t, text, lacks, front, back) = memchr-CutAt b'}' s i found in
        let brace : c ≡ b'{' = ground arith in
        let checked : check_name name (walk fuel t) ≡ accepted tt =
          rw (e, found, front, back) at h in
        let (good, other, walked) = check_name_lem name (walk fuel t) checked in
        let (pattern, without) = walk-Walked fuel t walked in
        rw (brace, text) (param name t good pattern, after_param name t lacks good other without)
  ]
  | inr e ↦ elim (Bool-cases (c == b'}')) [
    | inl f ↦ absurd (ground arith)
    | inr f ↦
        let (pattern, without) = walk-Walked fuel s (rw (e, f) at h) in
        (
          plain c s (λ q. ground arith) (λ q. ground arith) pattern,
          after_plain c s (λ q. ground arith) without,
        )
  ]
]

-- A route that `#[route]` accepts at compile time is one that `validate_route` accepts when the
-- program starts.
pub validate_route_literal-valid :
    (route : Bytes) → validate_route_literal route ≡ accepted tt → validate_route route ≡ valid
unfolding validate_route_literal
validate_route_literal-valid route h = elim (Bool-cases (starts_with route (codes "/"))) [
  | inr e ↦ absurd (ground arith)
  | inl e ↦
      let (pattern, without) = walk-Walked (length route) route (rw e at h) in
      let (_, back) = validate_route_iff route in
      back (e, pattern, rw without (unfold ends_route in refl))
]

-- A route without braces
braceless :
    (s : Bytes)
    → contains s (codes "{") ≡ false
    → contains s (codes "}") ≡ false
    → Lacks b'{' s × Lacks b'}' s
unfolding contains starts_with
braceless [] h k = (tt, tt)
braceless (c ∷ s) h k =
    let (open_rest, close_rest) = braceless s (ground arith) (ground arith) in
    ((λ e. ground arith, open_rest), (λ e. ground arith, close_rest))

pattern_front : (s t : Bytes) → Lacks b'{' s → Lacks b'}' s → IsPattern t → IsPattern (s ++ t)
pattern_front [] t h k p = p
pattern_front (c ∷ s) t (h, hs) (k, ks) p = plain c (s ++ t) h k (pattern_front s t hs ks p)

after_front :
    (s t : Bytes) (rest : Option Bytes)
    → Lacks b'{' s
    → after_first 10 (codes "{__path__}") t ≡ rest
    → after_first 10 (codes "{__path__}") (s ++ t) ≡ rest
unfolding after_first starts_with
after_front [] t rest h e = e
after_front (c ∷ s) t rest (h, hs) e = ground (arith, after_front s t rest hs e)

abbrev catch_all : Bytes
catch_all = codes "{__path__}"

catch_all-IsPattern : IsPattern catch_all
unfolding is_valid_param_name
catch_all-IsPattern = param (codes "__path__") [] refl empty

front-valid :
    (front : Bytes)
    → Lacks b'{' front
    → Lacks b'}' front
    → starts_with (front ++ catch_all) (codes "/") ≡ true
    → validate_route (front ++ catch_all) ≡ valid
front-valid front h k slash =
    let (_, back) = validate_route_iff (front ++ catch_all) in
    let pattern = pattern_front front catch_all h k catch_all-IsPattern in
    let ended = after_front front catch_all (some []) h (unfold after_first starts_with in refl) in
    back (slash, pattern, rw ended (unfold ends_route in refl))

-- The registered route is a front without braces and the catch-all.
abbrev FrontOf : Bytes → Type 0
FrontOf route =
    (front : Bytes) × (final_route route ≡ front ++ catch_all)
    × Lacks b'{' front
    × Lacks b'}' front
    × (starts_with (front ++ catch_all) (codes "/") ≡ starts_with (route ++ codes "/") (codes "/"))

slash_first :
    (route t : Bytes)
    → is_empty route ≡ false
    → starts_with (route ++ t) (codes "/") ≡ starts_with (route ++ codes "/") (codes "/")
unfolding starts_with
slash_first [] t h = absurd (cc)
slash_first (c ∷ s) t h = refl

front_of : (route : Bytes) → Lacks b'{' route → Lacks b'}' route → FrontOf route
unfolding final_route
front_of [] h k =
    (codes "/", refl, (omega arith, tt), (omega arith, tt), unfold starts_with in refl)
front_of (c ∷ s) h k = elim (Bool-cases (ends_with (c ∷ s) (codes "/"))) [
  | inl e ↦ (c ∷ s, rw e refl, h, k, slash_first (c ∷ s) catch_all refl)
  | inr e ↦ (
    (c ∷ s) ++ codes "/",
    rw e (sym (append_assoc (c ∷ s) (codes "/") catch_all)),
    All-append _ (c ∷ s) (codes "/") h (omega arith, tt),
    All-append _ (c ∷ s) (codes "/") k (omega arith, tt),
    ap (λ t. starts_with t (codes "/")) (append_assoc (c ∷ s) (codes "/") catch_all)
        ∙ slash_first (c ∷ s) (codes "/" ++ catch_all) refl,
  )
]

-- What `static_files` has checked when it registers a route
pub registered_of :
    (route dir registered : Bytes)
    → static_route route dir ≡ accepted registered
    → Lacks b'{' route × Lacks b'}' route × (registered ≡ final_route route)
unfolding static_route
registered_of route dir registered h =
    let opens : contains route (codes "{") ≡ false = ground arith in
    let closes : contains route (codes "}") ≡ false = ground arith in
    let (a, b) = braceless route opens closes in (a, b, ground arith)

pub static_route_iff :
    (route dir registered : Bytes)
    → static_route route dir ≡ accepted registered
    → (validate_route registered ≡ valid) ↔ (starts_with (route ++ codes "/") (codes "/") ≡ true)
static_route_iff route dir registered h =
    let (opens, closes, same) = registered_of route dir registered h in
    let (front, text, front_opens, front_closes, slash) = front_of route opens closes in
    let (there, _) = validate_route_iff (front ++ catch_all) in
    rw (same, text)
      (
        λ v. let (first, _, _) = there v in sym slash ∙ first,
        λ begins. front-valid front front_opens front_closes (slash ∙ begins),
      )
