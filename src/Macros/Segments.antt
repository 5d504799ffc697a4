-- ===== src/Macros/Segments.antt =====
-- The segments of the route that `#[static_files]` of macros/src/lib.rs registers, as the router of
-- src/router.rs reads them.
use mathlib.Core.List.{map-append}
use mhttp.Common.{
  ℕ, ◌-◌, ◌≡◌, ◌↔◌, refl, sym, ap, ◌∙◌, true, List, [], ◌∷◌, ◌++◌, map, append-nil, append_assoc,
  Bytes, codes, ◌==◌, length, take, drop, take-append-drop, starts_with, ends_with, bytes_eq_sound,
  split, cons_head, filter_non_empty, arith, Bool-cases, inl, inr,
}
use mhttp.Router.{catch_all, from_str, parse_segments}
use mhttp.RoutePattern.{valid, validate_route}
use mhttp.Macros.{accepted, final_route, static_route}
use mhttp.Macros.Literals.{registered_of, static_route_iff}

split_cons : (c : ℕ) (s : Bytes) → (l : Bytes) × (ls : List Bytes) × (split c s ≡ l ∷ ls)
unfolding split
split_cons c [] = ([], [], refl)
split_cons c (b ∷ s) =
    let (l, ls, e) = split_cons c s in
    elim (Bool-cases (b == c)) [
      | inl same ↦ ([], split c s, rw same refl)
      | inr other ↦ (b ∷ l, ls, rw (other, e) refl)
    ]

cons_head-append :
    (b l : ℕ) (xs ys zs : List Bytes) (x : Bytes)
    → xs ≡ x ∷ zs
    → cons_head b (xs ++ ys) ≡ cons_head b xs ++ ys
cons_head-append b l xs ys zs x e = rw e refl

-- A text is split at a separator and then on both sides of it.
split-append : (c : ℕ) (s t : Bytes) → split c (s ++ c ∷ t) ≡ split c s ++ split c t
unfolding split
split-append c [] t = let same : (c == c) ≡ true = ground arith in rw same refl
split-append c (b ∷ s) t = elim (Bool-cases (b == c)) [
  | inl same ↦ rw (same, split-append c s t) refl
  | inr other ↦
      let (l, ls, e) = split_cons c s in
      rw (other, split-append c s t) (cons_head-append b b (split c s) (split c t) ls l e)
]

filter-append :
    (xs ys : List Bytes) → filter_non_empty (xs ++ ys) ≡ filter_non_empty xs ++ filter_non_empty ys
unfolding filter_non_empty
filter-append [] ys = refl
filter-append ([] ∷ xs) ys = filter-append xs ys
filter-append ((c ∷ x) ∷ xs) ys = ap (◌∷◌ (c ∷ x)) (filter-append xs ys)

segments-append :
    (s t : Bytes) → parse_segments (s ++ b'/' ∷ t) ≡ parse_segments s ++ parse_segments t
unfolding parse_segments
segments-append s t =
    ap (λ ps. map from_str (filter_non_empty ps)) (split-append b'/' s t)
    ∙ ap (map from_str) (filter-append (split b'/' s) (split b'/' t))
    ∙ map-append from_str (filter_non_empty (split b'/' s)) (filter_non_empty (split b'/' t))

catch_all_segment : parse_segments (codes "{__path__}") ≡ catch_all ∷ []
unfolding parse_segments
catch_all_segment = refl

no_segment : parse_segments [] ≡ []
unfolding parse_segments
no_segment = refl

slash_last : (s : Bytes) → ends_with s (codes "/") ≡ true → take (length s - 1) s ++ b'/' ∷ [] ≡ s
unfolding ends_with
slash_last s h =
    let back : drop (length s - 1) s ≡ codes "/" =
      bytes_eq_sound (drop (length s - 1) s) (codes "/") (ground arith) in
    sym (ap (◌++◌ (take (length s - 1) s)) back) ∙ take-append-drop (length s - 1) s

final-segments :
    (route : Bytes) → parse_segments (final_route route) ≡ parse_segments route ++ catch_all ∷ []
unfolding final_route
final-segments route = elim (Bool-cases (ends_with route (codes "/"))) [
  | inl e ↦
      let front = take (length route - 1) route in
      let whole = slash_last route e in
      let of_route : parse_segments route ≡ parse_segments front =
        sym (ap parse_segments whole)
        ∙ segments-append front []
        ∙ ap (◌++◌ (parse_segments front)) no_segment
        ∙ append-nil (parse_segments front) in
      let longer : route ++ codes "{__path__}" ≡ front ++ b'/' ∷ codes "{__path__}" =
        sym (ap (λ s. s ++ codes "{__path__}") whole)
        ∙ append_assoc front (b'/' ∷ []) (codes "{__path__}") in
      rw e (
        ap parse_segments longer
        ∙ segments-append front (codes "{__path__}")
        ∙ ap (◌++◌ (parse_segments front)) catch_all_segment
        ∙ ap (λ segs. segs ++ catch_all ∷ []) (sym of_route))
  | inr e ↦ rw e (
      segments-append route (codes "{__path__}")
      ∙ ap (◌++◌ (parse_segments route)) catch_all_segment)
]

-- A route of `#[static_files]` that the macro accepts is registered as its own segments and one
-- catch-all behind them, whether it ends with a slash or not; and when the program starts, it is
-- accepted exactly if the route of the attribute begins with a slash, or is empty: without one, the macro
-- accepts it and the `expect` fails.
pub static_route-registered :
    (route dir registered : Bytes)
    → static_route route dir ≡ accepted registered
    → (parse_segments registered ≡ parse_segments route ++ catch_all ∷ [])
      × ((validate_route registered ≡ valid)
          ↔ (starts_with (route ++ codes "/") (codes "/") ≡ true))
static_route-registered route dir registered h =
    let (_, _, same) = registered_of route dir registered h in
    (ap parse_segments same ∙ final-segments route, static_route_iff route dir registered h)
