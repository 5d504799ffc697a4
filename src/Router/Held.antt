-- ===== src/Router/Held.antt =====
-- What a router of src/router.rs holds, described without the search: the segments under which a
-- route was inserted, and the paths that fit such segments.
use mhttp.Common.{◌≡◌, refl, none, some, List, [], ◌∷◌, ◌++◌, Bytes, ◌⊎◌, trim_start_by}
use mhttp.Router.{
  RouteDefinition, Segment, static, param, catch_all, Node, node, Children, nil, child, ParamChild,
  absent, present, next_segment, is_slash, Params,
}

module _ {H : Type 0} where
  -- One of the routes in a list.
  abbrev pub In : RouteDefinition H → List (RouteDefinition H) → Type 0
  In r [] = ⊥
  In r (x ∷ xs) = (x ≡ r) ⊎ In r xs

-- The tree holds the route under the segments. A parameter's own name is not compared.
abbrev mutual
  pub Holds : {H : Type 0} → Node H → List Segment → RouteDefinition H → Type 0
  Holds (node hs cs pc ca) [] r = In r hs
  Holds (node hs cs pc ca) (static s ∷ segs) r = HoldsStatic cs s segs r
  Holds (node hs cs pc ca) (param x ∷ segs) r = HoldsParam pc segs r
  Holds (node hs cs pc ca) (catch_all ∷ segs) r = ca ≡ some r

  pub HoldsStatic : {H : Type 0} → Children H → Bytes → List Segment → RouteDefinition H → Type 0
  HoldsStatic nil s segs r = ⊥
  HoldsStatic (child k n cs) s segs r = ((k ≡ s) × Holds n segs r) ⊎ HoldsStatic cs s segs r

  pub HoldsParam : {H : Type 0} → ParamChild H → List Segment → RouteDefinition H → Type 0
  HoldsParam absent segs r = ⊥
  HoldsParam (present x n) segs r = Holds n segs r

-- A path fits a list of segments, and so are the values captured: one for each parameter, and the
-- rest of the path for the catch-all, which may be empty.
pub data Fits : List Segment → Bytes → List Bytes → Type 0 where
  finish : {path : Bytes} → next_segment path ≡ none → Fits [] path []
  literal :
      {s path rest : Bytes} {segs : List Segment} {vs : List Bytes}
      → next_segment path ≡ some (s, rest)
      → Fits segs rest vs
      → Fits (static s ∷ segs) path vs
  capture :
      {x v path rest : Bytes} {segs : List Segment} {vs : List Bytes}
      → next_segment path ≡ some (v, rest)
      → Fits segs rest vs
      → Fits (param x ∷ segs) path (v ∷ vs)
  remainder :
      {path tail : Bytes} {segs : List Segment}
      → tail ≡ trim_start_by is_slash path
      → Fits (catch_all ∷ segs) path (tail ∷ [])

abbrev pub values : Params → List Bytes
values [] = []
values ((k, v) ∷ ps) = v ∷ values ps

pub values-append : (ps qs : Params) → values (ps ++ qs) ≡ values ps ++ values qs
values-append [] qs = refl
values-append ((k, v) ∷ ps) qs = λ i. v ∷ values-append ps qs i
