-- ===== src/Router/Answers.antt =====
-- `Router::find` of src/router.rs on a router made by `Router::build`: the answer is one of the routes
-- that the path and the method fit, and there is one whenever such a route is in the tree.
use mhttp.Common.{◌≡◌, refl, false, none, some, List, [], ◌∷◌, ◌++◌, Bytes, inl, inr}
use mathlib.Core.Path.{subst}
use mhttp.Method.{HttpMethod, method_eq}
use mhttp.Router.{
  RouteDefinition, Params, Found, find, build, empty_node, parse_segments, find_route, strip_query,
  to_match,
}
use mhttp.Router.Order.{build-IsSorted}
use mhttp.Router.Held.{In, Holds, Fits, values}
use mhttp.Router.Places.{Same-Fits, empty-Holds}
use mhttp.Router.Build.{insert_all-Holds_inv, Unreplaced, insert_all-Holds_new}
use mhttp.Router.Sound.{IsSound, find-IsSound}
use mhttp.Router.Complete.{find_complete}

module _ {H : Type 0} where
  to_match-some :
      (f : Found H) (r : RouteDefinition H) (ps : Params)
      → to_match f ≡ some (r, ps)
      → f ≡ (some r, ps)
  to_match-some (none, qs) r ps e = cc
  to_match-some (some x, qs) r ps e = cc

  to_match-none : (f : Found H) → to_match f ≡ none → f.0 ≡ none
  to_match-none (none, qs) e = refl
  to_match-none (some x, qs) e = cc

  -- An answer is one of the routes given to `build`, with the method that was asked for; the path in
  -- front of the query fits its pattern, and the values returned are those captured, in order.
  pub find_route_sound :
      (routes : List (RouteDefinition H)) (m : HttpMethod) (path : Bytes) (r : RouteDefinition H)
      (ps : Params)
      → find_route (build routes) m path ≡ some (r, ps)
      → In r routes
        × (r.method ≡ m)
        × Fits (parse_segments r.pattern) (strip_query path) (values ps)
  unfolding find_route build
  find_route_sound routes m path r ps e =
      let run = to_match-some (find (build routes) (strip_query path) m []) r ps e in
      let (segs, vs, held, fit, method, same) =
        subst
          (IsSound (λ segs x. Holds (build routes) segs x)
            (λ segs vs. Fits segs (strip_query path) vs) m [])
          run (find-IsSound (build routes) (strip_query path) m []) in
      elim (insert_all-Holds_inv routes empty_node segs r held) [
        | inl nothing ↦ absurd (empty-Holds segs r nothing)
        | inr (listed, place) ↦ (
          listed,
          method,
          Same-Fits segs (strip_query path) (values ps) (rw same fit) (parse_segments r.pattern)
              place,
        )
      ]

  -- No answer means that no route, unless a later route took its catch-all's place, has the method
  -- and a pattern that the path fits.
  pub find_route_complete :
      (before : List (RouteDefinition H)) (r : RouteDefinition H) (after : List (RouteDefinition H))
      (m : HttpMethod) (path : Bytes) (vs : List Bytes)
      → Unreplaced r after
      → Fits (parse_segments r.pattern) (strip_query path) vs
      → find_route (build (before ++ r ∷ after)) m path ≡ none
      → method_eq r.method m ≡ false
  unfolding find_route build
  find_route_complete before r after m path vs free fit e =
      let root = build (before ++ r ∷ after) in
      find_complete root (strip_query path) m [] r (parse_segments r.pattern) vs
        (build-IsSorted (before ++ r ∷ after)) (to_match-none (find root (strip_query path) m []) e)
        fit (insert_all-Holds_new before empty_node r after free)
