-- ===== src/Server/Refusals.antt =====
-- What is answered where no route is found (src/server.rs).
use mhttp.Common.{
  ◌≡◌, refl, ap, ◌∙◌, true, false, Option, List, [], ◌∷◌, ◌++◌, Bytes, is_empty, Bool-cases,
  Option-cases, inl, inr,
}
use mhttp.Method.{HttpMethod, method_eq, method_eq_iff, get, post, put, delete, patch}
use mhttp.Router.{RouteDefinition, Node, build, find_route, parse_segments, strip_query}
use mhttp.Router.Answers.{find_route_complete}
use mhttp.Router.Held.{Fits}
use mhttp.Router.Build.{Unreplaced}
use mhttp.Cors.{Cors}
use mhttp.Response.{
  HttpResponse, add_header, any_ignore_case, reserved_headers, empty, set_status_code,
}
use mhttp.Response.Status.{method_not_allowed}
use mhttp.Call.{HttpCall}
use mhttp.Server.{Handler, is_found, methods_in, allowed_methods, has_method, no_route}

methods_in_lem :
    {X : Type 0} (router : Node X) (route : Bytes) (m : HttpMethod) (ms : List HttpMethod)
    → has_method m ms ≡ true
    → is_found (find_route router m route) ≡ true
    → has_method m (methods_in router route ms) ≡ true
unfolding has_method methods_in
methods_in_lem router route m [] there found = absurd (cc)
methods_in_lem router route m (n ∷ ms) there found = elim (Bool-cases (method_eq n m)) [
  | inl same ↦
      let (to_path, _) = method_eq_iff n m in
      let here = ap (λ k. is_found (find_route router k route)) (to_path same) ∙ found in
      rw (here, same) refl
  | inr other ↦
      let later = methods_in_lem router route m ms (rw other at there) found in
      elim (Bool-cases (is_found (find_route router n route))) [
        | inl here ↦ rw (here, other) later
        | inr gone ↦ rw gone later
      ]
]

not_empty : (m : HttpMethod) (ms : List HttpMethod) → has_method m ms ≡ true → is_empty ms ≡ false
unfolding has_method
not_empty m [] h = absurd (cc)
not_empty m (n ∷ ms) h = refl

module _ {X : Type 0} where
  found_of :
      (before : List (RouteDefinition X)) (r : RouteDefinition X) (after : List (RouteDefinition X))
      (path : Bytes) (vs : List Bytes)
      → Unreplaced r after
      → Fits (parse_segments r.pattern) (strip_query path) vs
      → is_found (find_route (build (before ++ r ∷ after)) r.method path) ≡ true
  found_of before r after path vs free fit =
      elim (Option-cases (find_route (build (before ++ r ∷ after)) r.method path)) [
        | inl gone ↦
            let differs = find_route_complete before r after r.method path vs free fit gone in
            let (_, of_path) = method_eq_iff r.method r.method in
            let same = of_path refl in absurd (cc)
        | inr (x, here) ↦ rw here refl
      ]

module _ {H : Type 0} where
  add_header-status :
      (name value : Bytes) (r : HttpResponse H)
      → (add_header name value r).status_code ≡ r.status_code
  unfolding add_header
  add_header-status name value r = elim (Bool-cases (any_ignore_case name reserved_headers)) [
    | inl e ↦ rw e refl
    | inr e ↦ rw e refl
  ]

  -- Where no route answers, but one with a method among get, post, put, delete and patch has a
  -- pattern that the path fits, and no later route took its catch-all's place, the answer is not that
  -- the path is not found: its status is that the method is not allowed, and the allowed methods have the route's.
  pub no_route-offers :
      (before : List (RouteDefinition (Handler H))) (r : RouteDefinition (Handler H))
      (after : List (RouteDefinition (Handler H))) (cors : Option Cors) (call : HttpCall H)
      (vs : List Bytes)
      → Unreplaced r after
      → Fits (parse_segments r.pattern) (strip_query call.request.route) vs
      → has_method r.method (get ∷ post ∷ put ∷ delete ∷ patch ∷ []) ≡ true
      → (has_method r.method (allowed_methods (build (before ++ r ∷ after)) call.request.route)
          ≡ true)
        × ((no_route (build (before ++ r ∷ after)) cors call).status_code ≡ method_not_allowed)
  unfolding no_route allowed_methods empty set_status_code
  no_route-offers before r after cors call vs free fit common =
      let router = build (before ++ r ∷ after) in
      let there =
        methods_in_lem router call.request.route r.method (get ∷ post ∷ put ∷ delete ∷ patch ∷ [])
          common (found_of before r after call.request.route vs free fit) in
      let some_method = not_empty r.method (allowed_methods router call.request.route) there in
      (there, rw some_method (add_header-status _ _ _))
