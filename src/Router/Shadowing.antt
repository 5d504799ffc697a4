-- ===== src/Router/Shadowing.antt =====
-- Two routes at one place of the tree of src/router.rs: a node has one catch-all whatever the method,
-- and one name for its parameter whatever the pattern.
use mhttp.Common.{◌≡◌, refl, false, none, some, [], ◌∷◌, Bytes, inl, inr, Option-cases}
use mhttp.Method.{method_eq, method_eq_iff}
use mhttp.Router.{
  RouteDefinition, static, param, catch_all, find, build, insert, insert_all, parse_segments,
  find_route, strip_query, next_segment, find_catch, find_handler, upsert_child,
}
use mhttp.Router.Order.{compare_bytes_refl}

module _ {H : Type 0} where
  -- Of two routes that are a catch-all at the root the second takes the place of the first: a request
  -- with the first one's method then has no answer, whatever its path, if the methods differ.
  pub catch_all_replaced :
      (r r' : RouteDefinition H) (path : Bytes)
      → parse_segments r.pattern ≡ catch_all ∷ []
      → parse_segments r'.pattern ≡ catch_all ∷ []
      → method_eq r'.method r.method ≡ false
      → find_route (build (r ∷ r' ∷ [])) r.method path ≡ none
  unfolding find_route build insert_all insert find find_catch
  catch_all_replaced r r' path e e' differ =
      rw (e, e')
        (elim (Option-cases (next_segment (strip_query path))) [
          | inl s ↦ rw (s, differ)
          | inr (s, some_segment) ↦ rw (some_segment, differ)
        ])

  -- Where a route under `{x}` was added first, a route under `{y}` and a literal part answers with
  -- the value under the name `x`, and none under its own `y`.
  pub param_name_of_first :
      (r r' : RouteDefinition H) (x y s v path rest rest' : Bytes)
      → parse_segments r.pattern ≡ param x ∷ []
      → parse_segments r'.pattern ≡ param y ∷ static s ∷ []
      → next_segment (strip_query path) ≡ some (v, rest)
      → next_segment rest ≡ some (s, rest')
      → next_segment rest' ≡ none
      → find_route (build (r ∷ r' ∷ [])) r'.method path ≡ some (r', (x, v) ∷ [])
  unfolding find_route build insert_all insert find find_handler upsert_child
  param_name_of_first r r' x y s v path rest rest' e e' a b c =
      rw (e, e', a, b, compare_bytes_refl s, c, (method_eq_iff r'.method r'.method).1 refl)
