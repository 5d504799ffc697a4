-- ===== src/RouteBuilder/Laws.antt =====
-- What `RouteDefinitionBuilder` (src/route_definition.rs) builds, for every chain of calls that its types
-- allow.
use mhttp.Common.{◌≡◌, ◌↔◌, refl, ap, Option, none, some, List, [], ◌∷◌, ◌++◌, Bytes}
use mhttp.Method.{HttpMethod, get}
use mhttp.Router.{RouteDefinition}
use mhttp.RoutePattern.{Verdict, valid, invalid, validate_route}
use mhttp.RoutePattern.Routes.{IsRoute, validate_route-IsRoute}
use mhttp.RouteBuilder.{
  Defined, ok, State, route_handler_missing, route_handler_present, RouteDefinitionBuilder,
  after_check, new_definition, new_builder, set_handler, set_method, push_middleware, build_route,
}

-- A chain of calls on a builder
pub data Calls (H : Type 0) : State → Type 0 where
  new : Bytes → Calls H route_handler_missing
  handler : H → Calls H route_handler_missing → Calls H route_handler_present
  method : (S : State) → HttpMethod → Calls H S → Calls H S
  middleware : (S : State) → H → Calls H S → Calls H S

after_check-ok : {A : Type 0} (v : Verdict) (a : A) → (after_check v a ≡ ok a) ↔ (v ≡ valid)
after_check-ok valid a = (λ _. refl, λ _. refl)
after_check-ok (invalid e) a = (λ h. absurd (cc), λ h. absurd (cc))

module _ {H : Type 0} where
  unfoldable pub run : (S : State) → Calls H S → RouteDefinitionBuilder H S
  unfolding new_builder set_handler set_method push_middleware
  run _ (new route) = new_builder route
  run _ (handler h calls) = set_handler h (run route_handler_missing calls)
  run _ (method S m calls) = set_method m (run S calls)
  run _ (middleware S m calls) = push_middleware m (run S calls)

  unfoldable pub route_of : (S : State) → Calls H S → Bytes
  route_of _ (new route) = route
  route_of _ (handler h calls) = route_of route_handler_missing calls
  route_of _ (method S m calls) = route_of S calls
  route_of _ (middleware S m calls) = route_of S calls

  -- The last method that was named, or GET
  unfoldable pub method_of : (S : State) → Calls H S → HttpMethod
  method_of _ (new route) = get
  method_of _ (handler h calls) = method_of route_handler_missing calls
  method_of _ (method S m calls) = m
  method_of _ (middleware S m calls) = method_of S calls

  -- The middleware in the order of the calls
  unfoldable pub middleware_of : (S : State) → Calls H S → List H
  middleware_of _ (new route) = []
  middleware_of _ (handler h calls) = middleware_of route_handler_missing calls
  middleware_of _ (method S m calls) = middleware_of S calls
  middleware_of _ (middleware S m calls) = middleware_of S calls ++ m ∷ []

  unfoldable pub handlers_of : (S : State) → Calls H S → Option H
  handlers_of _ (new route) = none
  handlers_of _ (handler h calls) = some h
  handlers_of _ (method S m calls) = handlers_of S calls
  handlers_of _ (middleware S m calls) = handlers_of S calls

  run-route : (S : State) (calls : Calls H S) → (run S calls).route ≡ route_of S calls
  unfolding run route_of new_builder set_handler set_method push_middleware
  run-route _ (new route) = refl
  run-route _ (handler h calls) = run-route route_handler_missing calls
  run-route _ (method S m calls) = run-route S calls
  run-route _ (middleware S m calls) = run-route S calls

  run-method : (S : State) (calls : Calls H S) → (run S calls).method ≡ method_of S calls
  unfolding run method_of new_builder set_handler set_method push_middleware
  run-method _ (new route) = refl
  run-method _ (handler h calls) = run-method route_handler_missing calls
  run-method _ (method S m calls) = refl
  run-method _ (middleware S m calls) = run-method S calls

  run-middleware :
      (S : State) (calls : Calls H S) → (run S calls).middleware ≡ middleware_of S calls
  unfolding run middleware_of new_builder set_handler set_method push_middleware
  run-middleware _ (new route) = refl
  run-middleware _ (handler h calls) = run-middleware route_handler_missing calls
  run-middleware _ (method S m calls) = run-middleware S calls
  run-middleware _ (middleware S m calls) = ap (λ ms. ms ++ m ∷ []) (run-middleware S calls)

  -- The handler of a chain that has one
  abbrev IsPresent : (S : State) → Calls H S → Type 0
  IsPresent route_handler_missing calls = Unit
  IsPresent route_handler_present calls =
      (h : H) × ((run route_handler_present calls).handler ≡ some h)
      × (handlers_of route_handler_present calls ≡ some h)

  run-handler : (S : State) (calls : Calls H S) → IsPresent S calls
  unfolding run handlers_of new_builder set_handler set_method push_middleware
  run-handler _ (new route) = tt
  run-handler _ (handler h calls) = (h, refl, refl)
  run-handler _ (method route_handler_missing m calls) = tt
  run-handler _ (method route_handler_present m calls) = run-handler route_handler_present calls
  run-handler _ (middleware route_handler_missing m calls) = tt
  run-handler _ (middleware route_handler_present m calls) = run-handler route_handler_present calls

  built :
      (calls : Calls H route_handler_present)
      → (h : H) × (handlers_of route_handler_present calls ≡ some h)
        × (build_route (run route_handler_present calls)
            ≡ some (
                new_definition
                  (method_of route_handler_present calls)
                  (route_of route_handler_present calls)
                  h
                  (middleware_of route_handler_present calls)))
  unfolding build_route
  built calls =
      let (h, e, f) = run-handler route_handler_present calls in
      (
        h,
        f,
        rw
            (
              e,
              run-method route_handler_present calls,
              run-route route_handler_present calls,
              run-middleware route_handler_present calls,
            )
            refl,
      )

  -- Every chain of calls that the types allow, with a handler at its end or before, can be built without
  -- a panic; it gives the route, the last method or GET, the handler and the middleware in order,
  -- exactly where the route is one of the grammar, and an error elsewhere.
  pub build_route-run :
      (calls : Calls H route_handler_present)
      → (h : H) × (handlers_of route_handler_present calls ≡ some h)
        × (r : Defined (RouteDefinition H)) × (build_route (run route_handler_present calls)
            ≡ some r)
        × ((r
              ≡ ok (record {
                pattern = route_of route_handler_present calls;
                method = method_of route_handler_present calls;
                handler = h;
                middleware = middleware_of route_handler_present calls;
              }))
            ↔ IsRoute (route_of route_handler_present calls))
  unfolding new_definition
  build_route-run calls =
      let (h, given, e) = built calls in
      let route = route_of route_handler_present calls in
      let (to_valid, of_valid) = after_check-ok (validate_route route) _ in
      let (to_route, of_route) = validate_route-IsRoute route in
      (h, given, _, e, (λ same. to_route (to_valid same), λ good. of_valid (of_route good)))
