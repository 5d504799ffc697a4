-- ===== src/RouteBuilder/Tests.antt =====
-- A route that is built with its method after its handler.
use mhttp.Common.{ℕ, ◌≡◌, ◌↔◌, refl, some, [], ◌∷◌, codes}
use mhttp.Method
use mhttp.RouteBuilder.{Defined, ok, route_handler_missing, route_handler_present, build_route}
use mhttp.Router.{RouteDefinition}
use mhttp.RouteBuilder.Laws.{
  Calls, new, handler, method, middleware, run, route_of, method_of, middleware_of, handlers_of,
  build_route-run,
}
use mhttp.RoutePattern.Routes.{IsRoute}

abbrev calls : Calls ℕ route_handler_present
calls = method route_handler_present Method.post (
    middleware route_handler_present 2
      (handler 7 (middleware route_handler_missing 1 (new (codes "/a/{id}")))))

build_route-run_example :
    (h : ℕ) × (handlers_of route_handler_present calls ≡ some h)
    × (r : Defined (RouteDefinition ℕ)) × (build_route (run route_handler_present calls) ≡ some r)
    × ((r
          ≡ ok (record {
            pattern = route_of route_handler_present calls;
            method = method_of route_handler_present calls;
            handler = h;
            middleware = middleware_of route_handler_present calls;
          }))
        ↔ IsRoute (route_of route_handler_present calls))
build_route-run_example = build_route-run calls

middleware_test : middleware_of route_handler_present calls ≡ 1 ∷ 2 ∷ []
unfolding middleware_of
middleware_test = refl
