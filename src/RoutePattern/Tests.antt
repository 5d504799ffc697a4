-- ===== src/RoutePattern/Tests.antt =====
-- Patterns that `validate_route` (src/route_definition.rs) accepts and refuses.
use mhttp.Common.{◌≡◌, ◌↔◌, refl, Bytes, codes}
use mhttp.RoutePattern.{valid, invalid, catch_all_inside, unclosed, invalid_name, validate_route}
use mhttp.RoutePattern.Routes.{IsRoute, validate_route-IsRoute}

accepted_test : validate_route (codes "/users/{id}/files/{__path__}") ≡ valid
unfolding validate_route
accepted_test = refl

inside_test : validate_route (codes "/{__path__}/x") ≡ invalid catch_all_inside
unfolding validate_route
inside_test = refl

digit_test : validate_route (codes "/{1a}") ≡ invalid invalid_name
unfolding validate_route
digit_test = refl

unclosed_test : validate_route (codes "/{a") ≡ invalid unclosed
unfolding validate_route
unclosed_test = refl

-- Two names in one segment
two_names_test : validate_route (codes "/{a}{b}") ≡ valid
unfolding validate_route
two_names_test = refl

abbrev one_name : Bytes
one_name = codes "/u/{id}"

validate_route-IsRoute_example : (validate_route one_name ≡ valid) ↔ IsRoute one_name
validate_route-IsRoute_example = validate_route-IsRoute one_name
