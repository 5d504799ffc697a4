-- ===== src/Macros/Tests.antt =====
-- Literals that the macros of macros/src/lib.rs accept and refuse.
use mhttp.Common.{◌≡◌, ◌↔◌, refl, true, Bytes, codes, starts_with, [], ◌∷◌, ◌++◌}
use mhttp.RoutePattern.{valid, validate_route}
use mhttp.Macros.{refused, reserved_name, has_parent, validate_route_literal, static_route}
use mhttp.Macros.Literals.{validate_route_literal-valid}
use mhttp.Macros.Segments.{static_route-registered}
use mhttp.Router.{catch_all, parse_segments}

reserved_test : validate_route_literal (codes "/{__path__}") ≡ refused reserved_name
unfolding validate_route_literal
reserved_test = refl

parent_test : static_route (codes "/a") (codes "x/../y") ≡ refused has_parent
unfolding static_route
parent_test = refl

abbrev users : Bytes
users = codes "/users/{id}"

validate_route_literal-valid_example : validate_route users ≡ valid
unfolding validate_route_literal
validate_route_literal-valid_example = validate_route_literal-valid users refl

static_route-registered_example :
    (parse_segments (codes "assets/{__path__}") ≡ parse_segments (codes "assets") ++ catch_all ∷ [])
    × ((validate_route (codes "assets/{__path__}") ≡ valid)
        ↔ (starts_with (codes "assets" ++ codes "/") (codes "/") ≡ true))
unfolding static_route
static_route-registered_example =
    static_route-registered (codes "assets") (codes "public") (codes "assets/{__path__}") refl
