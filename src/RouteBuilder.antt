-- ===== src/RouteBuilder.antt =====
-- `RouteDefinition::new` and `RouteDefinitionBuilder` of src/route_definition.rs. The state that the source
-- keeps in a marker type, whether a handler is given, is an index of the builder's type.
pub mod Laws
pub mod Tests
use mhttp.Common.{Option, none, some, List, [], ◌∷◌, ◌++◌, Bytes}
use mhttp.Method.{HttpMethod, get}
use mhttp.Router.{RouteDefinition}
use mhttp.RoutePattern.{RouteError, Verdict, valid, invalid, validate_route}

pub data RouteDefinitionError : Type 0 where
  invalid_pattern : RouteError → RouteDefinitionError

pub data Defined (A : Type 0) : Type 0 where
  ok : A → Defined A
  err : RouteDefinitionError → Defined A

pub data State : Type 0 where
  route_handler_missing : State
  route_handler_present : State

pub record RouteDefinitionBuilder (H : Type 0) (S : State) : Type 0 where
  pub route : Bytes
  pub method : HttpMethod
  pub middleware : List H
  pub handler : Option H

abbrev pub after_check : {A : Type 0} → Verdict → A → Defined A
after_check valid a = ok a
after_check (invalid e) a = err (invalid_pattern e)

module _ {H : Type 0} where
  -- `RouteDefinition::new`
  unfoldable pub new_definition : HttpMethod → Bytes → H → List H → Defined (RouteDefinition H)
  unfolding validate_route
  new_definition method route handler middleware =
      after_check (validate_route route)
        (record { pattern = route; method = method; handler = handler; middleware = middleware })

  unfoldable pub new_builder : Bytes → RouteDefinitionBuilder H route_handler_missing
  new_builder route = record { route = route; method = get; middleware = []; handler = none }

  unfoldable pub set_handler :
      H
      → RouteDefinitionBuilder H route_handler_missing
      → RouteDefinitionBuilder H route_handler_present
  set_handler h b = record {
    route = b.route;
    method = b.method;
    middleware = b.middleware;
    handler = some h;
  }

  unfoldable pub set_method :
      {S : State} → HttpMethod → RouteDefinitionBuilder H S → RouteDefinitionBuilder H S
  set_method m b = record b { method = m }

  unfoldable pub push_middleware :
      {S : State} → H → RouteDefinitionBuilder H S → RouteDefinitionBuilder H S
  push_middleware m b = record b { middleware = b.middleware ++ m ∷ [] }

  -- `build`; none is the panic of `unwrap`
  unfoldable pub build_route :
      RouteDefinitionBuilder H route_handler_present → Option (Defined (RouteDefinition H))
  unfolding new_definition
  build_route b = elim b.handler [
    | none ↦ none
    | some h ↦ some (new_definition b.method b.route h b.middleware)
  ]
