-- ===== src/Router/Tests.antt =====
-- Runs of src/router.rs and the theorems about it at concrete inputs.
use mhttp.Common.{ℕ, ◌≡◌, refl, false, none, some, List, [], ◌∷◌, Bytes, codes, inl}
use mhttp.Method.{HttpMethod, method_eq}
use mhttp.Router.{
  RouteDefinition, static, catch_all, build, find, find_route, strip_query, parse_segments,
  next_segment, insert,
}
use mhttp.Router.Order.{IsSorted, insert-IsSorted, build-IsSorted}
use mhttp.Router.Held.{In, Fits, finish, literal}
use mhttp.Router.Answers.{find_route_sound, find_route_complete}
use mhttp.Router.Build.{Unreplaced}
use mhttp.Router.Shadowing.{catch_all_replaced, param_name_of_first}

abbrev route : HttpMethod → Bytes → RouteDefinition ℕ
route m p = record { pattern = p; method = m; handler = 0; middleware = [] }

abbrev user : RouteDefinition ℕ
user = route HttpMethod.get (codes "/users/{id}")

abbrev me : RouteDefinition ℕ
me = route HttpMethod.get (codes "/users/me")

abbrev assets : RouteDefinition ℕ
assets = route HttpMethod.get (codes "/assets/{__path__}")

abbrev table : List (RouteDefinition ℕ)
table = user ∷ me ∷ assets ∷ []

search_runs :
    (find_route (build table) HttpMethod.get (codes "/users/7?x=1")
      ≡ some (user, (codes "id", codes "7") ∷ []))
    × (find_route (build table) HttpMethod.get (codes "/users//me/") ≡ some (me, []))
    × (find_route (build table) HttpMethod.get (codes "/assets/a/b")
        ≡ some (assets, (codes "__path__", codes "a/b") ∷ []))
    × (find_route (build table) HttpMethod.get (codes "/assets")
        ≡ some (assets, (codes "__path__", []) ∷ []))
    × (find_route (build table) HttpMethod.post (codes "/users/me") ≡ none)
unfolding find_route build
search_runs = (refl, refl, refl, refl, refl)

insert-IsSorted_example : IsSorted (insert (static (codes "a") ∷ []) user (build table))
insert-IsSorted_example =
    insert-IsSorted (static (codes "a") ∷ []) user (build table) (build-IsSorted table)

missed :
    (find (build table) (codes "/users/7/x") HttpMethod.get ((codes "k", codes "v") ∷ [])).0 ≡ none
unfolding find build
missed = refl

find_route_sound_example :
    In user table
    × (user.method ≡ HttpMethod.get)
    × Fits (parse_segments user.pattern) (strip_query (codes "/users/7?x=1")) (codes "7" ∷ [])
find_route_sound_example =
    find_route_sound table HttpMethod.get (codes "/users/7?x=1") user ((codes "id", codes "7") ∷ [])
      search_runs.0

me-Fits : Fits (parse_segments me.pattern) (strip_query (codes "/users/me")) []
unfolding parse_segments strip_query next_segment
me-Fits = literal refl (literal refl (finish refl))

me-Unreplaced : Unreplaced me (assets ∷ [])
unfolding parse_segments
me-Unreplaced = (inl tt, tt)

find_route_complete_example : method_eq me.method HttpMethod.post ≡ false
find_route_complete_example =
    find_route_complete (user ∷ []) me (assets ∷ []) HttpMethod.post (codes "/users/me") []
      me-Unreplaced me-Fits search_runs.4

abbrev all_get : RouteDefinition ℕ
all_get = route HttpMethod.get (codes "/{__path__}")

abbrev all_post : RouteDefinition ℕ
all_post = route HttpMethod.post (codes "/{__path__}")

all-parse : parse_segments (codes "/{__path__}") ≡ catch_all ∷ []
unfolding parse_segments
all-parse = refl

post-ne-get : method_eq HttpMethod.post HttpMethod.get ≡ false
unfolding method_eq
post-ne-get = refl

catch_all_replaced_example :
    find_route (build (all_get ∷ all_post ∷ [])) HttpMethod.get (codes "/x") ≡ none
catch_all_replaced_example =
    catch_all_replaced all_get all_post (codes "/x") all-parse all-parse post-ne-get

abbrev by_id : RouteDefinition ℕ
by_id = route HttpMethod.get (codes "/{id}")

abbrev by_name : RouteDefinition ℕ
by_name = route HttpMethod.get (codes "/{name}/x")

param_name_of_first_example :
    find_route (build (by_id ∷ by_name ∷ [])) HttpMethod.get (codes "/ann/x")
    ≡ some (by_name, (codes "id", codes "ann") ∷ [])
unfolding parse_segments strip_query next_segment
param_name_of_first_example =
    param_name_of_first by_id by_name (codes "id") (codes "name") (codes "x") (codes "ann")
      (codes "/ann/x") (codes "/x") [] refl refl refl refl refl
