-- ===== src/RoutePattern.antt =====
-- `RouteDefinition::validate_route` of src/route_definition.rs. Braces are ASCII, so a walk over the
-- bytes of the route meets them where a walk over its characters does.
pub mod Grammar
pub mod Routes
pub mod Tests
use mhttp.Common.{
  ℕ, suc, ◌+◌, Bool, true, false, ◌&&◌, ◌||◌, not, Option, none, some, List, [], ◌∷◌, ◌++◌, Bytes,
  codes, leb, ◌==◌, if◌then◌else◌, drop, is_empty, starts_with, bytes_eq,
}
use mathlib.Core.Option

pub data RouteError : Type 0 where
  no_slash : RouteError
  unexpected_open : RouteError
  unexpected_close : RouteError
  empty_name : RouteError
  invalid_name : RouteError
  unclosed : RouteError
  catch_all_inside : RouteError

pub data Verdict : Type 0 where
  valid : Verdict
  invalid : RouteError → Verdict

abbrev is_alphabetic : ℕ → Bool
is_alphabetic c = (leb b'A' c && leb c b'Z') || (leb b'a' c && leb c b'z')

abbrev pub starts_name : ℕ → Bool
starts_name c = is_alphabetic c || c == b'_'

abbrev pub in_name : ℕ → Bool
in_name c = (is_alphabetic c || (leb b'0' c && leb c b'9')) || c == b'_'

unfoldable pub all_in_name : Bytes → Bool
all_in_name [] = true
all_in_name (c ∷ s) = in_name c && all_in_name s

unfoldable pub is_valid_param_name : Bytes → Bool
unfolding all_in_name
is_valid_param_name [] = false
is_valid_param_name (c ∷ s) = starts_name c && all_in_name s

-- `for (i, ch) in route.char_indices()`, with `in_param` and `param_name`
unfoldable pub scan : Bool → Bytes → Bytes → Verdict
unfolding is_valid_param_name
scan true param_name [] = invalid unclosed
scan false param_name [] = valid
scan true param_name (c ∷ s) =
    let closed = scan false param_name s in
    let longer = scan true (param_name ++ c ∷ []) s in
    if c == b'{'
    then invalid unexpected_open
    else if c == b'}'
    then if is_empty param_name
      then invalid empty_name
      else if is_valid_param_name param_name
      then closed
      else invalid invalid_name
    else longer
scan false param_name (c ∷ s) =
    let opened = scan true [] s in
    let on = scan false param_name s in
    if c == b'{' then opened else if c == b'}' then invalid unexpected_close else on

-- `str::find`, as what stands behind the first occurrence
unfoldable pub after_first : ℕ → Bytes → Bytes → Option Bytes
unfolding starts_with
after_first skip pattern [] = if is_empty pattern then some [] else none
after_first skip pattern (c ∷ s) =
    let later = after_first skip pattern s in
    if starts_with (c ∷ s) pattern then some (drop skip (c ∷ s)) else later

-- The catch-all stands at the end, or a slash alone behind it.
unfoldable pub ends_route : Option Bytes → Verdict
unfolding bytes_eq
ends_route none = valid
ends_route (some tail) =
    if not (is_empty tail) && not (bytes_eq tail (codes "/"))
    then invalid catch_all_inside
    else valid

abbrev pub and_then : Verdict → Verdict → Verdict
and_then valid next = next
and_then (invalid e) next = invalid e

unfoldable pub validate_route : Bytes → Verdict
unfolding starts_with scan after_first ends_route
validate_route route =
    if starts_with route (codes "/")
    then and_then (scan false [] route) (ends_route (after_first 10 (codes "{__path__}") route))
    else invalid no_slash
