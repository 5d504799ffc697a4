-- ===== src/Macros.antt =====
-- The checks that the procedural macros of macros/src/lib.rs make on their literals: `#[route]` walks
-- its route, and `#[static_files]` makes a route that ends in the catch-all. The parsing of the
-- attributes by `syn`, and the code that `quote` writes, are not part of the source.
pub mod Literals
pub mod Segments
pub mod Tests
use mhttp.Common.{
  ℕ, zero, suc, ◌+◌, Bool, true, false, ◌&&◌, ◌||◌, Option, none, some, List, [], ◌∷◌, ◌++◌, Bytes,
  codes, ◌==◌, if◌then◌else◌, length, take, drop, is_empty, memchr, starts_with, ends_with,
  bytes_eq, split, contains,
}
use mhttp.RoutePattern.{starts_name, all_in_name}

-- The messages of `syn::Error`
pub data LiteralError : Type 0 where
  no_slash : LiteralError
  unclosed : LiteralError
  empty_name : LiteralError
  reserved_name : LiteralError
  invalid_start : LiteralError
  invalid_name : LiteralError
  unexpected_close : LiteralError
  has_params : LiteralError
  has_parent : LiteralError
  has_catch_all : LiteralError

pub data Checked {ℓ} (A : Type ℓ) : Type ℓ where
  accepted : A → Checked A
  refused : LiteralError → Checked A

abbrev pub first_starts_name : Bytes → Bool
first_starts_name [] = false
first_starts_name (c ∷ s) = starts_name c

-- The checks on a parameter's name, and then `rest`
unfoldable pub check_name : Bytes → Checked (Unit {0}) → Checked (Unit {0})
unfolding starts_with ends_with all_in_name
check_name name rest =
    if is_empty name
    then refused empty_name
    else if starts_with name (codes "__") && ends_with name (codes "__")
    then refused reserved_name
    else if first_starts_name name
    then if all_in_name (drop 1 name) then rest else refused invalid_name
    else refused invalid_start

-- The walk over the bytes. A step uses a byte at least, so the length is fuel enough.
unfoldable pub walk : ℕ → Bytes → Checked (Unit {0})
unfolding memchr check_name
walk fuel [] = accepted tt
walk zero (c ∷ s) = refused unclosed
walk (suc fuel) (c ∷ s) =
    let plain = walk fuel s in
    if c == b'{'
    then (elim (memchr b'}' s) [
      | none ↦ refused unclosed
      | some i ↦ check_name (take i s) (walk fuel (drop (i + 1) s))
    ])
    else if c == b'}'
    then refused unexpected_close
    else plain

unfoldable pub validate_route_literal : Bytes → Checked (Unit {0})
unfolding starts_with walk
validate_route_literal s = if starts_with s (codes "/") then walk (length s) s else refused no_slash

-- `final_route` of `static_files`
unfoldable pub final_route : Bytes → Bytes
unfolding ends_with
final_route route =
    if ends_with route (codes "/")
    then route ++ codes "{__path__}"
    else route ++ (codes "/" ++ codes "{__path__}")

unfoldable pub any_parent : List Bytes → Bool
unfolding bytes_eq
any_parent [] = false
any_parent (seg ∷ segs) = bytes_eq seg (codes "..") || any_parent segs

-- The checks of `static_files` on its route and its directory, and the route that it registers
unfoldable pub static_route : Bytes → Bytes → Checked Bytes
unfolding contains split any_parent final_route
static_route route dir =
    if contains route (codes "{") || contains route (codes "}")
    then refused has_params
    else if any_parent (split b'/' dir)
    then refused has_parent
    else if contains route (codes "{__path__}")
    then refused has_catch_all
    else accepted (final_route route)
