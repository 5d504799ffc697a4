-- ===== src/Router.antt =====
-- src/router.rs: the prefix tree of route patterns. A handler or middleware is an opaque value of a
-- type that the definitions take as a parameter.
pub mod Order
pub mod Held
pub mod Sound
pub mod Complete
pub mod Places
pub mod Build
pub mod Answers
pub mod Shadowing
pub mod Parts
mod Tests
use Prim.Native.Nat.{compare, Ordering}
use mhttp.Common.{
  ℕ, ◌+◌, ◌-◌, Bool, true, false, ◌&&◌, Option, none, some, List, [], ◌∷◌, ◌++◌, Bytes, codes, ◌==◌,
  if◌then◌else◌, length, take, drop, is_empty, bytes_eq, memchr, starts_with, ends_with,
  trim_start_by, split, filter_non_empty, map,
}
use mhttp.Method.{HttpMethod, method_eq}

-- `RouteDefinition` of src/route_definition.rs
pub record RouteDefinition (H : Type 0) : Type 0 where
  pub pattern : Bytes
  pub method : HttpMethod
  pub handler : H
  pub middleware : List H

pub data Segment : Type 0 where
  static : Bytes → Segment
  param : Bytes → Segment
  catch_all : Segment

unfoldable pub from_str : Bytes → Segment
unfolding bytes_eq starts_with ends_with
from_str s =
    if bytes_eq s (codes "{__path__}")
    then catch_all
    else if starts_with s (codes "{") && ends_with s (codes "}")
    then param (take (length s - 2) (drop 1 s))
    else static s

abbrev pub Params : Type 0
Params = List (Bytes × Bytes)

-- `Node`; `static_children` and `param_child` are types of their own.
mutual
  pub data Node (H : Type 0) : Type 0 where
    node :
        (handlers : List (RouteDefinition H))
        → Children H
        → ParamChild H
        → (catch : Option (RouteDefinition H)) → Node H

  pub data Children (H : Type 0) : Type 0 where
    nil : Children H
    child : Bytes → Node H → Children H → Children H

  pub data ParamChild (H : Type 0) : Type 0 where
    absent : ParamChild H
    present : Bytes → Node H → ParamChild H

abbrev pub by_order {ℓ} : {A : Type ℓ} → Ordering → A → A → A → A
by_order Ordering.lt less equal greater = less
by_order Ordering.eq less equal greater = equal
by_order Ordering.gt less equal greater = greater

-- `str::cmp`: byte by byte, a prefix first
unfoldable pub compare_bytes : Bytes → Bytes → Ordering
compare_bytes [] [] = Ordering.eq
compare_bytes [] (_ ∷ _) = Ordering.lt
compare_bytes (_ ∷ _) [] = Ordering.gt
compare_bytes (a ∷ s) (b ∷ t) = elim (compare a b) [
  | Ordering.lt ↦ Ordering.lt
  | Ordering.eq ↦ compare_bytes s t
  | Ordering.gt ↦ Ordering.gt
]

abbrev pub is_slash : ℕ → Bool
is_slash c = c == b'/'

-- The first segment of a path that begins with none of its slashes.
abbrev pub segment_of : Bytes → Option (Bytes × Bytes)
segment_of trimmed = if is_empty trimmed then none else elim (memchr b'/' trimmed) [
  | some idx ↦ some (take idx trimmed, drop idx trimmed)
  | none ↦ some (trimmed, [])
]

unfoldable pub next_segment : Bytes → Option (Bytes × Bytes)
unfolding trim_start_by memchr
next_segment path = segment_of (trim_start_by is_slash path)

unfoldable pub parse_segments : Bytes → List Segment
unfolding split filter_non_empty from_str
parse_segments pattern = map from_str (filter_non_empty (split b'/' pattern))

-- What a search returns: the route, if there is one, and the parameters captured so far.
abbrev pub Found : Type 0 → Type 0
Found H = Option (RouteDefinition H) × Params

module _ {H : Type 0} where
  abbrev pub empty_node : Node H
  empty_node = node [] nil absent none

  -- `binary_search_by`, then an update at the position found, or an insertion there. The keys are
  -- ascending, so the search finds what a scan in order does.
  pub upsert_child : Bytes → (Node H → Node H) → Children H → Children H
  upsert_child s f nil = child s (f empty_node) nil
  upsert_child s f (child k n cs) = elim (compare_bytes k s) [
    | Ordering.lt ↦ child k n (upsert_child s f cs)
    | Ordering.eq ↦ child k (f n) cs
    | Ordering.gt ↦ child s (f empty_node) (child k n cs)
  ]

  abbrev upsert_param : Bytes → (Node H → Node H) → ParamChild H → ParamChild H
  upsert_param name f absent = present name (f empty_node)
  upsert_param name f (present x n) = present x (f n)

  -- `Node::insert`
  unfoldable pub insert : List Segment → RouteDefinition H → Node H → Node H
  unfolding upsert_child compare_bytes
  insert [] route (node hs cs pc ca) = node (hs ++ route ∷ []) cs pc ca
  insert (static s ∷ segs) route (node hs cs pc ca) =
      node hs (upsert_child s (insert segs route) cs) pc ca
  insert (param x ∷ segs) route (node hs cs pc ca) =
      node hs cs (upsert_param x (insert segs route) pc) ca
  insert (catch_all ∷ segs) route (node hs cs pc ca) = node hs cs pc (some route)

  -- `handlers.iter().find(|r| &r.method == method)`
  unfoldable pub find_handler : HttpMethod → List (RouteDefinition H) → Option (RouteDefinition H)
  unfolding method_eq
  find_handler m [] = none
  find_handler m (r ∷ rs) = if method_eq r.method m then some r else find_handler m rs

  -- The next attempt goes on with the parameters that the last one left.
  abbrev pub or_try : Found H → (Params → Found H) → Found H
  or_try (some r, ps) next = (some r, ps)
  or_try (none, ps) next = next ps

  abbrev pub of_handler : Option (RouteDefinition H) → Params → (Params → Found H) → Found H
  of_handler (some r) ps next = (some r, ps)
  of_handler none ps next = next ps

  -- The catch-all of a node, with the rest of the path as its value.
  unfoldable pub find_catch : Option (RouteDefinition H) → HttpMethod → Bytes → Params → Found H
  unfolding method_eq
  find_catch none m tail ps = (none, ps)
  find_catch (some r) m tail ps =
      if method_eq r.method m then (some r, ps ++ (codes "__path__", tail) ∷ []) else (none, ps)

  -- `match next_segment(path)`
  abbrev pub on_segment : Option (Bytes × Bytes) → Found H → (Bytes → Bytes → Found H) → Found H
  on_segment none at_end inside = at_end
  on_segment (some (seg, rest)) at_end inside = inside seg rest

  -- Backtracking from a parameter: `params.truncate(saved_len)`.
  abbrev pub truncate : ℕ → Found H → Found H
  truncate saved (some r, ps) = (some r, ps)
  truncate saved (none, ps) = (none, take saved ps)

-- `Node::find`: the node, its static children at a segment, and its parameter child.
unfoldable mutual
  unfolding find_handler find_catch next_segment compare_bytes trim_start_by

  pub find : {H : Type 0} → Node H → Bytes → HttpMethod → Params → Found H
  find (node hs cs pc ca) path m ps =
      on_segment (next_segment path) (of_handler (find_handler m hs) ps (find_catch ca m []))
        (λ seg rest. or_try (find_static cs seg rest m ps) (λ ps1.
          or_try (find_param pc seg rest m ps1) (find_catch ca m (trim_start_by is_slash path))))

  pub find_static : {H : Type 0} → Children H → Bytes → Bytes → HttpMethod → Params → Found H
  find_static nil seg rest m ps = (none, ps)
  find_static (child k n cs) seg rest m ps =
      let after = find_static cs seg rest m ps in
      let here = find n rest m ps in by_order (compare_bytes k seg) after here (none, ps)

  pub find_param : {H : Type 0} → ParamChild H → Bytes → Bytes → HttpMethod → Params → Found H
  find_param absent seg rest m ps = (none, ps)
  find_param (present x n) seg rest m ps =
      truncate (length ps) (find n rest m (ps ++ (x, seg) ∷ []))

-- The path in front of the query.
unfoldable pub strip_query : Bytes → Bytes
unfolding memchr
strip_query path = elim (memchr b'?' path) [ some i ↦ take i path | none ↦ path ]

module _ {H : Type 0} where
  -- `Router::build`: the root after every route has been inserted.
  unfoldable pub insert_all : List (RouteDefinition H) → Node H → Node H
  unfolding insert parse_segments
  insert_all [] root = root
  insert_all (r ∷ rs) root = insert_all rs (insert (parse_segments r.pattern) r root)

  unfoldable pub build : List (RouteDefinition H) → Node H
  unfolding insert_all
  build routes = insert_all routes empty_node

  abbrev pub to_match : Found H → Option (RouteDefinition H × Params)
  to_match (some r, ps) = some (r, ps)
  to_match (none, ps) = none

  -- `Router::find`: the route with its parameters
  unfoldable pub find_route : Node H → HttpMethod → Bytes → Option (RouteDefinition H × Params)
  unfolding find strip_query
  find_route root m path = to_match (find root (strip_query path) m [])
