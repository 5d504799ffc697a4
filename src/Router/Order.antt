-- ===== src/Router/Order.antt =====
-- The order of the static children in src/router.rs: insertion keeps the keys ascending, which the
-- binary searches rely on.
use Prim.Native.Nat.{Ordering}
use mhttp.Common.{◌≡◌, refl, List, [], ◌∷◌, arith, Bytes, ◌⊎◌, inl, inr}
use mhttp.Router.{
  RouteDefinition, Segment, static, param, catch_all, Node, node, Children, nil, child, ParamChild,
  absent, present, compare_bytes, upsert_child, insert, empty_node, insert_all, build,
  parse_segments,
}

pub Ordering-cases : (o : Ordering) → (o ≡ Ordering.lt) ⊎ ((o ≡ Ordering.eq) ⊎ (o ≡ Ordering.gt))
Ordering-cases Ordering.lt = inl refl
Ordering-cases Ordering.eq = inr (inl refl)
Ordering-cases Ordering.gt = inr (inr refl)

pub compare_bytes_refl : (s : Bytes) → compare_bytes s s ≡ Ordering.eq
unfolding compare_bytes
compare_bytes_refl [] = refl
compare_bytes_refl (a ∷ s) = ground (arith, compare_bytes_refl s)

pub compare_bytes_eq : (s t : Bytes) → compare_bytes s t ≡ Ordering.eq → s ≡ t
unfolding compare_bytes
compare_bytes_eq [] [] h = refl
compare_bytes_eq [] (_ ∷ _) h = cc
compare_bytes_eq (_ ∷ _) [] h = cc
compare_bytes_eq (a ∷ s) (b ∷ t) h = ground (arith, compare_bytes_eq s t)

pub compare_bytes_flip :
    (s t : Bytes) → compare_bytes s t ≡ Ordering.gt → compare_bytes t s ≡ Ordering.lt
unfolding compare_bytes
compare_bytes_flip [] [] h = cc
compare_bytes_flip [] (_ ∷ _) h = cc
compare_bytes_flip (_ ∷ _) [] h = refl
compare_bytes_flip (a ∷ s) (b ∷ t) h = ground (arith, compare_bytes_flip s t)

pub compare_bytes_trans :
    (s t u : Bytes)
    → compare_bytes s t ≡ Ordering.lt
    → compare_bytes t u ≡ Ordering.lt
    → compare_bytes s u ≡ Ordering.lt
unfolding compare_bytes
compare_bytes_trans [] [] u h k = cc
compare_bytes_trans [] (b ∷ t) [] h k = cc
compare_bytes_trans [] (b ∷ t) (c ∷ u) h k = refl
compare_bytes_trans (a ∷ s) [] u h k = cc
compare_bytes_trans (a ∷ s) (b ∷ t) [] h k = cc
compare_bytes_trans (a ∷ s) (b ∷ t) (c ∷ u) h k = ground (arith, compare_bytes_trans s t u)

module _ {H : Type 0} where
  -- Every key comes after `k`.
  abbrev pub Above : Bytes → Children H → Type 0
  Above k nil = Unit
  Above k (child j n cs) = (compare_bytes k j ≡ Ordering.lt) × Above k cs

abbrev mutual
  pub IsSorted : {H : Type 0} → Node H → Type 0
  IsSorted (node hs cs pc ca) = IsSortedChildren cs × IsSortedParam pc

  pub IsSortedChildren : {H : Type 0} → Children H → Type 0
  IsSortedChildren nil = Unit
  IsSortedChildren (child k n cs) = IsSorted n × (Above k cs × IsSortedChildren cs)

  pub IsSortedParam : {H : Type 0} → ParamChild H → Type 0
  IsSortedParam absent = Unit
  IsSortedParam (present x n) = IsSorted n

module _ {H : Type 0} where
  pub Above-trans :
      (j k : Bytes) (cs : Children H) → compare_bytes j k ≡ Ordering.lt → Above k cs → Above j cs
  Above-trans j k nil h above = tt
  Above-trans j k (child i n cs) h (first, above) =
      (compare_bytes_trans j k i h first, Above-trans j k cs h above)

  upsert_child-Above :
      (j s : Bytes) (f : Node H → Node H) (cs : Children H)
      → compare_bytes j s ≡ Ordering.lt
      → Above j cs
      → Above j (upsert_child s f cs)
  unfolding upsert_child
  upsert_child-Above j s f nil h above = (h, tt)
  upsert_child-Above j s f (child k n cs) h above = ground (arith, upsert_child-Above j s f cs h)

  upsert_child-IsSorted :
      (s : Bytes) (f : Node H → Node H) (cs : Children H)
      → ((n : Node H) → IsSorted n → IsSorted (f n))
      → IsSortedChildren cs
      → IsSortedChildren (upsert_child s f cs)
  unfolding upsert_child
  upsert_child-IsSorted s f nil keep h = (keep empty_node (tt, tt), (tt, tt))
  upsert_child-IsSorted s f (child k n cs) keep (sorted, (above, h)) =
      elim (Ordering-cases (compare_bytes k s)) [
        | inl lt ↦
            rw (lt, upsert_child)
              (sorted, (upsert_child-Above k s f cs lt above, upsert_child-IsSorted s f cs keep h))
        | inr (inl eq) ↦ rw (eq, upsert_child) (keep n sorted, (above, h))
        | inr (inr gt) ↦
            let first = compare_bytes_flip k s gt in
            rw (gt, upsert_child)
              (
                keep empty_node (tt, tt),
                ((first, Above-trans s k cs first above), (sorted, (above, h))),
              )
      ]

  -- Inserting a route keeps the static children of every node in ascending order of their keys.
  pub insert-IsSorted :
      (segs : List Segment) (r : RouteDefinition H) (n : Node H)
      → IsSorted n
      → IsSorted (insert segs r n)
  unfolding insert
  insert-IsSorted [] r (node hs cs pc ca) h = h
  insert-IsSorted (static s ∷ segs) r (node hs cs pc ca) (h, k) =
      (upsert_child-IsSorted s (insert segs r) cs (insert-IsSorted segs r) h, k)
  insert-IsSorted (param x ∷ segs) r (node hs cs absent ca) (h, k) =
      (h, insert-IsSorted segs r empty_node (tt, tt))
  insert-IsSorted (param x ∷ segs) r (node hs cs (present y n) ca) (h, k) =
      (h, insert-IsSorted segs r n k)
  insert-IsSorted (catch_all ∷ segs) r (node hs cs pc ca) h = h

  insert_all-IsSorted :
      (routes : List (RouteDefinition H)) (n : Node H) → IsSorted n → IsSorted (insert_all routes n)
  unfolding insert_all
  insert_all-IsSorted [] n h = h
  insert_all-IsSorted (r ∷ rs) n h =
      insert_all-IsSorted rs (insert (parse_segments r.pattern) r n)
        (insert-IsSorted (parse_segments r.pattern) r n h)

  -- So every router that `build` makes has its static children in ascending order, at every node.
  pub build-IsSorted : (routes : List (RouteDefinition H)) → IsSorted (build routes)
  unfolding build
  build-IsSorted routes = insert_all-IsSorted routes empty_node (tt, tt)
