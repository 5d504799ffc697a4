-- ===== src/Router/Build.antt =====
-- `Router::build` and `Router::find` of src/router.rs: which routes the finished tree holds.
use mhttp.Common.{◌≡◌, refl, ap, List, [], ◌∷◌, ◌++◌, ◌⊎◌, inl, inr}
use mhttp.Router.{
  RouteDefinition, Segment, static, param, catch_all, Node, node, absent, present, insert,
  insert_all, empty_node, parse_segments,
}
use mhttp.Router.Held.{In, Holds}
use mhttp.Router.Places.{
  Same, NoCatch, empty-Holds, In-concat, In-concat_old, In-concat_new, upsert_self, upsert_old,
  upsert_inv,
}

module _ {H : Type 0} where
  -- The inserted route is held under its segments.
  insert-Holds_self :
      (segs : List Segment) (r : RouteDefinition H) (n : Node H) → Holds (insert segs r n) segs r
  unfolding insert
  insert-Holds_self [] r (node hs cs pc ca) = In-concat_new r hs
  insert-Holds_self (static s ∷ segs) r (node hs cs pc ca) =
      upsert_self s (insert segs r) cs segs r (insert-Holds_self segs r)
  insert-Holds_self (param x ∷ segs) r (node hs cs absent ca) = insert-Holds_self segs r empty_node
  insert-Holds_self (param x ∷ segs) r (node hs cs (present y n) ca) = insert-Holds_self segs r n
  insert-Holds_self (catch_all ∷ segs) r (node hs cs pc ca) = refl

  -- The routes that were held stay, but for one under the same catch-all.
  insert-Holds_old :
      (segs segs' : List Segment) (r r' : RouteDefinition H) (n : Node H)
      → NoCatch segs' ⊎ ¬ Same segs segs'
      → Holds n segs' r'
      → Holds (insert segs r n) segs' r'
  unfolding insert
  insert-Holds_old [] [] r r' (node hs cs pc ca) c h = In-concat_old r' r hs h
  insert-Holds_old [] (static t ∷ segs') r r' (node hs cs pc ca) c h = h
  insert-Holds_old [] (param y ∷ segs') r r' (node hs cs pc ca) c h = h
  insert-Holds_old [] (catch_all ∷ segs') r r' (node hs cs pc ca) c h = h
  insert-Holds_old (static s ∷ segs) [] r r' (node hs cs pc ca) c h = h
  insert-Holds_old (static s ∷ segs) (static t ∷ segs') r r' (node hs cs pc ca) c h =
      upsert_old s t (insert segs r) cs segs' r'
        (λ e n.
          insert-Holds_old segs segs' r r' n
            (elim c [ inl free ↦ inl free | inr apart ↦ inr (λ same. apart (e, same)) ]))
        h
  insert-Holds_old (static s ∷ segs) (param y ∷ segs') r r' (node hs cs pc ca) c h = h
  insert-Holds_old (static s ∷ segs) (catch_all ∷ segs') r r' (node hs cs pc ca) c h = h
  insert-Holds_old (param x ∷ segs) [] r r' (node hs cs pc ca) c h = h
  insert-Holds_old (param x ∷ segs) (static t ∷ segs') r r' (node hs cs pc ca) c h = h
  insert-Holds_old (param x ∷ segs) (param y ∷ segs') r r' (node hs cs absent ca) c h = elim h [ ]
  insert-Holds_old (param x ∷ segs) (param y ∷ segs') r r' (node hs cs (present z n) ca) c h =
      insert-Holds_old segs segs' r r' n c h
  insert-Holds_old (param x ∷ segs) (catch_all ∷ segs') r r' (node hs cs pc ca) c h = h
  insert-Holds_old (catch_all ∷ segs) [] r r' (node hs cs pc ca) c h = h
  insert-Holds_old (catch_all ∷ segs) (static t ∷ segs') r r' (node hs cs pc ca) c h = h
  insert-Holds_old (catch_all ∷ segs) (param y ∷ segs') r r' (node hs cs pc ca) c h = h
  insert-Holds_old (catch_all ∷ segs) (catch_all ∷ segs') r r' (node hs cs pc ca) c h = elim c [
    | inl n ↦ elim n [ ]
    | inr d ↦ absurd (d tt)
  ]

  -- What is held after an insertion was held before, or is the new route at its place.
  pub insert-Holds_inv :
      (segs segs' : List Segment) (r r' : RouteDefinition H) (n : Node H)
      → Holds (insert segs r n) segs' r'
      → Holds n segs' r' ⊎ ((r ≡ r') × Same segs segs')
  unfolding insert
  insert-Holds_inv [] [] r r' (node hs cs pc ca) h = elim (In-concat r' r hs h) [
    | inl old ↦ inl old
    | inr new ↦ inr (new, tt)
  ]
  insert-Holds_inv [] (static t ∷ segs') r r' (node hs cs pc ca) h = inl h
  insert-Holds_inv [] (param y ∷ segs') r r' (node hs cs pc ca) h = inl h
  insert-Holds_inv [] (catch_all ∷ segs') r r' (node hs cs pc ca) h = inl h
  insert-Holds_inv (static s ∷ segs) [] r r' (node hs cs pc ca) h = inl h
  insert-Holds_inv (static s ∷ segs) (static t ∷ segs') r r' (node hs cs pc ca) h =
      elim (upsert_inv ((r ≡ r') × Same segs segs') s t (insert segs r) cs segs' r'
        (insert-Holds_inv segs segs' r r') h) [
          | inl old ↦ inl old
          | inr (same, (is_r, rest)) ↦ inr (is_r, (same, rest))
        ]
  insert-Holds_inv (static s ∷ segs) (param y ∷ segs') r r' (node hs cs pc ca) h = inl h
  insert-Holds_inv (static s ∷ segs) (catch_all ∷ segs') r r' (node hs cs pc ca) h = inl h
  insert-Holds_inv (param x ∷ segs) [] r r' (node hs cs pc ca) h = inl h
  insert-Holds_inv (param x ∷ segs) (static t ∷ segs') r r' (node hs cs pc ca) h = inl h
  insert-Holds_inv (param x ∷ segs) (param y ∷ segs') r r' (node hs cs absent ca) h =
      elim (insert-Holds_inv segs segs' r r' empty_node h) [
        | inl nothing ↦ absurd (empty-Holds segs' r' nothing)
        | inr new ↦ inr new
      ]
  insert-Holds_inv (param x ∷ segs) (param y ∷ segs') r r' (node hs cs (present z n) ca) h =
      insert-Holds_inv segs segs' r r' n h
  insert-Holds_inv (param x ∷ segs) (catch_all ∷ segs') r r' (node hs cs pc ca) h = inl h
  insert-Holds_inv (catch_all ∷ segs) [] r r' (node hs cs pc ca) h = inl h
  insert-Holds_inv (catch_all ∷ segs) (static t ∷ segs') r r' (node hs cs pc ca) h = inl h
  insert-Holds_inv (catch_all ∷ segs) (param y ∷ segs') r r' (node hs cs pc ca) h = inl h
  insert-Holds_inv (catch_all ∷ segs) (catch_all ∷ segs') r r' (node hs cs pc ca) h = inr (cc, tt)

  pub insert_all-Holds_inv :
      (routes : List (RouteDefinition H)) (n : Node H) (segs : List Segment) (r : RouteDefinition H)
      → Holds (insert_all routes n) segs r
      → Holds n segs r ⊎ (In r routes × Same (parse_segments r.pattern) segs)
  unfolding insert_all
  insert_all-Holds_inv [] n segs r h = inl h
  insert_all-Holds_inv (x ∷ xs) n segs r h =
      elim (insert_all-Holds_inv xs (insert (parse_segments x.pattern) x n) segs r h) [
        | inr (listed, same) ↦ inr (inr listed, same)
        | inl before ↦ elim (insert-Holds_inv (parse_segments x.pattern) segs x r n before) [
          | inl old ↦ inl old
          | inr (is_r, same) ↦
              inr (
                inl is_r,
                rw (ap (λ (y : RouteDefinition H). parse_segments y.pattern) is_r) at same,
              )
        ]
      ]

  -- No later route stands at the same place, or there is no catch-all in it.
  abbrev pub Unreplaced : RouteDefinition H → List (RouteDefinition H) → Type 0
  Unreplaced r [] = Unit
  Unreplaced r (x ∷ xs) =
      (NoCatch (parse_segments r.pattern)
        ⊎ ¬ Same (parse_segments x.pattern) (parse_segments r.pattern))
      × Unreplaced r xs

  insert_all-Holds_old :
      (routes : List (RouteDefinition H)) (n : Node H) (r : RouteDefinition H)
      → Unreplaced r routes
      → Holds n (parse_segments r.pattern) r
      → Holds (insert_all routes n) (parse_segments r.pattern) r
  unfolding insert_all
  insert_all-Holds_old [] n r free h = h
  insert_all-Holds_old (x ∷ xs) n r (c, free) h =
      insert_all-Holds_old xs (insert (parse_segments x.pattern) x n) r free
        (insert-Holds_old (parse_segments x.pattern) (parse_segments r.pattern) x r n c h)

  pub insert_all-Holds_new :
      (before : List (RouteDefinition H)) (n : Node H) (r : RouteDefinition H)
      (after : List (RouteDefinition H))
      → Unreplaced r after
      → Holds (insert_all (before ++ r ∷ after) n) (parse_segments r.pattern) r
  unfolding insert_all
  insert_all-Holds_new [] n r after free =
      insert_all-Holds_old after (insert (parse_segments r.pattern) r n) r free
        (insert-Holds_self (parse_segments r.pattern) r n)
  insert_all-Holds_new (x ∷ xs) n r after free =
      insert_all-Holds_new xs (insert (parse_segments x.pattern) x n) r after free
