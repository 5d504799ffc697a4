-- ===== src/Router/Places.antt =====
-- Places in the tree of src/router.rs, and what an update of a static child does to what is held.
use mhttp.Common.{◌≡◌, refl, sym, ◌∙◌, List, [], ◌∷◌, ◌++◌, Bytes, ◌⊎◌, inl, inr}
use mhttp.Router.{
  RouteDefinition, Segment, static, param, catch_all, Node, Children, nil, child, compare_bytes,
  upsert_child, empty_node,
}
use mhttp.Router.Order.{Ordering-cases, compare_bytes_eq}
use mhttp.Router.Held.{In, Holds, HoldsStatic, Fits, finish, literal, capture, remainder}

-- The same place in the tree: parameters of any name are one, and a catch-all ends the list.
abbrev pub Same : List Segment → List Segment → Type 0
Same [] [] = Unit
Same (static s ∷ segs) (static t ∷ segs') = (s ≡ t) × Same segs segs'
Same (param x ∷ segs) (param y ∷ segs') = Same segs segs'
Same (catch_all ∷ segs) (catch_all ∷ segs') = Unit
Same _ _ = ⊥

-- No segment is the catch-all.
abbrev pub NoCatch : List Segment → Type 0
NoCatch [] = Unit
NoCatch (static s ∷ segs) = NoCatch segs
NoCatch (param x ∷ segs) = NoCatch segs
NoCatch (catch_all ∷ segs) = ⊥

pub Same-Fits :
    (segs' : List Segment) (path : Bytes) (vs : List Bytes)
    → Fits segs' path vs
    → (segs : List Segment) → Same segs segs'
    → Fits segs path vs
Same-Fits segs' path vs (finish e) [] same = finish e
Same-Fits segs' path vs (literal {rest} {segs = more} e fit) (static s ∷ segs) (eq, same) =
    literal (rw eq e) (Same-Fits more rest vs fit segs same)
Same-Fits segs' path vs (capture {rest} {segs = more} {vs = us} e fit) (param x ∷ segs) same =
    capture e (Same-Fits more rest us fit segs same)
Same-Fits segs' path vs (remainder e) (catch_all ∷ segs) same = remainder e
Same-Fits segs' path vs (finish e) (static s ∷ segs) same = absurd same
Same-Fits segs' path vs (finish e) (param x ∷ segs) same = absurd same
Same-Fits segs' path vs (finish e) (catch_all ∷ segs) same = absurd same
Same-Fits segs' path vs (literal e fit) [] same = absurd same
Same-Fits segs' path vs (literal e fit) (param x ∷ segs) same = absurd same
Same-Fits segs' path vs (literal e fit) (catch_all ∷ segs) same = absurd same
Same-Fits segs' path vs (capture e fit) [] same = absurd same
Same-Fits segs' path vs (capture e fit) (static s ∷ segs) same = absurd same
Same-Fits segs' path vs (capture e fit) (catch_all ∷ segs) same = absurd same
Same-Fits segs' path vs (remainder e) [] same = absurd same
Same-Fits segs' path vs (remainder e) (static s ∷ segs) same = absurd same
Same-Fits segs' path vs (remainder e) (param x ∷ segs) same = absurd same

module _ {H : Type 0} where
  pub empty-Holds : (segs : List Segment) (r : RouteDefinition H) → ¬ Holds empty_node segs r
  empty-Holds [] r h = h
  empty-Holds (static s ∷ segs) r h = h
  empty-Holds (param x ∷ segs) r h = h
  empty-Holds (catch_all ∷ segs) r h = cc

  pub In-concat :
      (r x : RouteDefinition H) (hs : List (RouteDefinition H))
      → In r (hs ++ x ∷ [])
      → In r hs ⊎ (x ≡ r)
  In-concat r x [] (inl e) = inr e
  In-concat r x [] (inr i) = elim i [ ]
  In-concat r x (h ∷ hs) (inl e) = inl (inl e)
  In-concat r x (h ∷ hs) (inr i) = elim (In-concat r x hs i) [ inl j ↦ inl (inr j) | inr e ↦ inr e ]

  pub In-concat_old :
      (r x : RouteDefinition H) (hs : List (RouteDefinition H)) → In r hs → In r (hs ++ x ∷ [])
  In-concat_old r x [] i = elim i [ ]
  In-concat_old r x (h ∷ hs) (inl e) = inl e
  In-concat_old r x (h ∷ hs) (inr i) = inr (In-concat_old r x hs i)

  pub In-concat_new : (x : RouteDefinition H) (hs : List (RouteDefinition H)) → In x (hs ++ x ∷ [])
  In-concat_new x [] = inl refl
  In-concat_new x (h ∷ hs) = inr (In-concat_new x hs)

  pub upsert_self :
      (s : Bytes) (f : Node H → Node H) (cs : Children H) (segs : List Segment)
      (r : RouteDefinition H)
      → ((n : Node H) → Holds (f n) segs r)
      → HoldsStatic (upsert_child s f cs) s segs r
  unfolding upsert_child
  upsert_self s f nil segs r here = inl (refl, here empty_node)
  upsert_self s f (child k n cs) segs r here = elim (Ordering-cases (compare_bytes k s)) [
    | inl lt ↦ rw (lt, upsert_child) (inr (upsert_self s f cs segs r here))
    | inr (inl eq) ↦ rw (eq, upsert_child) (inl (compare_bytes_eq k s eq, here n))
    | inr (inr gt) ↦ rw (gt, upsert_child) (inl (refl, here empty_node))
  ]

  pub upsert_old :
      (s t : Bytes) (f : Node H → Node H) (cs : Children H) (segs : List Segment)
      (r : RouteDefinition H)
      → (s ≡ t → (n : Node H) → Holds n segs r → Holds (f n) segs r)
      → HoldsStatic cs t segs r
      → HoldsStatic (upsert_child s f cs) t segs r
  unfolding upsert_child
  upsert_old s t f nil segs r keep h = elim h [ ]
  upsert_old s t f (child k n cs) segs r keep h = elim (Ordering-cases (compare_bytes k s)) [
    | inl lt ↦
        rw (lt, upsert_child)
          (elim h [ inl here ↦ inl here | inr later ↦ inr (upsert_old s t f cs segs r keep later) ])
    | inr (inl eq) ↦
        rw (eq, upsert_child)
          (elim h [
            | inl (same, here) ↦ inl (same, keep (sym (compare_bytes_eq k s eq) ∙ same) n here)
            | inr later ↦ inr later
          ])
    | inr (inr gt) ↦ rw (gt, upsert_child) (inr h)
  ]

  pub upsert_inv :
      (Q : Type 0) (s t : Bytes) (f : Node H → Node H) (cs : Children H) (segs : List Segment)
      (r : RouteDefinition H)
      → ((n : Node H) → Holds (f n) segs r → Holds n segs r ⊎ Q)
      → HoldsStatic (upsert_child s f cs) t segs r
      → HoldsStatic cs t segs r ⊎ ((s ≡ t) × Q)
  unfolding upsert_child
  upsert_inv Q s t f nil segs r back (inl (same, here)) = elim (back empty_node here) [
    | inl none_here ↦ absurd (empty-Holds segs r none_here)
    | inr q ↦ inr (same, q)
  ]
  upsert_inv Q s t f nil segs r back (inr later) = elim later [ ]
  upsert_inv Q s t f (child k n cs) segs r back h = elim (Ordering-cases (compare_bytes k s)) [
    | inl lt ↦ elim (rw (lt, upsert_child) at h) [
      | inl here ↦ inl (inl here)
      | inr later ↦ elim (upsert_inv Q s t f cs segs r back later) [
        | inl old ↦ inl (inr old)
        | inr new ↦ inr new
      ]
    ]
    | inr (inl eq) ↦ elim (rw (eq, upsert_child) at h) [
      | inl (same, here) ↦ elim (back n here) [
        | inl old ↦ inl (inl (same, old))
        | inr q ↦ inr (sym (compare_bytes_eq k s eq) ∙ same, q)
      ]
      | inr later ↦ inl (inr later)
    ]
    | inr (inr gt) ↦ elim (rw (gt, upsert_child) at h) [
      | inl (same, here) ↦ elim (back empty_node here) [
        | inl none_here ↦ absurd (empty-Holds segs r none_here)
        | inr q ↦ inr (same, q)
      ]
      | inr old ↦ inl old
    ]
  ]
