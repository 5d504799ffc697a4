-- ===== src/Router/Complete.antt =====
-- `Node::find` of src/router.rs misses nothing: where it finds no route, no route that the tree holds
-- under segments that the path fits has the method.
use mhttp.Common.{
  ℕ, ◌≡◌, refl, sym, ap, false, Option, none, some, List, [], ◌∷◌, ◌++◌, arith, Bytes, inl, inr,
  Bool-cases, Option-cases, length,
}
use mhttp.Method.{HttpMethod, method_eq}
use mhttp.Router.{
  RouteDefinition, Segment, Node, node, Children, nil, child, ParamChild, absent, present,
  compare_bytes, next_segment, Params, Found, find_handler, find_catch, find, find_static,
  find_param, or_try, of_handler, truncate,
}
use mhttp.Router.Order.{
  Ordering-cases, compare_bytes_eq, compare_bytes_refl, compare_bytes_flip, IsSorted,
  IsSortedChildren, IsSortedParam, Above, Above-trans,
}
use mhttp.Router.Held.{
  In, Holds, HoldsStatic, HoldsParam, Fits, finish, literal, capture, remainder,
}

module _ {H : Type 0} where
  or_try-none :
      (f : Found H) (next : Params → Found H)
      → (or_try f next).0 ≡ none
      → (f.0 ≡ none) × ((next f.1).0 ≡ none)
  or_try-none (some r, ps) next h = cc
  or_try-none (none, ps) next h = (refl, h)

  truncate-none : (n : ℕ) (f : Found H) → (truncate n f).0 ≡ none → f.0 ≡ none
  truncate-none n (some r, ps) h = cc
  truncate-none n (none, ps) h = refl

  find_handler-none :
      (m : HttpMethod) (hs : List (RouteDefinition H)) (r : RouteDefinition H)
      → find_handler m hs ≡ none
      → In r hs
      → method_eq r.method m ≡ false
  unfolding find_handler
  find_handler-none m [] r h i = absurd i
  find_handler-none m (x ∷ xs) r h i = elim (Bool-cases (method_eq x.method m)) [
    | inl same ↦ absurd (ground arith)
    | inr other ↦ elim i [
      | inl here ↦ rw here at other
      | inr later ↦ find_handler-none m xs r (ground arith) later
    ]
  ]

  of_handler-none :
      (o : Option (RouteDefinition H)) (ps : Params) (next : Params → Found H)
      → (of_handler o ps next).0 ≡ none
      → (o ≡ none) × ((next ps).0 ≡ none)
  of_handler-none (some r) ps next h = cc
  of_handler-none none ps next h = (refl, h)

  find_catch-none :
      (ca : Option (RouteDefinition H)) (m : HttpMethod) (tail : Bytes) (ps : Params)
      (r : RouteDefinition H)
      → (find_catch ca m tail ps).0 ≡ none
      → ca ≡ some r
      → method_eq r.method m ≡ false
  unfolding find_catch
  find_catch-none none m tail ps r h e = cc
  find_catch-none (some x) m tail ps r h e = ground arith

  -- A key that comes after the segment is not it.
  HoldsStatic-after :
      (cs : Children H) (seg : Bytes) (segs : List Segment) (r : RouteDefinition H)
      → Above seg cs
      → ¬ HoldsStatic cs seg segs r
  HoldsStatic-after nil seg segs r above held = held
  HoldsStatic-after (child j n cs) seg segs r (first, above) (inl (same, _)) =
      cc (first, ap (λ t. compare_bytes t j) (sym same), compare_bytes_refl j)
  HoldsStatic-after (child j n cs) seg segs r (first, above) (inr later) =
      HoldsStatic-after cs seg segs r above later

mutual
  unfolding find

  pub find_complete :
      {H : Type 0} (n : Node H) (path : Bytes) (m : HttpMethod) (ps : Params)
      (r : RouteDefinition H) (segs : List Segment) (vs : List Bytes)
      → IsSorted n
      → (find n path m ps).0 ≡ none
      → Fits segs path vs
      → Holds n segs r
      → method_eq r.method m ≡ false
  find_complete (node hs cs pc ca) path m ps r segs vs (sorted, sorted_param) h (finish e) held =
      let (missed, _) = of_handler-none (find_handler m hs) ps _ (rw e at h) in
      find_handler-none m hs r missed held
  find_complete (node hs cs pc ca) path m ps r segs vs (sorted, sorted_param) h
        (literal {s} {rest} {segs = more} {vs = us} e fit) held =
      let (missed, _) = or_try-none (find_static cs s rest m ps) _ (rw e at h) in
      find_static_complete cs s rest m ps r more us sorted missed fit held
  find_complete (node hs cs pc ca) path m ps r segs vs (sorted, sorted_param) h
        (capture {v} {rest} {segs = more} {vs = us} e fit) held =
      let (_, later) = or_try-none (find_static cs v rest m ps) _ (rw e at h) in
      let (missed, _) =
        or_try-none (find_param pc v rest m (find_static cs v rest m ps).1) _ later in
      find_param_complete pc v rest m (find_static cs v rest m ps).1 r more us sorted_param missed
        fit held
  find_complete (node hs cs pc ca) path m ps r segs vs (sorted, sorted_param) h (remainder same)
        held =
      elim (Option-cases (next_segment path)) [
        | inl e ↦
            let (_, missed) = of_handler-none (find_handler m hs) ps _ (rw e at h) in
            find_catch-none ca m [] ps r missed held
        | inr ((seg, rest), e) ↦
            let (_, later) = or_try-none (find_static cs seg rest m ps) _ (rw e at h) in
            let (_, missed) =
              or_try-none (find_param pc seg rest m (find_static cs seg rest m ps).1) _ later in
            find_catch-none ca m _ _ r missed held
      ]

  find_static_complete :
      {H : Type 0} (cs : Children H) (seg rest : Bytes) (m : HttpMethod) (ps : Params)
      (r : RouteDefinition H) (segs : List Segment) (vs : List Bytes)
      → IsSortedChildren cs
      → (find_static cs seg rest m ps).0 ≡ none
      → Fits segs rest vs
      → HoldsStatic cs seg segs r
      → method_eq r.method m ≡ false
  find_static_complete nil seg rest m ps r segs vs sorted h fit held = absurd held
  find_static_complete (child k n cs) seg rest m ps r segs vs (sorted, (above, all)) h fit held =
      elim (Ordering-cases (compare_bytes k seg)) [
        | inl lt ↦ elim held [
          | inl (same, here) ↦ cc (lt, ap (compare_bytes k) (sym same), compare_bytes_refl k)
          | inr later ↦ find_static_complete cs seg rest m ps r segs vs all (rw lt at h) fit later
        ]
        | inr (inl eq) ↦ elim held [
          | inl (same, here) ↦ find_complete n rest m ps r segs vs sorted (rw eq at h) fit here
          | inr later ↦
              absurd
                (HoldsStatic-after cs seg segs r (rw (compare_bytes_eq k seg eq) at above) later)
        ]
        | inr (inr gt) ↦ elim held [
          | inl (same, here) ↦ cc (gt, ap (compare_bytes k) (sym same), compare_bytes_refl k)
          | inr later ↦ absurd (
              HoldsStatic-after cs seg segs r
                (Above-trans seg k cs (compare_bytes_flip k seg gt) above) later)
        ]
      ]

  find_param_complete :
      {H : Type 0} (pc : ParamChild H) (seg rest : Bytes) (m : HttpMethod) (ps : Params)
      (r : RouteDefinition H) (segs : List Segment) (vs : List Bytes)
      → IsSortedParam pc
      → (find_param pc seg rest m ps).0 ≡ none
      → Fits segs rest vs
      → HoldsParam pc segs r
      → method_eq r.method m ≡ false
  find_param_complete absent seg rest m ps r segs vs sorted h fit held = absurd held
  find_param_complete (present x n) seg rest m ps r segs vs sorted h fit held =
      find_complete n rest m (ps ++ (x, seg) ∷ []) r segs vs sorted
        (truncate-none (length ps) (find n rest m (ps ++ (x, seg) ∷ [])) h) fit held
