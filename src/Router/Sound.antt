-- ===== src/Router/Sound.antt =====
-- `Node::find` of src/router.rs: a failed search leaves the parameters alone, and a route that is
-- found is held under segments that the path fits.
use mhttp.Common.{
  ℕ, ◌≡◌, refl, sym, ap, ◌∙◌, Option, none, some, List, [], ◌∷◌, ◌++◌, append-nil, append_assoc,
  arith, Bytes, codes, inl, inr, Bool-cases, Option-cases, length, take-append, trim_start_by,
}
use mhttp.Method.{HttpMethod, method_eq, method_eq_iff}
use mhttp.Router.{
  RouteDefinition, Segment, static, param, catch_all, Node, node, Children, nil, child, ParamChild,
  absent, present, compare_bytes, next_segment, is_slash, Params, Found, find_handler, find_catch,
  find, find_static, find_param, or_try, of_handler, truncate,
}
use mhttp.Router.Order.{Ordering-cases, compare_bytes_eq}
use mhttp.Router.Held.{
  In, Holds, HoldsStatic, HoldsParam, Fits, finish, literal, capture, remainder, values,
  values-append,
}

module _ {H : Type 0} where
  -- Where nothing was found, the parameters are `ps`.
  abbrev pub Keeps : Params → Found H → Type 0
  Keeps ps f = f.0 ≡ none → f.1 ≡ ps

  or_try-Keeps :
      (ps : Params) (f : Found H) (next : Params → Found H)
      → Keeps ps f
      → Keeps ps (next ps)
      → Keeps ps (or_try f next)
  or_try-Keeps ps (some r, qs) next h k = λ e. cc
  or_try-Keeps ps (none, qs) next h k = rw (h refl) k

  of_handler-Keeps :
      (o : Option (RouteDefinition H)) (ps : Params) (next : Params → Found H)
      → Keeps ps (next ps)
      → Keeps ps (of_handler o ps next)
  of_handler-Keeps (some r) ps next k e = cc
  of_handler-Keeps none ps next k e = k e

  truncate-Keeps :
      (ps : Params) (kv : Bytes × Bytes) (f : Found H)
      → Keeps (ps ++ kv ∷ []) f
      → Keeps ps (truncate (length ps) f)
  truncate-Keeps ps kv (some r, qs) h = λ e. cc
  truncate-Keeps ps kv (none, qs) h = λ e. rw (h refl) (take-append ps (kv ∷ []))

  find_catch-Keeps :
      (ca : Option (RouteDefinition H)) (m : HttpMethod) (tail : Bytes) (ps : Params)
      → Keeps ps (find_catch ca m tail ps)
  unfolding find_catch
  find_catch-Keeps none m tail ps e = refl
  find_catch-Keeps (some r) m tail ps e = ground arith

mutual
  unfolding find

  pub find-Keeps :
      {H : Type 0} (n : Node H) (path : Bytes) (m : HttpMethod) (ps : Params)
      → Keeps ps (find n path m ps)
  find-Keeps (node hs cs pc ca) path m ps = elim (Option-cases (next_segment path)) [
    | inl e ↦
        rw e (
          of_handler-Keeps (find_handler m hs) ps (find_catch ca m [])
            (find_catch-Keeps ca m [] ps))
    | inr ((seg, rest), e) ↦ rw e (
        or_try-Keeps ps (find_static cs seg rest m ps) _ (find_static-Keeps cs seg rest m ps) (
          or_try-Keeps ps (find_param pc seg rest m ps) _ (find_param-Keeps pc seg rest m ps)
            (find_catch-Keeps ca m (trim_start_by is_slash path) ps)))
  ]

  find_static-Keeps :
      {H : Type 0} (cs : Children H) (seg rest : Bytes) (m : HttpMethod) (ps : Params)
      → Keeps ps (find_static cs seg rest m ps)
  find_static-Keeps nil seg rest m ps = λ e. refl
  find_static-Keeps (child k n cs) seg rest m ps = elim (Ordering-cases (compare_bytes k seg)) [
    | inl lt ↦ rw lt (find_static-Keeps cs seg rest m ps)
    | inr (inl eq) ↦ rw eq (find-Keeps n rest m ps)
    | inr (inr gt) ↦ rw gt (λ e. refl)
  ]

  find_param-Keeps :
      {H : Type 0} (pc : ParamChild H) (seg rest : Bytes) (m : HttpMethod) (ps : Params)
      → Keeps ps (find_param pc seg rest m ps)
  find_param-Keeps absent seg rest m ps = λ e. refl
  find_param-Keeps (present x n) seg rest m ps =
      truncate-Keeps ps (x, seg) (find n rest m (ps ++ (x, seg) ∷ []))
        (find-Keeps n rest m (ps ++ (x, seg) ∷ []))

-- A search that finds no route gives the parameters back as it was given them: the attempts that
-- failed leave nothing behind.
pub find_restores :
    {H : Type 0} (n : Node H) (path : Bytes) (m : HttpMethod) (ps : Params)
    → (find n path m ps).0 ≡ none
    → (find n path m ps).1 ≡ ps
find_restores n path m ps = find-Keeps n path m ps

-- A route that is found is held under segments that the path fits, has the method that was asked
-- for, and the values captured on the way stand behind those from before.
abbrev pub IsSound :
    {H : Type 0}
    → (List Segment → RouteDefinition H → Type 0)
    → (List Segment → List Bytes → Type 0)
    → HttpMethod
    → Params
    → Found H
    → Type 0
IsSound holds fits m ps (none, qs) = Unit
IsSound holds fits m ps (some r, qs) =
    (segs : List Segment) × (vs : List Bytes) × holds segs r
    × fits segs vs
    × (r.method ≡ m)
    × (values qs ≡ values ps ++ vs)

module _ {H : Type 0} (m : HttpMethod) where
  find_handler_sound :
      (hs : List (RouteDefinition H)) (r : RouteDefinition H)
      → find_handler m hs ≡ some r
      → In r hs × (r.method ≡ m)
  unfolding find_handler
  find_handler_sound [] r e = cc
  find_handler_sound (x ∷ xs) r e = elim (Bool-cases (method_eq x.method m)) [
    | inl same ↦
        let here : x ≡ r = ground arith in
        (inl here, rw (← here) ((method_eq_iff x.method m).0 same))
    | inr other ↦ let (rest, method) = find_handler_sound xs r (ground arith) in (inr rest, method)
  ]

  find_catch-IsSound :
      (hs : List (RouteDefinition H)) (cs : Children H) (pc : ParamChild H)
      (ca : Option (RouteDefinition H)) (path tail : Bytes) (ps : Params)
      → tail ≡ trim_start_by is_slash path
      → IsSound
          (λ segs r. Holds (node hs cs pc ca) segs r)
          (λ segs vs. Fits segs path vs)
          m
          ps
          (find_catch ca m tail ps)
  unfolding find_catch
  find_catch-IsSound hs cs pc none path tail ps e = tt
  find_catch-IsSound hs cs pc (some r) path tail ps e = elim (Bool-cases (method_eq r.method m)) [
    | inl same ↦ rw same (
      catch_all ∷ [],
      tail ∷ [],
      refl,
      remainder e,
      (method_eq_iff r.method m).0 same,
      values-append ps ((codes "__path__", tail) ∷ []),
    )
    | inr other ↦ rw other tt
  ]

-- The values that a parameter child captures: its segment, then those of the rest.
abbrev FitsParam : Bytes → Bytes → List Segment → List Bytes → Type 0
FitsParam seg rest segs ws = (vs : List Bytes) × (ws ≡ seg ∷ vs) × Fits segs rest vs

module _ {H : Type 0} (m : HttpMethod) (ps : Params) where
  IsSound-map :
      (holds holds' : List Segment → RouteDefinition H → Type 0)
      (fits fits' : List Segment → List Bytes → Type 0) (f : List Segment → List Segment)
      (found : Found H)
      → ((segs : List Segment) (r : RouteDefinition H) → holds segs r → holds' (f segs) r)
      → ((segs : List Segment) (vs : List Bytes) → fits segs vs → fits' (f segs) vs)
      → IsSound holds fits m ps found
      → IsSound holds' fits' m ps found
  IsSound-map holds holds' fits fits' f (none, qs) g h s = tt
  IsSound-map holds holds' fits fits' f (some r, qs) g h (segs, vs, held, fit, method, same) =
      (f segs, vs, g segs r held, h segs vs fit, method, same)

  or_try-IsSound :
      (holds : List Segment → RouteDefinition H → Type 0)
      (fits : List Segment → List Bytes → Type 0) (found : Found H) (next : Params → Found H)
      → Keeps ps found
      → IsSound holds fits m ps found
      → IsSound holds fits m ps (next ps)
      → IsSound holds fits m ps (or_try found next)
  or_try-IsSound holds fits (some r, qs) next keep s t = s
  or_try-IsSound holds fits (none, qs) next keep s t = rw (keep refl) t

  -- The route found among the handlers of a node, or by `next`.
  of_handler-IsSound :
      (holds : List Segment → RouteDefinition H → Type 0)
      (fits : List Segment → List Bytes → Type 0) (hs : List (RouteDefinition H))
      (next : Params → Found H)
      → ((r : RouteDefinition H) → In r hs → holds [] r)
      → fits [] []
      → IsSound holds fits m ps (next ps)
      → IsSound holds fits m ps (of_handler (find_handler m hs) ps next)
  of_handler-IsSound holds fits hs next g fit t = elim (Option-cases (find_handler m hs)) [
    | inl e ↦ rw e t
    | inr (r, e) ↦
        let (listed, method) = find_handler_sound m hs r e in
        rw e ([], [], g r listed, fit, method, sym (append-nil (values ps)))
  ]

  truncate-IsSound :
      (holds : List Segment → RouteDefinition H → Type 0) (x seg rest : Bytes) (n : ℕ)
      (found : Found H)
      → IsSound holds (λ segs vs. Fits segs rest vs) m (ps ++ (x, seg) ∷ []) found
      → IsSound holds (FitsParam seg rest) m ps (truncate n found)
  truncate-IsSound holds x seg rest n (none, qs) s = tt
  truncate-IsSound holds x seg rest n (some r, qs) (segs, vs, held, fit, method, same) = (
    segs,
    seg ∷ vs,
    held,
    (vs, refl, fit),
    method,
    same
        ∙ (ap (λ ws. ws ++ vs) (values-append ps ((x, seg) ∷ []))
            ∙ append_assoc (values ps) (seg ∷ []) vs),
  )

FitsParam-capture :
    (x seg path rest : Bytes) (segs : List Segment) (ws : List Bytes)
    → next_segment path ≡ some (seg, rest)
    → (vs : List Bytes) × (ws ≡ seg ∷ vs) × Fits segs rest vs
    → Fits (param x ∷ segs) path ws
FitsParam-capture x seg path rest segs ws e (vs, same, fit) = rw same (capture e fit)

-- With no segment left there is no text behind the slashes.
next_segment-none : (path : Bytes) → next_segment path ≡ none → trim_start_by is_slash path ≡ []
unfolding next_segment
next_segment-none path e = ground arith

mutual
  unfolding find

  pub find-IsSound :
      {H : Type 0} (n : Node H) (path : Bytes) (m : HttpMethod) (ps : Params)
      → IsSound (λ segs r. Holds n segs r) (λ segs vs. Fits segs path vs) m ps (find n path m ps)
  find-IsSound (node hs cs pc ca) path m ps = elim (Option-cases (next_segment path)) [
    | inl e ↦ rw e (
        of_handler-IsSound m ps _ _ hs (find_catch ca m []) (λ r i. i) (finish e)
          (find_catch-IsSound m hs cs pc ca path [] ps (sym (next_segment-none path e))))
    | inr ((seg, rest), e) ↦ rw e (
        or_try-IsSound m ps _ _ (find_static cs seg rest m ps) _
          (find_static-Keeps cs seg rest m ps)
          (IsSound-map m ps _ _ _ _ (◌∷◌ (static seg)) (find_static cs seg rest m ps)
            (λ segs r held. held) (λ segs vs fit. literal e fit)
            (find_static-IsSound cs seg rest m ps))
          (or_try-IsSound m ps _ _ (find_param pc seg rest m ps) _
            (find_param-Keeps pc seg rest m ps)
            (IsSound-map m ps _ _ _ _ (◌∷◌ (param seg)) (find_param pc seg rest m ps)
              (λ segs r held. held)
              (λ segs ws fit. FitsParam-capture seg seg path rest segs ws e fit)
              (find_param-IsSound pc seg rest m ps))
            (find_catch-IsSound m hs cs pc ca path (trim_start_by is_slash path) ps refl)))
  ]

  find_static-IsSound :
      {H : Type 0} (cs : Children H) (seg rest : Bytes) (m : HttpMethod) (ps : Params)
      → IsSound
          (λ segs r. HoldsStatic cs seg segs r)
          (λ segs vs. Fits segs rest vs)
          m
          ps
          (find_static cs seg rest m ps)
  find_static-IsSound nil seg rest m ps = tt
  find_static-IsSound (child k n cs) seg rest m ps = elim (Ordering-cases (compare_bytes k seg)) [
    | inl lt ↦ rw lt (
        IsSound-map m ps _ _ _ _ (λ segs. segs) (find_static cs seg rest m ps)
          (λ segs r held. inr held) (λ segs vs fit. fit) (find_static-IsSound cs seg rest m ps))
    | inr (inl eq) ↦ rw eq (
        IsSound-map m ps _ _ _ _ (λ segs. segs) (find n rest m ps)
          (λ segs r held. inl (compare_bytes_eq k seg eq, held)) (λ segs vs fit. fit)
          (find-IsSound n rest m ps))
    | inr (inr gt) ↦ rw gt tt
  ]

  find_param-IsSound :
      {H : Type 0} (pc : ParamChild H) (seg rest : Bytes) (m : HttpMethod) (ps : Params)
      → IsSound
          (λ segs r. HoldsParam pc segs r)
          (λ segs ws. (vs : List Bytes) × (ws ≡ seg ∷ vs) × Fits segs rest vs)
          m
          ps
          (find_param pc seg rest m ps)
  find_param-IsSound absent seg rest m ps = tt
  find_param-IsSound (present x n) seg rest m ps =
      truncate-IsSound m ps _ x seg rest (length ps) (find n rest m (ps ++ (x, seg) ∷ []))
        (find-IsSound n rest m (ps ++ (x, seg) ∷ []))
