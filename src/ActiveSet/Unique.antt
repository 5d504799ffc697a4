-- ===== src/ActiveSet/Unique.antt =====
-- Guards whose ids differ, and lists in which one item changes, for the proofs on src/active_set.rs.
use mhttp.Common.{◌≢◌, sym, List, [], ◌∷◌, ◌++◌, All}
use mhttp.ActiveSet.{Phase, Guard}

module _ {ℓ κ} {A : Type ℓ} (P : A → Type κ) where
  pub middle : (xs ys : List A) (x : A) → All P (xs ++ x ∷ ys) → P x
  middle [] ys x (h, hs) = h
  middle (z ∷ xs) ys x (h, hs) = middle xs ys x hs

  pub replaced : (xs ys : List A) (x y : A) → P y → All P (xs ++ x ∷ ys) → All P (xs ++ y ∷ ys)
  replaced [] ys x y p (h, hs) = (p, hs)
  replaced (z ∷ xs) ys x y p (h, hs) = (h, replaced xs ys x y p hs)

module _ {Key : Type 0} {Info : Type 0} where
  abbrev pub Apart : Key → Guard Key Info → Type 0
  Apart i g = g.id ≢ i

  -- No two guards have one id.
  abbrev pub Unique : List (Guard Key Info) → Type 0
  Unique [] = Unit
  Unique (g ∷ gs) = All (Apart g.id) gs × Unique gs

  pub Unique-Apart :
      (gs hs : List (Guard Key Info)) (g : Guard Key Info)
      → Unique (gs ++ g ∷ hs)
      → All (Apart g.id) gs × All (Apart g.id) hs
  Unique-Apart [] hs g (h, u) = (tt, h)
  Unique-Apart (k ∷ gs) hs g (h, u) =
      let other = middle (Apart k.id) gs hs g h in
      let (front, back) = Unique-Apart gs hs g u in ((λ e. other (sym e), front), back)

  pub Unique-phase :
      (gs hs : List (Guard Key Info)) (id : Key) (p q : Phase Info)
      → Unique (gs ++ record { id = id; phase = q } ∷ hs)
      → Unique (gs ++ record { id = id; phase = p } ∷ hs)
  Unique-phase [] hs id p q h = h
  Unique-phase (k ∷ gs) hs id p q (h, u) = (
    replaced (Apart k.id) gs hs (record { id = id; phase = q }) (record { id = id; phase = p })
        (middle (Apart k.id) gs hs (record { id = id; phase = q }) h) h,
    Unique-phase gs hs id p q u,
  )
