-- ===== src/ActiveSet/Held.antt =====
-- A guard that is held has its entry in the map (src/active_set.rs), where telemetry is on and the ids of
-- the guards differ.
use mhttp.Common.{
  ℕ, zero, suc, ◌≡◌, ◌≢◌, ◌↔◌, refl, sym, ap, ◌∙◌, Bool, true, false, Option, none, some, List, [],
  ◌∷◌, ◌++◌, ◌==◌, if◌then◌else◌, All, Bool-cases, inl, inr,
}
use mathlib.Core.Path.{subst}
use mhttp.ActiveSet.{
  Inner, Phase, entering, held, unmapping, uncounting, notifying, gone, Guard, GuardStep, register,
  clone, drop, remove, fetch_sub, notify_waiters, map_remove, map_insert, guard_step, System, Step,
  insert, on_guard, wait_for_zero, on_waiter, Reachable, start, next,
}
use mhttp.ActiveSet.Unique.{Apart, Unique, Unique-Apart, Unique-phase, middle, replaced}
use mhttp.ActiveSet.Entries.{map_get, get, map_update, update}

-- `same` is the equality of keys.
abbrev pub IsEquality : {Key : Type 0} → (Key → Key → Bool) → Type 0
IsEquality {Key} same = (i j : Key) → (same i j ≡ true) ↔ (i ≡ j)

-- A guard in the map: it was registered, and its entry is not removed yet.
abbrev pub IsMapped : {Info : Type 0} → Phase Info → Type 0
IsMapped (held n) = Unit
IsMapped unmapping = Unit
IsMapped _ = ⊥

not_mapped : (Info : Type 0) (b : Bool) → IsMapped {Info = Info} (if b then notifying else gone) → ⊥
not_mapped _ true h = h
not_mapped _ false h = h

other_same :
    {Key : Type 0} (same : Key → Key → Bool)
    → IsEquality same
    → (i j : Key) → j ≢ i
    → same j i ≡ false
other_same same equal i j h = elim (Bool-cases (same j i)) [
  | inl e ↦ absurd (h ((equal j i).0 e))
  | inr e ↦ e
]

module _ {Key : Type 0} {Info : Type 0} (same : Key → Key → Bool) (equal : IsEquality same) where
  get-remove :
      (i j : Key) (m : List (Key × Info))
      → j ≢ i
      → map_get same j (map_remove same i m) ≡ map_get same j m
  unfolding map_get map_remove
  get-remove i j [] h = refl
  get-remove i j ((k, x) ∷ m) h = elim (Bool-cases (same i k)) [
    | inl e ↦
        let at : i ≡ k = (equal i k).0 e in
        let apart : same j k ≡ false = other_same same equal k j (λ f. h (f ∙ sym at)) in
        rw (e, apart) (get-remove i j m h)
    | inr e ↦ rw (e, get-remove i j m h) refl
  ]

  get-insert :
      (i j : Key) (x : Info) (m : List (Key × Info))
      → j ≢ i
      → map_get same j (map_insert same i x m) ≡ map_get same j m
  unfolding map_get map_insert
  get-insert i j x m h = rw (other_same same equal i j h) (get-remove i j m h)

  get-inserted :
      (i : Key) (x : Info) (m : List (Key × Info)) → map_get same i (map_insert same i x m) ≡ some x
  unfolding map_get map_insert
  get-inserted i x m = let here = (equal i i).1 refl in rw here refl

  abbrev pub Present : List (Key × Info) → Guard Key Info → Type 0
  Present m g = IsMapped g.phase → (x : Info) × (map_get same g.id m ≡ some x)

  -- Where telemetry is on, every guard in the map has its entry.
  abbrev pub InMap : Option (List (Key × Info)) → List (Guard Key Info) → Type 0
  InMap none gs = Unit
  InMap (some m) gs = All (Present m) gs

  still :
      (i : Key) (m n : List (Key × Info)) (gs : List (Guard Key Info))
      → ((j : Key) → j ≢ i → map_get same j n ≡ map_get same j m)
      → All (Apart i) gs
      → All (Present m) gs
      → All (Present n) gs
  still i m n [] kept apart h = tt
  still i m n (g ∷ gs) kept (a, apart) (p, h) =
      (λ mapped. let (x, e) = p mapped in (x, kept g.id a ∙ e), still i m n gs kept apart h)

  others :
      (id : Key) (q p : Phase Info) (m n : List (Key × Info)) (gs hs : List (Guard Key Info))
      → ((j : Key) → j ≢ id → map_get same j n ≡ map_get same j m)
      → Present n (record { id = id; phase = q })
      → All (Apart id) gs
      → All (Apart id) hs
      → All (Present m) (gs ++ record { id = id; phase = p } ∷ hs)
      → All (Present n) (gs ++ record { id = id; phase = q } ∷ hs)
  others id q p m n [] hs kept new front back (h, rest) = (new, still id m n hs kept back rest)
  others id q p m n (g ∷ gs) hs kept new (a, front) back (h, rest) = (
    λ mapped. let (x, e) = h mapped in (x, kept g.id a ∙ e),
    others id q p m n gs hs kept new front back rest,
  )

  -- What a step of one guard does to the entries of all
  abbrev Moves :
      Key → Phase Info → Option (List (Key × Info)) → Phase Info × Inner Key Info × Bool → Type 0
  Moves id p o (q, after, told) =
      (gs hs : List (Guard Key Info))
      → Unique (gs ++ record { id = id; phase = q } ∷ hs)
      → InMap o (gs ++ record { id = id; phase = p } ∷ hs)
      → InMap after.map (gs ++ record { id = id; phase = q } ∷ hs)

  given :
      (id : Key) (p : Phase Info) (o : Option (List (Key × Info)))
      (r s : Phase Info × Inner Key Info × Bool)
      → Option.some r ≡ some s
      → Moves id p o r
      → Moves id p o s
  given id p o r s h moves = let e : r ≡ s = cc in subst (Moves id p o) e moves

  -- The map is as it was, and the guard has an entry if it had one.
  unmoved :
      (id : Key) (p q : Phase Info) (o : Option (List (Key × Info))) (gs hs : List (Guard Key Info))
      → (IsMapped q → IsMapped p)
      → InMap o (gs ++ record { id = id; phase = p } ∷ hs)
      → InMap o (gs ++ record { id = id; phase = q } ∷ hs)
  unmoved id p q none gs hs f h = tt
  unmoved id p q (some m) gs hs f h =
      let before = middle (Present m) gs hs (record { id = id; phase = p }) h in
      replaced (Present m) gs hs (record { id = id; phase = p }) (record { id = id; phase = q })
        (λ mapped. before (f mapped)) h

  guard-Moves :
      (a : GuardStep) (id : Key) (p : Phase Info) (n : ℕ) (o : Option (List (Key × Info)))
      (r : Phase Info × Inner Key Info × Bool)
      → guard_step same a id p (record { count = n; map = o }) ≡ some r
      → Moves id p o r
  unfolding guard_step
  guard-Moves register id (entering x) n none r h =
      given id (entering x) none _ r h (λ gs hs u k. tt)
  guard-Moves register id (entering x) n (some m) r h = given id _ (some m) _ r h (λ gs hs u k.
      let (front, back) = Unique-Apart gs hs (record { id = id; phase = held 1 }) u in
      others id (held 1) (entering x) m (map_insert same id x m) gs hs
        (λ j other. get-insert id j x m other) (λ mapped. (x, get-inserted id x m)) front back k)
  guard-Moves clone id (held (suc c)) n o r h =
      given id _ o _ r h (λ gs hs u k. unmoved id _ _ o gs hs (λ mapped. tt) k)
  guard-Moves drop id (held (suc zero)) n o r h =
      given id _ o _ r h (λ gs hs u k. unmoved id _ _ o gs hs (λ mapped. tt) k)
  guard-Moves drop id (held (suc (suc c))) n o r h =
      given id _ o _ r h (λ gs hs u k. unmoved id _ _ o gs hs (λ mapped. tt) k)
  guard-Moves remove id unmapping n none r h = given id unmapping none _ r h (λ gs hs u k. tt)
  guard-Moves remove id unmapping n (some m) r h = given id _ (some m) _ r h (λ gs hs u k.
      let (front, back) = Unique-Apart gs hs (record { id = id; phase = uncounting }) u in
      others id uncounting unmapping m (map_remove same id m) gs hs
        (λ j other. get-remove id j m other) (λ mapped. absurd mapped) front back k)
  guard-Moves fetch_sub id uncounting n o r h =
      given id _ o _ r h
        (λ gs hs u k. unmoved id _ _ o gs hs (λ mapped. absurd (not_mapped Info (n == 1) mapped)) k)
  guard-Moves notify_waiters id notifying n o r h =
      given id _ o _ r h (λ gs hs u k. unmoved id _ _ o gs hs (λ mapped. absurd mapped) k)
  guard-Moves a id p n o r h = absurd (cc)

  abbrev Entered : System Key Info → Type 0
  Entered s = InMap s.inner.map s.guards

  -- A new guard has no entry yet.
  entered :
      (o : Option (List (Key × Info))) (id : Key) (x : Info) (gs : List (Guard Key Info))
      → InMap o gs
      → InMap o (record { id = id; phase = entering x } ∷ gs)
  entered none id x gs h = tt
  entered (some m) id x gs h = (λ mapped. absurd mapped, h)

  step-Entered :
      (s t : System Key Info)
      → Step same s t
      → Unique t.guards
      → Unique s.guards × (Entered s → Entered t)
  step-Entered _ _ (insert id x inner gs ws small) (h, u) = (u, entered inner.map id x gs)
  step-Entered _ _ (on_guard a id p q inner after told gs hs ws e) u = (
    Unique-phase gs hs id p q u,
    λ h. guard-Moves a id p inner.count inner.map (q, after, told) e gs hs u h,
  )
  step-Entered _ _ (wait_for_zero inner gs ws) u = (u, λ h. h)
  step-Entered _ _ (on_waiter a w v inner gs ws vs e) u = (u, λ h. h)

  Reachable-Entered : (s : System Key Info) → Reachable same s → Unique s.guards → Entered s
  Reachable-Entered _ (start true) u = tt
  Reachable-Entered _ (start false) u = tt
  Reachable-Entered _ (next s t before step) u =
      let (v, grows) = step-Entered s t step u in grows (Reachable-Entered s before v)

  get-update :
      (i : Key) (f : Info → Info) (m : List (Key × Info)) (x : Info)
      → map_get same i m ≡ some x
      → map_get same i (map_update same i f m) ≡ some (f x)
  unfolding map_get map_update
  get-update i f [] x e = absurd (cc)
  get-update i f ((j, y) ∷ m) x e = elim (Bool-cases (same i j)) [
    | inl here ↦
        let value : y ≡ x = let shown = rw here at e in cc in
        rw (here, here) (ap (λ z. some (f z)) value)
    | inr there ↦
        let later : map_get same i m ≡ some x = unfold map_get in rw there at e in
        rw (there, there) (get-update i f m x later)
  ]

  -- In every interleaving of threads, where no two guards have one id and telemetry is on, a guard that
  -- is held has a value in the map, which is what an update of it changes.
  pub held-value :
      (s : System Key Info) (m : List (Key × Info)) (gs hs : List (Guard Key Info)) (id : Key)
      (n : ℕ)
      → Reachable same s
      → Unique s.guards
      → s.inner.map ≡ some m
      → s.guards ≡ gs ++ record { id = id; phase = held n } ∷ hs
      → (x : Info) × (get same id s.inner ≡ some x)
        × ((f : Info → Info) → get same id (update same id f s.inner) ≡ some (f x))
  unfolding get update
  held-value s m gs hs id n come unique telemetry place =
      let all : All (Present m) s.guards =
        subst (λ o. InMap o s.guards) telemetry (Reachable-Entered s come unique) in
      let split : All (Present m) (gs ++ record { id = id; phase = held n } ∷ hs) =
        subst (All (Present m)) place all in
      let (x, e) = middle (Present m) gs hs (record { id = id; phase = held n }) split tt in
      (x, rw telemetry e, λ f. rw telemetry (get-update id f m x e))
