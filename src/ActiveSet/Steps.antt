-- ===== src/ActiveSet/Steps.antt =====
-- src/active_set.rs: the counter is the number of guards that live, and no wake-up is lost.
use mhttp.Common.{
  ℕ, zero, suc, ◌+◌, ◌≤◌, ◌<◌, ◌≡◌, refl, Bool, true, false, Option, none, some, List, [], ◌∷◌,
  ◌++◌, map, ◌==◌, if◌then◌else◌, arith, All, Bool-cases, inl, inr, ltb, ltb→lt, ◌⊎◌, ◌≢◌,
}
use mhttp.ActiveSet.{
  usize_mod, Inner, Phase, Guard, GuardStep, guard_step, Waiter, WaitStep, wait_step, notified,
  System, counted, pending, total, Step, Reachable, entering, held, unmapping, uncounting,
  notifying, register, clone, drop, remove, fetch_sub, notify_waiters, begin, enabled, waiting,
  returned, enable, load, wake, insert, on_guard, wait_for_zero, on_waiter, start, next,
}

-- A listener that waits and is not notified will be: somebody is still to bring the counter to zero,
-- or to notify.
abbrev pub Awaited : ℕ → Waiter → Type 0
Awaited n (waiting false) = 1 ≤ n
Awaited n _ = Unit

Awaited-mono :
    (m n : ℕ) → (1 ≤ m → 1 ≤ n) → (ws : List Waiter) → All (Awaited m) ws → All (Awaited n) ws
Awaited-mono m n f [] h = tt
Awaited-mono m n f (begin ∷ ws) (h, hs) = (tt, Awaited-mono m n f ws hs)
Awaited-mono m n f (enabled b ∷ ws) (h, hs) = (tt, Awaited-mono m n f ws hs)
Awaited-mono m n f (waiting true ∷ ws) (h, hs) = (tt, Awaited-mono m n f ws hs)
Awaited-mono m n f (waiting false ∷ ws) (h, hs) = (f h, Awaited-mono m n f ws hs)
Awaited-mono m n f (returned ∷ ws) (h, hs) = (tt, Awaited-mono m n f ws hs)

-- After a notification every listener may wait.
Awaited-notified : (n : ℕ) (ws : List Waiter) → All (Awaited n) (map notified ws)
unfolding notified
Awaited-notified n [] = tt
Awaited-notified n (begin ∷ ws) = (tt, Awaited-notified n ws)
Awaited-notified n (enabled b ∷ ws) = (tt, Awaited-notified n ws)
Awaited-notified n (waiting b ∷ ws) = (tt, Awaited-notified n ws)
Awaited-notified n (returned ∷ ws) = (tt, Awaited-notified n ws)

replaced :
    (n : ℕ) (ws vs : List Waiter) (w v : Waiter)
    → (Awaited n w → Awaited n v)
    → All (Awaited n) (ws ++ w ∷ vs)
    → All (Awaited n) (ws ++ v ∷ vs)
replaced n [] vs w v f (h, hs) = (f h, hs)
replaced n (u ∷ ws) vs w v f (h, hs) = (h, replaced n ws vs w v f hs)

-- What a step of `wait_for_zero` leaves.
abbrev After : ℕ → Option Waiter → Type 0
After n none = Unit
After n (some v) = Awaited n v

load_after :
    (b : Bool) (count n : ℕ) → count ≤ n → Awaited n (if count == 0 then returned else waiting b)
load_after true count n le = elim (Bool-cases (count == 0)) [ inl e ↦ rw e tt | inr e ↦ rw e tt ]
load_after false count n le = elim (Bool-cases (count == 0)) [
  | inl e ↦ rw e tt
  | inr e ↦ let some_left : 1 ≤ n = ground arith in rw e some_left
]

wait_step-After :
    (a : WaitStep) (w : Waiter) (count n : ℕ) → count ≤ n → After n (wait_step a w count)
unfolding wait_step
wait_step-After enable begin count n le = tt
wait_step-After load (enabled b) count n le = load_after b count n le
wait_step-After wake (waiting true) count n le = tt
wait_step-After _ _ count n le = tt

module _ {Key : Type 0} {Info : Type 0} (same : Key → Key → Bool) where
  -- What a step of a guard does to the counter, where `others` count without it.
  abbrev Counts :
      ℕ → Phase Info → Inner Key Info → Option (Phase Info × Inner Key Info × Bool) → Type 0
  Counts others p inner none = Unit
  Counts others p inner (some (q, after, told)) =
      (after.count ≡ others + counted q)
      × (counted q ≤ counted p)
      × ((told ≡ true)
          ⊎ ((told ≡ false) × (1 ≤ inner.count + pending p → 1 ≤ after.count + pending q)))

  guard_step-Counts :
      (a : GuardStep) (id : Key) (p : Phase Info) (inner : Inner Key Info) (others : ℕ)
      → inner.count ≡ others + counted p
      → others + counted p < usize_mod
      → Counts others p inner (guard_step same a id p inner)
  unfolding guard_step
  guard_step-Counts register id (entering info) inner others e room =
      (e, omega arith, inr (refl, λ h. h))
  guard_step-Counts clone id (held (suc n)) inner others e room =
      (e, omega arith, inr (refl, λ h. h))
  guard_step-Counts drop id (held (suc zero)) inner others e room =
      (e, omega arith, inr (refl, λ h. h))
  guard_step-Counts drop id (held (suc (suc n))) inner others e room =
      (e, omega arith, inr (refl, λ h. h))
  guard_step-Counts remove id unmapping inner others e room = (e, omega arith, inr (refl, λ h. h))
  guard_step-Counts fetch_sub id uncounting inner others e room =
      elim (Bool-cases (inner.count == 1)) [
        | inl last ↦
            let one : inner.count ≡ 1 = ground arith in
            rw last (omega arith, omega arith, inr (refl, λ h. omega arith))
        | inr more ↦
            let many : inner.count ≢ 1 = ground arith in
            rw more (omega arith, omega arith, inr (refl, λ h. omega arith))
      ]
  guard_step-Counts notify_waiters id notifying inner others e room = (e, omega arith, inl refl)
  guard_step-Counts _ _ _ inner others e room = tt

module _ {Key : Type 0} {Info : Type 0} where
  total-append :
      (f : Phase Info → ℕ) (gs hs : List (Guard Key Info))
      → total f (gs ++ hs) ≡ total f gs + total f hs
  total-append f [] hs = omega arith
  total-append f (g ∷ gs) hs = omega (arith, total-append f gs hs)

  pub record Inv (s : System Key Info) : Type 0 where
    pub exact : s.inner.count ≡ total counted s.guards
    pub room : total counted s.guards < usize_mod
    pub awaited : All (Awaited (s.inner.count + total pending s.guards)) s.waiters

module _ {Key : Type 0} {Info : Type 0} (same : Key → Key → Bool) where
  step_guard :
      (a : GuardStep) (id : Key) (p q : Phase Info) (inner after : Inner Key Info) (told : Bool)
      (gs hs : List (Guard Key Info)) (ws : List Waiter)
      → Inv (record {
        inner = inner;
        guards = gs ++ record { id = id; phase = p } ∷ hs;
        waiters = ws;
      })
      → Counts same (total counted gs + total counted hs) p inner (some (q, after, told))
      → Inv (record {
        inner = after;
        guards = gs ++ record { id = id; phase = q } ∷ hs;
        waiters = if told then map notified ws else ws;
      })
  step_guard a id p q inner after told gs hs ws inv (exact', less, wakes) =
      let before = total-append counted gs (record { id = id; phase = p } ∷ hs) in
      let behind = total-append counted gs (record { id = id; phase = q } ∷ hs) in
      let quiet_before = total-append pending gs (record { id = id; phase = p } ∷ hs) in
      let quiet_behind = total-append pending gs (record { id = id; phase = q } ∷ hs) in
      record {
        exact = omega arith;
        room = omega arith;
        awaited = elim wakes [
          | inl t ↦ rw t (Awaited-notified _ ws)
          | inr (f, w) ↦
              let still : 1 ≤ inner.count + total pending (gs ++ record { id = id; phase = p } ∷ hs)
                  → 1 ≤ after.count + total pending (gs ++ record { id = id; phase = q } ∷ hs) =
                λ h. elim (Bool-cases (ltb 0 (inner.count + pending p))) [
                  | inl some_left ↦
                      let k = w (ltb→lt 0 (inner.count + pending p) some_left) in omega arith
                  | inr none_left ↦
                      let k : inner.count + pending p ≡ 0 = ground arith in omega arith
                ] in
              rw f (Awaited-mono _ _ still ws inv.awaited)
        ];
      }

  step-Inv : (s t : System Key Info) → Step same s t → Inv s → Inv t
  step-Inv _ _ (insert id info inner gs ws room) inv = record {
    exact = omega arith;
    room = omega arith;
    awaited = Awaited-mono _ _ (λ h. omega arith) ws inv.awaited;
  }
  step-Inv _ _ (on_guard a id p q inner after told gs hs ws e) inv =
      let before = total-append counted gs (record { id = id; phase = p } ∷ hs) in
      let counts =
        guard_step-Counts same a id p inner (total counted gs + total counted hs) (omega arith)
          (omega arith) in
      step_guard a id p q inner after told gs hs ws inv (rw e at counts)
  step-Inv _ _ (wait_for_zero inner gs ws) inv = record {
    exact = inv.exact;
    room = inv.room;
    awaited = (tt, inv.awaited);
  }
  step-Inv _ _ (on_waiter a w v inner gs ws vs e) inv =
      let after = wait_step-After a w inner.count (inner.count + total pending gs) (omega arith) in
      record {
        exact = inv.exact;
        room = inv.room;
        awaited = replaced _ ws vs w v (λ h. rw e at after) inv.awaited;
      }

  -- In every state that the threads can reach, whatever the order of their steps, the counter is the
  -- number of guards that are counted and not yet uncounted, so it never passes below zero, and
  -- every call of `wait_for_zero` that waits and is not yet notified has a guard that still lives, or
  -- a drop that still is to notify: no wake-up is lost.
  pub Reachable-Inv : (s : System Key Info) → Reachable same s → Inv s
  Reachable-Inv _ (start telemetry) = record { exact = refl; room = omega arith; awaited = tt }
  Reachable-Inv _ (next s t reached step) = step-Inv s t step (Reachable-Inv s reached)
