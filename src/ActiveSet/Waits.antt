-- ===== src/ActiveSet/Waits.antt =====
-- `ActiveSet::wait_for_zero` (src/active_set.rs): it returns only when no guard is counted, and it can
-- return as soon as none is.
use mhttp.Common.{
  ℕ, ◌+◌, ◌≡◌, refl, Bool, true, false, Option, some, List, [], ◌∷◌, All, ◌==◌, arith, ◌>>=◌, inl,
  inr, Bool-cases,
}
use mhttp.ActiveSet.{
  Waiter, WaitStep, wait_step, System, counted, pending, total, Reachable, begin, enabled, waiting,
  returned, enable, load, wake,
}
use mhttp.ActiveSet.Steps.{Awaited, Reachable-Inv}

-- Several steps of one call.
unfoldable pub wait_steps : List WaitStep → Waiter → ℕ → Option Waiter
unfolding wait_step
wait_steps [] w count = some w
wait_steps (a ∷ steps) w count = wait_step a w count >>= λ v. wait_steps steps v count

abbrev pub CanReturn : ℕ → Waiter → Type 0
CanReturn count w = (steps : List WaitStep) × (wait_steps steps w count ≡ some returned)

can_return : (w : Waiter) → Awaited 0 w → CanReturn 0 w
unfolding wait_steps
can_return begin h = (enable ∷ load ∷ [], refl)
can_return (enabled b) h = (load ∷ [], refl)
can_return (waiting true) h = (wake ∷ enable ∷ load ∷ [], refl)
can_return (waiting false) h = absurd (omega arith)
can_return returned h = ([], refl)

All-return : (ws : List Waiter) → All (Awaited 0) ws → All (CanReturn 0) ws
All-return [] h = tt
All-return (w ∷ ws) (h, hs) = (can_return w h, All-return ws hs)

load_zero :
    (a : WaitStep) (w : Waiter) (count : ℕ) → wait_step a w count ≡ some returned → count ≡ 0
unfolding wait_step
load_zero load (enabled b) count e = elim (Bool-cases (count == 0)) [
  | inl zero_count ↦ ground arith
  | inr more ↦ absurd (cc)
]
load_zero enable begin count e = absurd (cc)
load_zero wake (waiting true) count e = absurd (cc)
load_zero _ _ count e = absurd (cc)

module _ {Key : Type 0} {Info : Type 0} (same : Key → Key → Bool) where
  -- In a state that the threads can reach, a step with which a call of `wait_for_zero` returns is taken
  -- only when every guard has been uncounted; and once every guard has been uncounted and the last
  -- drop has notified, each call, wherever it stands, can return by its own steps.
  pub wait_returns :
      (s : System Key Info)
      → Reachable same s
      → ((a : WaitStep) (w : Waiter)
          → wait_step a w s.inner.count ≡ some returned
          → total counted s.guards ≡ 0)
        × (total counted s.guards + total pending s.guards ≡ 0
            → All (CanReturn s.inner.count) s.waiters)
  wait_returns s reached =
      let inv = Reachable-Inv same s reached in
      (
        λ a w e.
            let zero_count = load_zero a w s.inner.count e in let exact = inv.exact in omega arith,
        λ quiet.
            let none_left : s.inner.count + total pending s.guards ≡ 0 =
              let exact = inv.exact in omega arith in
            let zero_count : s.inner.count ≡ 0 = omega arith in
            rw zero_count (All-return s.waiters (rw none_left at inv.awaited)),
      )
