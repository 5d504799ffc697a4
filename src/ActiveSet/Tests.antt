-- ===== src/ActiveSet/Tests.antt =====
-- One guard that is inserted and dropped while a call waits (src/active_set.rs).
use mhttp.Common.{ℕ, ◌+◌, ◌≡◌, refl, Bool, true, false, ◌==◌, some, [], ◌∷◌, All, arith}
use mhttp.ActiveSet.{
  Inner, Waiter, WaitStep, wait_step, System, counted, pending, total, Step, Reachable, guard_step,
  entering, held, returned, register, begin, insert, on_guard, wait_for_zero, start, next,
  new_with_telemetry,
}
use mhttp.ActiveSet.Steps.{Inv, Reachable-Inv}
use mhttp.ActiveSet.Waits.{CanReturn, wait_returns}

abbrev same : ℕ → ℕ → Bool
same a b = a == b

abbrev entered : System ℕ ℕ
entered = record {
  inner = record { count = 1; map = some [] };
  guards = record { id = 7; phase = entering 9 } ∷ [];
  waiters = [];
}

abbrev one_guard : System ℕ ℕ
one_guard = record {
  inner = record { count = 1; map = some ((7, 9) ∷ []) };
  guards = record { id = 7; phase = held 1 } ∷ [];
  waiters = [];
}

abbrev one_call : System ℕ ℕ
one_call = record {
  inner = record { count = 1; map = some ((7, 9) ∷ []) };
  guards = record { id = 7; phase = held 1 } ∷ [];
  waiters = begin ∷ [];
}

one_call_reached : Reachable same one_call
unfolding guard_step
one_call_reached =
    let fresh : Inner ℕ ℕ = record { count = 0; map = some [] } in
    let first : Step same (new_with_telemetry true) entered =
      insert 7 9 fresh [] [] (omega arith) in
    let second : Step same entered one_guard =
      on_guard register 7 (entering 9) (held 1) (record { count = 1; map = some [] })
        (record { count = 1; map = some ((7, 9) ∷ []) }) false [] [] [] refl in
    let third : Step same one_guard one_call =
      wait_for_zero (record { count = 1; map = some ((7, 9) ∷ []) })
        (record { id = 7; phase = held 1 } ∷ []) [] in
    next one_guard one_call
      (next entered one_guard (next (new_with_telemetry true) entered (start true) first) second)
      third

Reachable-Inv_example : Inv one_call
Reachable-Inv_example = Reachable-Inv same one_call one_call_reached

wait_returns_example :
    ((a : WaitStep) (w : Waiter)
      → wait_step a w 1 ≡ some returned
      → total counted one_call.guards ≡ 0)
    × (total counted one_call.guards + total pending one_call.guards ≡ 0
        → All (CanReturn 1) one_call.waiters)
wait_returns_example = wait_returns same one_call one_call_reached
