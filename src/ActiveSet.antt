-- ===== src/ActiveSet.antt =====
-- src/active_set.rs: guards that are counted while they live, the optional map of what they stand
-- for, and `wait_for_zero`. The steps of all threads interleave; each atomic operation and each
-- access to the map under its lock is one step, in one order that all threads see.
pub mod Steps
pub mod Entries
pub mod Unique
pub mod Held
pub mod Waits
pub mod Tests
use mhttp.Common.{
  ℕ, zero, suc, ◌+◌, ◌-◌, ◌%◌, ◌^◌, ◌<◌, ◌≡◌, Bool, true, false, Option, none, some, List, [], ◌∷◌,
  ◌++◌, map, ◌==◌, if◌then◌else◌,
}

abbrev pub usize_mod : ℕ
usize_mod = 2 ^ 64

-- `Inner`: the counter, and the map where telemetry is on
pub record Inner (Key : Type 0) (Info : Type 0) : Type 0 where
  pub count : ℕ
  pub map : Option (List (Key × Info))

-- Where one call of `insert`, its guard, and the drop of its last clone stand.
pub data Phase (Info : Type 0) : Type 0 where
  -- counted, not yet in the map
  entering : Info → Phase Info
  -- so many clones of the guard are held
  held : ℕ → Phase Info
  -- the last clone is dropped: the map, then the counter, then the waiters
  unmapping : Phase Info
  uncounting : Phase Info
  notifying : Phase Info
  gone : Phase Info

pub record Guard (Key : Type 0) (Info : Type 0) : Type 0 where
  pub id : Key
  pub phase : Phase Info

pub data GuardStep : Type 0 where
  register : GuardStep
  clone : GuardStep
  drop : GuardStep
  remove : GuardStep
  fetch_sub : GuardStep
  notify_waiters : GuardStep

module _ {Key : Type 0} {Info : Type 0} (same : Key → Key → Bool) where
  -- `HashMap::remove` and `HashMap::insert`
  unfoldable pub map_remove : Key → List (Key × Info) → List (Key × Info)
  map_remove i [] = []
  map_remove i ((j, x) ∷ m) = let rest = map_remove i m in if same i j then rest else (j, x) ∷ rest

  unfoldable pub map_insert : Key → Info → List (Key × Info) → List (Key × Info)
  unfolding map_remove
  map_insert i x m = (i, x) ∷ map_remove i m

  abbrev pub with_map : (List (Key × Info) → List (Key × Info)) → Inner Key Info → Inner Key Info
  with_map f inner = record {
    count = inner.count;
    map = elim inner.map [ none ↦ none | some m ↦ some (f m) ];
  }

  -- One step of a guard: where it stands then, what is shared, and whether the waiters are notified.
  unfoldable pub guard_step :
      GuardStep → Key → Phase Info → Inner Key Info → Option (Phase Info × Inner Key Info × Bool)
  unfolding map_insert map_remove
  guard_step register id (entering info) inner =
      some (held 1, with_map (map_insert id info) inner, false)
  guard_step clone id (held (suc n)) inner = some (held (suc (suc n)), inner, false)
  guard_step drop id (held (suc zero)) inner = some (unmapping, inner, false)
  guard_step drop id (held (suc (suc n))) inner = some (held (suc n), inner, false)
  guard_step remove id unmapping inner = some (uncounting, with_map (map_remove id) inner, false)
  guard_step fetch_sub id uncounting inner = some (
    if inner.count == 1 then notifying else gone,
    record { count = (inner.count + usize_mod - 1) % usize_mod; map = inner.map },
    false,
  )
  guard_step notify_waiters id notifying inner = some (gone, inner, true)
  guard_step _ _ _ _ = none

-- Where a call of `wait_for_zero` stands; the flag says whether its listener has been notified.
pub data Waiter : Type 0 where
  begin : Waiter
  enabled : Bool → Waiter
  waiting : Bool → Waiter
  returned : Waiter

pub data WaitStep : Type 0 where
  enable : WaitStep
  load : WaitStep
  wake : WaitStep

unfoldable pub wait_step : WaitStep → Waiter → ℕ → Option Waiter
wait_step enable begin count = some (enabled false)
wait_step load (enabled notified) count = some (if count == 0 then returned else waiting notified)
wait_step wake (waiting true) count = some begin
wait_step _ _ _ = none

-- `Notify::notify_waiters`: every listener that is enabled is notified
unfoldable pub notified : Waiter → Waiter
notified (enabled _) = enabled true
notified (waiting _) = waiting true
notified begin = begin
notified returned = returned

-- All threads together
pub record System (Key : Type 0) (Info : Type 0) : Type 0 where
  pub inner : Inner Key Info
  pub guards : List (Guard Key Info)
  pub waiters : List Waiter

-- `ActiveSet::new_with_telemetry`
abbrev pub new_with_telemetry : {Key Info : Type 0} → Bool → System Key Info
new_with_telemetry telemetry = record {
  inner = record { count = 0; map = if telemetry then some [] else none };
  guards = [];
  waiters = [];
}

module _ {Info : Type 0} where
  -- What a guard, or the drop of one, still holds of the counter.
  abbrev pub counted : Phase Info → ℕ
  counted (entering _) = 1
  counted (held _) = 1
  counted unmapping = 1
  counted uncounting = 1
  counted notifying = 0
  counted gone = 0

  abbrev pub pending : Phase Info → ℕ
  pending notifying = 1
  pending _ = 0

module _ {Key : Type 0} {Info : Type 0} where
  abbrev pub total : (Phase Info → ℕ) → List (Guard Key Info) → ℕ
  total f [] = 0
  total f (g ∷ gs) = f g.phase + total f gs

-- One step of one thread. A set does not hold 2^64 guards, each of which takes memory.
module _ {Key : Type 0} {Info : Type 0} (same : Key → Key → Bool) where
  pub data Step : System Key Info → System Key Info → Type 0 where
    -- `insert` counts the guard first
    insert :
        (id : Key) (info : Info) (inner : Inner Key Info) (gs : List (Guard Key Info))
        (ws : List Waiter)
        → total counted gs + 1 < usize_mod
        → Step
            (record { inner = inner; guards = gs; waiters = ws })
            (record {
              inner = record { count = (inner.count + 1) % usize_mod; map = inner.map };
              guards = record { id = id; phase = entering info } ∷ gs;
              waiters = ws;
            })
    on_guard :
        (a : GuardStep) (id : Key) (p q : Phase Info) (inner after : Inner Key Info) (told : Bool)
        (gs hs : List (Guard Key Info)) (ws : List Waiter)
        → guard_step same a id p inner ≡ some (q, after, told)
        → Step
            (record {
              inner = inner;
              guards = gs ++ record { id = id; phase = p } ∷ hs;
              waiters = ws;
            })
            (record {
              inner = after;
              guards = gs ++ record { id = id; phase = q } ∷ hs;
              waiters = if told then map notified ws else ws;
            })
    -- `wait_for_zero` is called, and goes on
    wait_for_zero :
        (inner : Inner Key Info) (gs : List (Guard Key Info)) (ws : List Waiter)
        → Step
            (record { inner = inner; guards = gs; waiters = ws })
            (record { inner = inner; guards = gs; waiters = begin ∷ ws })
    on_waiter :
        (a : WaitStep) (w v : Waiter) (inner : Inner Key Info) (gs : List (Guard Key Info))
        (ws vs : List Waiter)
        → wait_step a w inner.count ≡ some v
        → Step
            (record { inner = inner; guards = gs; waiters = ws ++ w ∷ vs })
            (record { inner = inner; guards = gs; waiters = ws ++ v ∷ vs })

  pub data Reachable : System Key Info → Type 0 where
    start : (telemetry : Bool) → Reachable (new_with_telemetry telemetry)
    next : (s t : System Key Info) → Reachable s → Step s t → Reachable t
