-- ===== src/Server/Telemetry/Tests.antt =====
-- One request that is tracked and answered.
use mhttp.Common.{◌≡◌, refl, true, false, some, [], ◌∷◌, Bytes, codes, bytes_eq, arith}
use mhttp.Method
use mhttp.Response.Status.{not_found}
use mhttp.ActiveSet.{
  System, Step, Reachable, guard_step, entering, held, register, insert, on_guard, start, next,
  new_with_telemetry,
}
use mhttp.ActiveSet.Entries.{get}
use mhttp.Server.Telemetry.{RequestInfo, new_info, on_sent, on_sent-told}

abbrev asked : RequestInfo
asked = new_info (codes "id") (codes "/a") Method.get 5

abbrev entered : System Bytes RequestInfo
entered = record {
  inner = record { count = 1; map = some [] };
  guards = record { id = codes "id"; phase = entering asked } ∷ [];
  waiters = [];
}

abbrev tracked : System Bytes RequestInfo
tracked = record {
  inner = record { count = 1; map = some ((codes "id", asked) ∷ []) };
  guards = record { id = codes "id"; phase = held 1 } ∷ [];
  waiters = [];
}

tracked-Reachable : Reachable bytes_eq tracked
unfolding guard_step
tracked-Reachable =
    let first : Step bytes_eq (new_with_telemetry true) entered =
      insert (codes "id") asked (record { count = 0; map = some [] }) [] [] (omega arith) in
    let second : Step bytes_eq entered tracked =
      on_guard register (codes "id") (entering asked) (held 1) (record { count = 1; map = some [] })
        (record { count = 1; map = some ((codes "id", asked) ∷ []) }) false [] [] [] refl in
    next entered tracked (next (new_with_telemetry true) entered (start true) first) second

on_sent-told_example :
    (info : RequestInfo) × (get bytes_eq (codes "id") tracked.inner ≡ some info)
    × ((on_sent 9 (codes "id") not_found tracked.inner).1
        ≡ some (record info { response_status = some not_found; ended_at = some 9 }))
on_sent-told_example =
    on_sent-told tracked ((codes "id", asked) ∷ []) [] [] (codes "id") 1 9 not_found
      tracked-Reachable (tt, tt) refl refl
