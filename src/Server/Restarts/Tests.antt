-- ===== src/Server/Restarts/Tests.antt =====
-- Restarts of a server whose new process is found to run.
use mhttp.Common.{Bool, List, ◌≡◌, some, true, none, [], ◌∷◌, refl, codes}
use mhttp.Server.Restarts.{
  Arm, Host, running, Control, restart, take_request, checked, take_result, initial, on_request,
  pick, on_result, step, Reachable, start, next, ended,
}
use mhttp.Server.Restarts.Modes.{Mode, Next, Shows, Moves}
use mhttp.Server.Restarts.Allowed.{Takes}
use mhttp.Server.Restarts.Refine.{events, Comes, Reachable-Shows, IsSingle, Reachable-IsSingle}

abbrev host : Host
host = record {
  current_exe = some (codes "/bin/app");
  exists = λ path. true;
  first_arg = none;
  spawn = λ path. some 7;
}

abbrev waiting : Control
waiting = record initial { restart_rx = true ∷ [] }

abbrev started : Control
started = record initial { restart_in_progress = true; child_pid = some 7; checking = true ∷ [] }

abbrev verified : Control
verified = record initial {
  restart_in_progress = true;
  child_pid = some 7;
  result_rx = some true ∷ [];
}

abbrev forced : Control
forced = record initial {
  restart_in_progress = true;
  child_pid = some 7;
  stop_accept = true;
  pre_hooks = 1;
  phase = ended;
}

started-Reachable : Reachable started
unfolding step on_request
started-Reachable =
    next (take_request host) waiting started (next (restart true) initial waiting start refl) refl

forced-Reachable : Reachable forced
unfolding step pick on_result
forced-Reachable =
    next take_result verified forced
      (next (checked 0 running) started verified started-Reachable refl) refl

Reachable-Shows_example :
    (m : Mode) × (q : List Bool) × Comes (events forced forced-Reachable) m q
    × Shows m q forced
    × ((a : Arm) (t : Control) → step a forced.phase forced ≡ some t → Moves a m q t)
    × ((a : Arm) (n : Mode) (r : List Bool) → Next a m q n r → Takes a forced n r)
Reachable-Shows_example = Reachable-Shows forced forced-Reachable

Reachable-IsSingle_example : IsSingle started
Reachable-IsSingle_example = Reachable-IsSingle started started-Reachable refl
