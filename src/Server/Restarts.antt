-- ===== src/Server/Restarts.antt =====
-- The control plane of `HttpServer::listen` in src/server.rs: restarts, signals, and the end of the
-- process. Each arm of the `select!` is one step, and so is each task that checks a new process. The
-- operating system is a parameter.
pub mod Modes
pub mod Taken
pub mod Allowed
pub mod Refine
pub mod Tests
use mhttp.Common.{
  ℕ, zero, suc, ◌+◌, Bool, true, false, Option, none, some, List, [], ◌∷◌, ◌++◌, ◌≡◌, refl, sym,
  ◌∙◌, Bytes, if◌then◌else◌, Bool-cases, Option-cases, inl, inr,
}
use mathlib.Core.Path.{subst}

-- What the operating system answers: `current_exe`, `exists`, the first argument, and `spawn` with the
-- identifier of the new process
pub record Host : Type 0 where
  pub current_exe : Option Bytes
  pub exists : Bytes → Bool
  pub first_arg : Option Bytes
  pub spawn : Bytes → Option ℕ

-- What `try_wait` says of a new process behind the stability window
pub data Check : Type 0 where
  exited : Check
  running : Check
  unknown : Check

-- Where `listen` stands: in its loop, in one of the two waits behind it, or at the end
pub data Stage : Type 0 where
  serving : Stage
  draining_requests : Stage
  draining_threads : Stage
  ended : Stage

-- A restart is `force` or not; a result is that of a restart, or a failure.
pub record Control : Type 0 where
  pub restart_in_progress : Bool
  pub child_pid : Option ℕ
  pub restart_rx : List Bool
  pub checking : List Bool
  pub result_rx : List (Option Bool)
  pub stop_accept : Bool
  pub pre_hooks : ℕ
  pub killed : List ℕ
  pub phase : Stage

pub data Arm : Type 0 where
  restart : Bool → Arm
  take_request : Host → Arm
  checked : ℕ → Check → Arm
  take_result : Arm
  signal : Arm
  requests_done : Arm
  threads_done : Arm

abbrev pub initial : Control
initial = record {
  restart_in_progress = false;
  child_pid = none;
  restart_rx = [];
  checking = [];
  result_rx = [];
  stop_accept = false;
  pre_hooks = 0;
  killed = [];
  phase = serving;
}

-- The path that is started: the executable if it is there, and else the first argument
abbrev pub command_path : Host → Bytes → Option Bytes
command_path host exe = if host.exists exe then some exe else host.first_arg

abbrev pub unlocked : Control → Control
unlocked s = record s { restart_in_progress = false }

abbrev pub on_spawn : Bool → Control → Option ℕ → Control
on_spawn force s none = unlocked s
on_spawn force s (some pid) = record s {
  restart_in_progress = true;
  child_pid = some pid;
  checking = force ∷ s.checking;
}

-- A path is a panic where it is none, since the first argument is unwrapped.
abbrev pub on_path : Host → Bool → Control → Option Bytes → Option Control
on_path host force s none = none
on_path host force s (some path) = some (on_spawn force s (host.spawn path))

abbrev pub on_exe : Host → Bool → Control → Option Bytes → Option Control
on_exe host force s none = some (unlocked s)
on_exe host force s (some exe) = on_path host force s (command_path host exe)

-- A restart that is asked for: it is ignored while another is in progress.
unfoldable pub on_request : Host → List Bool → Control → Option Control
on_request host [] s = none
on_request host (force ∷ rest) s =
    let taken : Control = record s { restart_rx = rest } in
    let started = on_exe host force taken host.current_exe in
    if s.restart_in_progress then some taken else started

-- What a task sends, once the window is over
abbrev pub verdict : Check → Bool → Option Bool
verdict exited force = none
verdict running force = some force
verdict unknown force = none

-- One of the tasks, whichever is done first
unfoldable pub pick : {A : Type 0} → ℕ → List A → Option (A × List A)
pick n [] = none
pick zero (a ∷ rest) = some (a, rest)
pick (suc n) (a ∷ rest) = elim (pick n rest) [
  | none ↦ none
  | some (b, others) ↦ some (b, a ∷ others)
]

abbrev pub on_checked : Check → Control → Option (Bool × List Bool) → Option Control
on_checked check s none = none
on_checked check s (some (force, rest)) =
    some (record s { checking = rest; result_rx = s.result_rx ++ verdict check force ∷ [] })

-- The end of the loop: a forced end is at once, and another waits.
abbrev pub end_loop : Bool → Control → Control
end_loop force s = record s { phase = if force then ended else draining_requests }

-- A result: the accept loops stop, the hook runs, within its time or not, and the loop ends; or the
-- restart has failed.
unfoldable pub on_result : List (Option Bool) → Control → Option Control
on_result [] s = none
on_result (some force ∷ rest) s = some (
    end_loop force (record s { result_rx = rest; stop_accept = true; pre_hooks = suc s.pre_hooks }))
on_result (none ∷ rest) s =
    some (record s { result_rx = rest; child_pid = none; restart_in_progress = false })

abbrev pub kill : Option ℕ → List ℕ → List ℕ
kill none pids = pids
kill (some pid) pids = pid ∷ pids

-- SIGINT or SIGTERM
unfoldable pub on_signal : Control → Control
on_signal s = end_loop false (record s {
  killed = if s.restart_in_progress then kill s.child_pid s.killed else s.killed;
  stop_accept = true;
})

-- One step; none where it cannot be taken, or is a panic
unfoldable pub step : Arm → Stage → Control → Option Control
unfolding on_request pick on_result on_signal
step (restart force) p s = some (record s { restart_rx = s.restart_rx ++ force ∷ [] })
step (take_request host) serving s = on_request host s.restart_rx s
step (checked n check) serving s = on_checked check s (pick n s.checking)
step take_result serving s = on_result s.result_rx s
step signal serving s = some (on_signal s)
step requests_done draining_requests s = some (record s { phase = draining_threads })
step threads_done draining_threads s = some (record s { phase = ended })
step _ _ _ = none

pub data Reachable : Control → Type 0 where
  start : Reachable initial
  next : (e : Arm) (s t : Control) → Reachable s → step e s.phase s ≡ some t → Reachable t
