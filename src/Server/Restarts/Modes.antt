-- ===== src/Server/Restarts/Modes.antt =====
-- What the control plane of src/server.rs means: one restart at a time, whose process is killed by a
-- signal that comes before it takes over.
use mhttp.Common.{ℕ, Bool, true, false, Option, none, some, List, [], ◌∷◌, ◌++◌, ◌≡◌, Bytes}
use mathlib.Core.Path.{subst}
use mhttp.Server.Restarts.{
  Host, exited, running, unknown, Stage, serving, draining_requests, draining_threads, ended,
  Control, Arm, restart, take_request, checked, take_result, signal, requests_done, threads_done,
  initial,
}

-- How the loop was left: a new process took over, by force or not, or a signal came, which killed the
-- process that was being checked
pub data Ending : Type 0 where
  taken_over : (force : Bool) → Ending
  signalled : (killed : Option ℕ) → Ending

pub data Mode : Type 0 where
  idle : Mode
  -- the process with this identifier is being checked
  checking : (pid : ℕ) (force : Bool) → Mode
  -- it was checked: it runs, or the restart has failed
  stable : (pid : ℕ) (force : Bool) → Mode
  failed : (pid : ℕ) → Mode
  over : Ending → Stage → Mode

-- A restart is in progress, with this process.
pub data Busy (pid : ℕ) : Mode → Type 0 where
  while_checking : (force : Bool) → Busy pid (checking pid force)
  while_stable : (force : Bool) → Busy pid (stable pid force)
  while_failed : Busy pid (failed pid)

-- What a restart starts: the executable where it is there, and else the first argument
pub data Launches (host : Host) : Bytes → Type 0 where
  own : (exe : Bytes) → host.current_exe ≡ some exe → host.exists exe ≡ true → Launches host exe
  first_argument :
      (exe path : Bytes)
      → host.current_exe ≡ some exe
      → host.exists exe ≡ false
      → host.first_arg ≡ some path
      → Launches host path

-- The steps of the specification, for each event: from a mode and the requests that wait, to a mode and
-- the requests that wait then
pub data Next : Arm → Mode → List Bool → Mode → List Bool → Type 0 where
  ask : (force : Bool) (m : Mode) (q : List Bool) → Next (restart force) m q m (q ++ force ∷ [])
  ignore :
      (host : Host) (pid : ℕ) (force : Bool) (m : Mode) (q : List Bool)
      → Busy pid m
      → Next (take_request host) m (force ∷ q) m q
  no_executable :
      (host : Host) (force : Bool) (q : List Bool)
      → host.current_exe ≡ none
      → Next (take_request host) idle (force ∷ q) idle q
  no_process :
      (host : Host) (path : Bytes) (force : Bool) (q : List Bool)
      → Launches host path
      → host.spawn path ≡ none
      → Next (take_request host) idle (force ∷ q) idle q
  begin :
      (host : Host) (path : Bytes) (pid : ℕ) (force : Bool) (q : List Bool)
      → Launches host path
      → host.spawn path ≡ some pid
      → Next (take_request host) idle (force ∷ q) (checking pid force) q
  pass :
      (pid : ℕ) (force : Bool) (q : List Bool)
      → Next (checked 0 running) (checking pid force) q (stable pid force) q
  crash :
      (pid : ℕ) (force : Bool) (q : List Bool)
      → Next (checked 0 exited) (checking pid force) q (failed pid) q
  lose :
      (pid : ℕ) (force : Bool) (q : List Bool)
      → Next (checked 0 unknown) (checking pid force) q (failed pid) q
  retry : (pid : ℕ) (q : List Bool) → Next take_result (failed pid) q idle q
  hand_over :
      (pid : ℕ) (q : List Bool)
      → Next take_result (stable pid false) q (over (taken_over false) draining_requests) q
  hand_over_now :
      (pid : ℕ) (q : List Bool)
      → Next take_result (stable pid true) q (over (taken_over true) ended) q
  quit : (q : List Bool) → Next signal idle q (over (signalled none) draining_requests) q
  quit_busy :
      (pid : ℕ) (m : Mode) (q : List Bool)
      → Busy pid m
      → Next signal m q (over (signalled (some pid)) draining_requests) q
  drain :
      (e : Ending) (q : List Bool)
      → Next requests_done (over e draining_requests) q (over e draining_threads) q
  finish :
      (e : Ending) (q : List Bool) → Next threads_done (over e draining_threads) q (over e ended) q

-- The state of a mode in the loop, with the requests that wait
abbrev pub in_loop : Option ℕ → List Bool → List (Option Bool) → List Bool → Control
in_loop pid checks results requests = record initial {
  restart_in_progress = elim pid [ none ↦ false | some _ ↦ true ];
  child_pid = pid;
  checking = checks;
  result_rx = results;
  restart_rx = requests;
}

abbrev pub hooks_run : Ending → ℕ
hooks_run (taken_over _) = 1
hooks_run (signalled _) = 0

abbrev pub killed_by : Ending → List ℕ
killed_by (taken_over _) = []
killed_by (signalled none) = []
killed_by (signalled (some pid)) = pid ∷ []

-- What is seen behind the loop: accepting has stopped, and the hook has run once or not at all
pub record IsOver (e : Ending) (p : Stage) (q : List Bool) (s : Control) : Type 0 where
  pub stop_accept : s.stop_accept ≡ true
  pub pre_hooks : s.pre_hooks ≡ hooks_run e
  pub killed : s.killed ≡ killed_by e
  pub waiting : s.restart_rx ≡ q
  pub phase : s.phase ≡ p

-- The state shows the mode and the requests that wait.
abbrev pub Shows : Mode → List Bool → Control → Type 0
Shows idle q s = in_loop none [] [] q ≡ s
Shows (checking pid force) q s = in_loop (some pid) (force ∷ []) [] q ≡ s
Shows (stable pid force) q s = in_loop (some pid) [] (some force ∷ []) q ≡ s
Shows (failed pid) q s = in_loop (some pid) [] (none ∷ []) q ≡ s
Shows (over e serving) q s = ⊥
Shows (over e p) q s = IsOver e p q s

-- The specification takes the event, to a mode that the state shows.
abbrev pub Moves : Arm → Mode → List Bool → Control → Type 0
Moves a m q t = (n : Mode) × (r : List Bool) × Next a m q n r × Shows n r t

pub given :
    (a : Arm) (m : Mode) (q : List Bool) (x t : Control)
    → Option.some x ≡ some t
    → Moves a m q x
    → Moves a m q t
given a m q x t h moves = let same : x ≡ t = cc in subst (Moves a m q) same moves
