-- ===== src/Server/Restarts/Taken.antt =====
-- Each step of the control loop of src/server.rs is one of its specification, for the same event.
use mhttp.Common.{
  ℕ, zero, suc, ◌≡◌, refl, Bool, true, false, Option, none, some, List, [], ◌∷◌, ◌++◌, Bytes,
  Bool-cases, Option-cases, inl, inr,
}
use mhttp.Server.Restarts.{
  Host, Check, exited, running, unknown, serving, draining_requests, ended, Control, Arm, restart,
  take_request, checked, take_result, signal, requests_done, threads_done, on_spawn, on_request,
  pick, on_checked, on_result, on_signal, step,
}
use mhttp.Server.Restarts.Modes.{
  taken_over, signalled, Mode, idle, checking, stable, failed, over, Busy, Launches, own,
  first_argument, ask, ignore, no_executable, no_process, begin, pass, crash, lose, retry,
  hand_over, hand_over_now, quit, quit_busy, in_loop, Shows, Moves, given,
}

launch-Moves :
    (host : Host) (force : Bool) (q : List Bool) (path : Bytes) (t : Control)
    → Launches host path
    → some (on_spawn force (in_loop none [] [] q) (host.spawn path)) ≡ some t
    → Moves (take_request host) idle (force ∷ q) t
launch-Moves host force q path t launches h = elim (Option-cases (host.spawn path)) [
  | inl e ↦
      given (take_request host) idle (force ∷ q) _ t (rw e at h)
        (idle, q, no_process host path force q launches e, refl)
  | inr (pid, e) ↦
      given (take_request host) idle (force ∷ q) _ t (rw e at h)
        (checking pid force, q, begin host path pid force q launches e, refl)
]

request-Moves :
    (host : Host) (force : Bool) (q : List Bool) (t : Control)
    → on_request host (force ∷ q) (in_loop none [] [] (force ∷ q)) ≡ some t
    → Moves (take_request host) idle (force ∷ q) t
unfolding on_request
request-Moves host force q t h = elim (Option-cases host.current_exe) [
  | inl e ↦
      given (take_request host) idle (force ∷ q) _ t (rw e at h)
        (idle, q, no_executable host force q e, refl)
  | inr (exe, e) ↦ elim (Bool-cases (host.exists exe)) [
    | inl there ↦ launch-Moves host force q exe t (own exe e there) (rw (e, there) at h)
    | inr missing ↦ elim (Option-cases host.first_arg) [
      | inl f ↦ absurd (let panics = rw (e, missing, f) at h in cc)
      | inr (path, f) ↦
          launch-Moves host force q path t (first_argument exe path e missing f)
            (rw (e, missing, f) at h)
    ]
  ]
]

pub idle-Moves :
    (a : Arm) (q : List Bool) (t : Control)
    → step a serving (in_loop none [] [] q) ≡ some t
    → Moves a idle q t
unfolding step on_request pick on_result on_signal
idle-Moves (restart force) q t h =
    given (restart force) idle q _ t h (idle, q ++ force ∷ [], ask force idle q, refl)
idle-Moves (take_request host) [] t h = absurd (cc)
idle-Moves (take_request host) (force ∷ q) t h = request-Moves host force q t h
idle-Moves (checked n check) q t h = absurd (cc)
idle-Moves take_result q t h = absurd (cc)
idle-Moves signal q t h = given signal idle q _ t h (
  over (signalled none) draining_requests,
  q,
  quit q,
  record { stop_accept = refl; pre_hooks = refl; killed = refl; waiting = refl; phase = refl },
)
idle-Moves requests_done q t h = absurd (cc)
idle-Moves threads_done q t h = absurd (cc)

-- What a restart in progress ignores, and the signal, are the same in every mode of it.
pub Busy-Moves :
    (m : Mode) (pid : ℕ) (checks : List Bool) (results : List (Option Bool)) (a : Arm)
    (q : List Bool) (t : Control)
    → ((r : List Bool) → Shows m r (in_loop (some pid) checks results r))
    → Busy pid m
    → ((n : ℕ) (check : Check)
        → on_checked check (in_loop (some pid) checks results q) (pick n checks) ≡ some t
        → Moves (checked n check) m q t)
    → (on_result results (in_loop (some pid) checks results q) ≡ some t → Moves take_result m q t)
    → step a serving (in_loop (some pid) checks results q) ≡ some t
    → Moves a m q t
unfolding step on_request on_signal
Busy-Moves m pid checks results (restart force) q t shows busy tasks answers h =
    given (restart force) m q _ t h (m, q ++ force ∷ [], ask force m q, shows (q ++ force ∷ []))
Busy-Moves m pid checks results (take_request host) [] t shows busy tasks answers h = absurd (cc)
Busy-Moves m pid checks results (take_request host) (force ∷ q) t shows busy tasks answers h =
    given (take_request host) m (force ∷ q) _ t h (m, q, ignore host pid force m q busy, shows q)
Busy-Moves m pid checks results (checked n check) q t shows busy tasks answers h = tasks n check h
Busy-Moves m pid checks results take_result q t shows busy tasks answers h = answers h
Busy-Moves m pid checks results signal q t shows busy tasks answers h = given signal m q _ t h (
  over (signalled (some pid)) draining_requests,
  q,
  quit_busy pid m q busy,
  record { stop_accept = refl; pre_hooks = refl; killed = refl; waiting = refl; phase = refl },
)
Busy-Moves m pid checks results requests_done q t shows busy tasks answers h = absurd (cc)
Busy-Moves m pid checks results threads_done q t shows busy tasks answers h = absurd (cc)

pub no_task :
    (m : Mode) (q : List Bool) (n : ℕ) (check : Check) (s t : Control)
    → on_checked check s (pick n []) ≡ some t
    → Moves (checked n check) m q t
unfolding pick
no_task m q n check s t h = absurd (cc)

pub no_result :
    (m : Mode) (q : List Bool) (s t : Control) → on_result [] s ≡ some t → Moves take_result m q t
unfolding on_result
no_result m q s t h = absurd (cc)

pub task-Moves :
    (pid : ℕ) (force : Bool) (q : List Bool) (n : ℕ) (check : Check) (t : Control)
    → on_checked check (in_loop (some pid) (force ∷ []) [] q) (pick n (force ∷ [])) ≡ some t
    → Moves (checked n check) (checking pid force) q t
unfolding pick
task-Moves pid force q zero exited t h =
    given _ (checking pid force) q _ t h (failed pid, q, crash pid force q, refl)
task-Moves pid force q zero running t h =
    given _ (checking pid force) q _ t h (stable pid force, q, pass pid force q, refl)
task-Moves pid force q zero unknown t h =
    given _ (checking pid force) q _ t h (failed pid, q, lose pid force q, refl)
task-Moves pid force q (suc n) check t h = absurd (cc)

pub stable-Moves :
    (pid : ℕ) (force : Bool) (q : List Bool) (t : Control)
    → on_result (some force ∷ []) (in_loop (some pid) [] (some force ∷ []) q) ≡ some t
    → Moves take_result (stable pid force) q t
unfolding on_result
stable-Moves pid true q t h = given take_result (stable pid true) q _ t h (
  over (taken_over true) ended,
  q,
  hand_over_now pid q,
  record { stop_accept = refl; pre_hooks = refl; killed = refl; waiting = refl; phase = refl },
)
stable-Moves pid false q t h = given take_result (stable pid false) q _ t h (
  over (taken_over false) draining_requests,
  q,
  hand_over pid q,
  record { stop_accept = refl; pre_hooks = refl; killed = refl; waiting = refl; phase = refl },
)

pub failed-Moves :
    (pid : ℕ) (q : List Bool) (t : Control)
    → on_result (none ∷ []) (in_loop (some pid) [] (none ∷ []) q) ≡ some t
    → Moves take_result (failed pid) q t
unfolding on_result
failed-Moves pid q t h = given take_result (failed pid) q _ t h (idle, q, retry pid q, refl)
