-- ===== src/Server/Restarts/Allowed.antt =====
-- Each step of the specification of the control loop of src/server.rs is one of the loop, for the same event.
use mhttp.Common.{
  ℕ, ◌≡◌, refl, ap, ◌∙◌, Bool, true, false, Option, none, some, List, [], ◌∷◌, ◌++◌, Bytes,
}
use mathlib.Core.Path.{subst}
use mhttp.Server.Restarts.{
  Host, exited, running, unknown, Stage, serving, draining_requests, draining_threads, ended,
  Control, Arm, restart, take_request, checked, take_result, signal, requests_done, threads_done,
  on_spawn, on_request, pick, on_result, on_signal, step,
}
use mhttp.Server.Restarts.Modes.{
  Ending, taken_over, signalled, Mode, idle, checking, stable, failed, over, Busy, while_checking,
  while_stable, while_failed, Launches, own, first_argument, Next, ask, ignore, no_executable,
  no_process, begin, pass, crash, lose, retry, hand_over, hand_over_now, quit, quit_busy, drain,
  finish, in_loop, IsOver, Shows,
}

-- The control plane takes the event, to a state that shows the mode.
abbrev pub Takes : Arm → Control → Mode → List Bool → Type 0
Takes a s n r = (t : Control) × (step a s.phase s ≡ some t) × Shows n r t

launched :
    (host : Host) (path : Bytes) (force : Bool) (q : List Bool)
    → Launches host path
    → on_request host (force ∷ q) (in_loop none [] [] (force ∷ q))
      ≡ some (on_spawn force (in_loop none [] [] q) (host.spawn path))
unfolding on_request
launched host path force q (own _ found there) = rw (found, there) refl
launched host path force q (first_argument exe _ found missing first) =
    rw (found, missing, first) refl

-- A request that comes in behind the loop waits, and a wait that ends leaves the rest as it is.
pub asked :
    (e : Ending) (p : Stage) (force : Bool) (q : List Bool) (s : Control)
    → Shows (over e p) q s
    → Shows (over e p) (q ++ force ∷ []) (record s { restart_rx = s.restart_rx ++ force ∷ [] })
asked e serving force q s shown = absurd shown
asked e p force q s shown = record {
  stop_accept = shown.stop_accept;
  pre_hooks = shown.pre_hooks;
  killed = shown.killed;
  waiting = ap (λ rs. rs ++ force ∷ []) shown.waiting;
  phase = shown.phase;
}

pub IsOver-phase :
    (e : Ending) (p r : Stage) (q : List Bool) (s : Control)
    → IsOver e p q s
    → IsOver e r q (record s { phase = r })
IsOver-phase e p r q s shown = record {
  stop_accept = shown.stop_accept;
  pre_hooks = shown.pre_hooks;
  killed = shown.killed;
  waiting = shown.waiting;
  phase = refl;
}

ask-Takes :
    (force : Bool) (m : Mode) (q : List Bool) (s : Control)
    → Shows m q s
    → Takes (restart force) s m (q ++ force ∷ [])
unfolding step
ask-Takes force idle q s e =
    subst (λ s. Takes (restart force) s idle (q ++ force ∷ [])) e (_, refl, refl)
ask-Takes force (checking pid f) q s e =
    subst (λ s. Takes (restart force) s (checking pid f) (q ++ force ∷ [])) e (_, refl, refl)
ask-Takes force (stable pid f) q s e =
    subst (λ s. Takes (restart force) s (stable pid f) (q ++ force ∷ [])) e (_, refl, refl)
ask-Takes force (failed pid) q s e =
    subst (λ s. Takes (restart force) s (failed pid) (q ++ force ∷ [])) e (_, refl, refl)
ask-Takes force (over e p) q s shown = (_, refl, asked e p force q s shown)

ignore-Takes :
    (host : Host) (pid : ℕ) (force : Bool) (m : Mode) (q : List Bool) (s : Control)
    → Busy pid m
    → Shows m (force ∷ q) s
    → Takes (take_request host) s m q
unfolding step on_request
ignore-Takes host pid force _ q s (while_checking f) e =
    subst (λ s. Takes (take_request host) s (checking pid f) q) e (_, refl, refl)
ignore-Takes host pid force _ q s (while_stable f) e =
    subst (λ s. Takes (take_request host) s (stable pid f) q) e (_, refl, refl)
ignore-Takes host pid force _ q s while_failed e =
    subst (λ s. Takes (take_request host) s (failed pid) q) e (_, refl, refl)

abbrev LeftBy : Option ℕ → List Bool → Control → Type 0
LeftBy pid q s = Takes signal s (over (signalled pid) draining_requests) q

loop-Takes :
    (pid : Option ℕ) (checks : List Bool) (results : List (Option Bool)) (q : List Bool)
    → LeftBy pid q (in_loop pid checks results q)
unfolding step on_signal
loop-Takes none checks results q = (
  _,
  refl,
  record { stop_accept = refl; pre_hooks = refl; killed = refl; waiting = refl; phase = refl },
)
loop-Takes (some pid) checks results q = (
  _,
  refl,
  record { stop_accept = refl; pre_hooks = refl; killed = refl; waiting = refl; phase = refl },
)

quit-Takes :
    (pid : ℕ) (m : Mode) (q : List Bool) (s : Control)
    → Busy pid m
    → Shows m q s
    → LeftBy (some pid) q s
quit-Takes pid _ q s (while_checking force) e =
    subst (LeftBy (some pid) q) e (loop-Takes (some pid) (force ∷ []) [] q)
quit-Takes pid _ q s (while_stable force) e =
    subst (LeftBy (some pid) q) e (loop-Takes (some pid) [] (some force ∷ []) q)
quit-Takes pid _ q s while_failed e =
    subst (LeftBy (some pid) q) e (loop-Takes (some pid) [] (none ∷ []) q)

launch-Takes :
    (host : Host) (path : Bytes) (force : Bool) (q : List Bool) (n : Mode) (t : Control)
    → Launches host path
    → on_spawn force (in_loop none [] [] q) (host.spawn path) ≡ t
    → Shows n q t
    → Takes (take_request host) (in_loop none [] [] (force ∷ q)) n q
unfolding step
launch-Takes host path force q n t launches made shown =
    (t, launched host path force q launches ∙ ap some made, shown)

pub Next-Takes :
    (a : Arm) (m : Mode) (q : List Bool) (n : Mode) (r : List Bool) (s : Control)
    → Shows m q s
    → Next a m q n r
    → Takes a s n r
unfolding step on_request pick on_result
Next-Takes _ m q _ _ s shown (ask force _ _) = ask-Takes force m q s shown
Next-Takes _ m _ _ q s shown (ignore host pid force _ _ busy) =
    ignore-Takes host pid force m q s busy shown
Next-Takes _ _ _ _ q s e (no_executable host force _ missing) =
    subst (λ s. Takes (take_request host) s idle q) e (in_loop none [] [] q, rw missing refl, refl)
Next-Takes _ _ _ _ q s e (no_process host path force _ launches f) =
    subst (λ s. Takes (take_request host) s idle q) e
      (launch-Takes host path force q idle _ launches (rw f refl) refl)
Next-Takes _ _ _ _ q s e (begin host path pid force _ launches f) =
    subst (λ s. Takes (take_request host) s (checking pid force) q) e
      (launch-Takes host path force q (checking pid force) _ launches (rw f refl) refl)
Next-Takes _ _ q _ _ s e (pass pid force _) =
    subst (λ s. Takes (checked 0 running) s (stable pid force) q) e (_, refl, refl)
Next-Takes _ _ q _ _ s e (crash pid force _) =
    subst (λ s. Takes (checked 0 exited) s (failed pid) q) e (_, refl, refl)
Next-Takes _ _ q _ _ s e (lose pid force _) =
    subst (λ s. Takes (checked 0 unknown) s (failed pid) q) e (_, refl, refl)
Next-Takes _ _ q _ _ s e (retry pid _) = subst (λ s. Takes take_result s idle q) e (_, refl, refl)
Next-Takes _ _ q _ _ s e (hand_over pid _) =
    subst (λ s. Takes take_result s (over (taken_over false) draining_requests) q) e
      (
        _,
        refl,
        record {
          stop_accept = refl;
          pre_hooks = refl;
          killed = refl;
          waiting = refl;
          phase = refl;
        },
      )
Next-Takes _ _ q _ _ s e (hand_over_now pid _) =
    subst (λ s. Takes take_result s (over (taken_over true) ended) q) e
      (
        _,
        refl,
        record {
          stop_accept = refl;
          pre_hooks = refl;
          killed = refl;
          waiting = refl;
          phase = refl;
        },
      )
Next-Takes _ _ q _ _ s e (quit _) = subst (LeftBy none q) e (loop-Takes none [] [] q)
Next-Takes _ m q _ _ s shown (quit_busy pid _ _ busy) = quit-Takes pid m q s busy shown
Next-Takes _ _ q _ _ s shown (drain e _) = (
  record s { phase = draining_threads },
  ap (λ p. step requests_done p s) shown.phase,
  IsOver-phase e draining_requests draining_threads q s shown,
)
Next-Takes _ _ q _ _ s shown (finish e _) = (
  record s { phase = ended },
  ap (λ p. step threads_done p s) shown.phase,
  IsOver-phase e draining_threads ended q s shown,
)
