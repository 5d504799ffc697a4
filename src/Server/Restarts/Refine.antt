-- ===== src/Server/Restarts/Refine.antt =====
-- The control plane of src/server.rs goes through the modes of its specification, event by event.
use mhttp.Common.{
  ◌+◌, ◌++◌, length, arith, Bool, none, some, List, [], ◌∷◌, ◌≡◌, refl, sym, ◌∙◌, if◌then◌else◌,
}
use mathlib.Core.Path.{subst}
use mhttp.Server.{is_found}
use mhttp.Server.Restarts.{
  kill, Stage, serving, draining_requests, draining_threads, ended, Control, Arm, restart,
  requests_done, threads_done, on_signal, step, Reachable, start, next,
}
use mhttp.Server.Restarts.Modes.{
  Ending, Mode, idle, checking, stable, failed, over, while_checking, while_stable, while_failed,
  Next, ask, drain, finish, in_loop, IsOver, Shows, Moves, given,
}
use mhttp.Server.Restarts.Taken.{
  idle-Moves, Busy-Moves, no_task, no_result, task-Moves, stable-Moves, failed-Moves,
}
use mhttp.Server.Restarts.Allowed.{Takes, Next-Takes, asked, IsOver-phase}

-- Behind the loop only requests come in, and each wait ends in its turn.
behind-Moves :
    (e : Ending) (p : Stage) (a : Arm) (q : List Bool) (s t : Control)
    → Shows (over e p) q s
    → step a p s ≡ some t
    → Moves a (over e p) q t
unfolding step
behind-Moves e serving a q s t shown h = absurd shown
behind-Moves e p (restart force) q s t shown h =
    given (restart force) (over e p) q _ t h
      (over e p, q ++ force ∷ [], ask force (over e p) q, asked e p force q s shown)
behind-Moves e draining_requests requests_done q s t shown h =
    given requests_done (over e draining_requests) q _ t h
      (over e draining_threads, q, drain e q, IsOver-phase e _ draining_threads q s shown)
behind-Moves e draining_threads threads_done q s t shown h =
    given threads_done (over e draining_threads) q _ t h
      (over e ended, q, finish e q, IsOver-phase e _ ended q s shown)
behind-Moves e p a q s t shown h = absurd (cc)

over-Moves :
    (e : Ending) (p : Stage) (a : Arm) (q : List Bool) (s t : Control)
    → IsOver e p q s
    → Shows (over e p) q s
    → step a s.phase s ≡ some t
    → Moves a (over e p) q t
over-Moves e p a q s t behind shown h =
    behind-Moves e p a q s t shown (subst (λ p. step a p s ≡ some t) behind.phase h)

pub step-Moves :
    (m : Mode) (a : Arm) (q : List Bool) (s t : Control)
    → Shows m q s
    → step a s.phase s ≡ some t
    → Moves a m q t
step-Moves idle a q s t e h = idle-Moves a q t (subst (λ x. step a x.phase x ≡ some t) (sym e) h)
step-Moves (checking pid force) a q s t e h =
    Busy-Moves (checking pid force) pid (force ∷ []) [] a q t (λ r. refl) (while_checking force)
      (λ n check. task-Moves pid force q n check t) (no_result (checking pid force) q _ t)
      (subst (λ x. step a x.phase x ≡ some t) (sym e) h)
step-Moves (stable pid force) a q s t e h =
    Busy-Moves (stable pid force) pid [] (some force ∷ []) a q t (λ r. refl) (while_stable force)
      (λ n check.
        no_task (stable pid force) q n check (in_loop (some pid) [] (some force ∷ []) q) t)
      (stable-Moves pid force q t) (subst (λ x. step a x.phase x ≡ some t) (sym e) h)
step-Moves (failed pid) a q s t e h =
    Busy-Moves (failed pid) pid [] (none ∷ []) a q t (λ r. refl) while_failed
      (λ n check. no_task (failed pid) q n check (in_loop (some pid) [] (none ∷ []) q) t)
      (failed-Moves pid q t) (subst (λ x. step a x.phase x ≡ some t) (sym e) h)
step-Moves (over e serving) a q s t shown h = absurd shown
step-Moves (over e draining_requests) a q s t shown h =
    over-Moves e draining_requests a q s t shown shown h
step-Moves (over e draining_threads) a q s t shown h =
    over-Moves e draining_threads a q s t shown shown h
step-Moves (over e ended) a q s t shown h = over-Moves e ended a q s t shown shown h

-- The events that led to a state, the last one first
pub events : (s : Control) → Reachable s → List Arm
events _ start = []
events _ (next a s t before h) = a ∷ events s before

-- The specification goes through events, the last one first, to a mode and the requests that wait.
pub data Comes : List Arm → Mode → List Bool → Type 0 where
  first : Comes [] idle []
  later :
      (a : Arm) (arms : List Arm) (m : Mode) (q : List Bool) (n : Mode) (r : List Bool)
      → Comes arms m q
      → Next a m q n r
      → Comes (a ∷ arms) n r

reached :
    (s : Control) (come : Reachable s)
    → (m : Mode) × (q : List Bool) × Comes (events s come) m q × Shows m q s
unfolding events
reached _ start = (idle, [], first, refl)
reached _ (next a s t before h) =
    let (m, q, come, shown) = reached s before in
    let (n, r, moved, shown_then) = step-Moves m a q s t shown h in
    (n, r, later a (events s before) m q n r come moved, shown_then)

-- The control plane follows its specification event by event. Whatever events led to a state, the
-- specification takes the same ones in the same order, to a mode and a queue of requests that the
-- state shows; and the next events are the same for both: a step of the control plane is one that the
-- specification takes with this event, and an event that the specification can take next is taken by
-- the control plane, each time to a state that shows the mode behind it. In the specification a
-- request is ignored while a restart is in progress. Else it starts the executable, or the first
-- argument where the executable is gone; it is dropped where the executable is not known or no process
-- comes of it, and where there is no first argument either, which is a panic, nothing follows. The
-- restart goes on only if the check finds the process running; then a result leaves the loop, at once if
-- the restart is forced. A process that exited, or of which nothing is known, makes the next restart
-- possible. A signal leaves the loop and kills exactly the process of a restart in progress. Behind the
-- loop the hook has run once where a process took over, and else not at all, and the accept loops are
-- told to stop.
pub Reachable-Shows :
    (s : Control) (come : Reachable s)
    → (m : Mode) × (q : List Bool) × Comes (events s come) m q
      × Shows m q s
      × ((a : Arm) (t : Control) → step a s.phase s ≡ some t → Moves a m q t)
      × ((a : Arm) (n : Mode) (r : List Bool) → Next a m q n r → Takes a s n r)
Reachable-Shows s come =
    let (m, q, came, shown) = reached s come in
    (m, q, came, shown, λ a t. step-Moves m a q s t shown, λ a n r. Next-Takes a m q n r s shown)

-- The lock, the process and its check agree.
pub record IsSingle (s : Control) : Type 0 where
  pub process : s.restart_in_progress ≡ is_found s.child_pid
  pub checks : length s.checking + length s.result_rx ≡ (if s.restart_in_progress then 1 else 0)
  pub kills : (on_signal s).killed ≡ kill s.child_pid []

mode-IsSingle :
    (m : Mode) (q : List Bool) (s : Control) → Shows m q s → s.phase ≡ serving → IsSingle s
unfolding on_signal
mode-IsSingle idle q s e p =
    subst IsSingle e (record { process = refl; checks = omega arith; kills = refl })
mode-IsSingle (checking pid force) q s e p =
    subst IsSingle e (record { process = refl; checks = omega arith; kills = refl })
mode-IsSingle (stable pid force) q s e p =
    subst IsSingle e (record { process = refl; checks = omega arith; kills = refl })
mode-IsSingle (failed pid) q s e p =
    subst IsSingle e (record { process = refl; checks = omega arith; kills = refl })
mode-IsSingle (over e serving) q s shown p = absurd shown
mode-IsSingle (over e r) q s shown p = let clash : serving ≡ r = sym p ∙ shown.phase in absurd (cc)

-- While the loop runs, the lock is held exactly when a process is remembered; then there is exactly
-- one check of it under way or one result of it that waits, and else there is none; and a signal kills
-- exactly the process that is remembered.
pub Reachable-IsSingle : (s : Control) → Reachable s → s.phase ≡ serving → IsSingle s
Reachable-IsSingle s come p = let (m, q, _, shown) = reached s come in mode-IsSingle m q s shown p
