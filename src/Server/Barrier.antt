-- ===== src/Server/Barrier.antt =====
-- `ThreadDrainBarrier` of src/server.rs: threads count down, and one task waits for the last of them.
-- Each atomic operation is a step; a listener of `Notify` exists from the moment it is created.
use mathlib.Core.Path.{subst}
use mhttp.Common.{◌||◌, ℕ, zero, suc, ◌-◌, ◌≡◌, ◌≢◌, refl, Bool, true, false, ◌==◌, arith}

-- Where `wait_all_done` stands: in front of the load, behind a load that was not zero, at its
-- listener, or behind its end
pub data Waiting : Type 0 where
  loading : Waiting
  loaded : Waiting
  listening : (told : Bool) → Waiting
  returned : Waiting

-- The counter, whether the last thread is still to notify, and the task that waits
pub record ThreadDrainBarrier : Type 0 where
  pub remaining : ℕ
  pub notifying : Bool
  pub waiting : Waiting

unfoldable pub new : ℕ → ThreadDrainBarrier
new thread_count = record { remaining = thread_count; notifying = false; waiting = loading }

-- `notify_waiters`
unfoldable pub notify_waiters : Waiting → Waiting
notify_waiters (listening told) = listening true
notify_waiters w = w

-- The `fetch_sub` of `thread_done`: the old value decides whether this was the last thread.
unfoldable pub fetch_sub : ThreadDrainBarrier → ThreadDrainBarrier
fetch_sub b = record b { remaining = b.remaining - 1; notifying = b.notifying || b.remaining == 1 }

-- What `thread_done` does in the last thread
unfoldable pub notify_last : ThreadDrainBarrier → ThreadDrainBarrier
unfolding notify_waiters
notify_last b = record b { notifying = false; waiting = notify_waiters b.waiting }

-- The steps of `wait_all_done`
pub data WaitStep : ℕ → Waiting → Waiting → Type 0 where
  leave : WaitStep 0 loading returned
  stay : (n : ℕ) → WaitStep (suc n) loading loaded
  listen : (n : ℕ) → WaitStep n loaded (listening false)
  wake : (n : ℕ) → WaitStep n (listening true) loading

pub data Step : ThreadDrainBarrier → ThreadDrainBarrier → Type 0 where
  done : (b : ThreadDrainBarrier) → b.remaining ≢ 0 → Step b (fetch_sub b)
  tell : (b : ThreadDrainBarrier) → b.notifying ≡ true → Step b (notify_last b)
  wait :
      (n : ℕ) (t : Bool) (v w : Waiting)
      → WaitStep n v w
      → Step
          (record { remaining = n; notifying = t; waiting = v })
          (record { remaining = n; notifying = t; waiting = w })

pub data Reachable (thread_count : ℕ) : ThreadDrainBarrier → Type 0 where
  start : Reachable thread_count (new thread_count)
  after :
      (b c : ThreadDrainBarrier) → Reachable thread_count b → Step b c → Reachable thread_count c

abbrev pub lost : ThreadDrainBarrier
lost = record { remaining = 0; notifying = false; waiting = listening false }

abbrev behind_load : ℕ → Bool → ThreadDrainBarrier
behind_load n t = record { remaining = n; notifying = t; waiting = loaded }

fetch_sub-loaded :
    (n : ℕ) (t : Bool) → fetch_sub (behind_load (suc n) t) ≡ behind_load n (t || suc n == 1)
unfolding fetch_sub
fetch_sub-loaded n t = let less : suc n - 1 ≡ n = omega arith in rw less refl

-- Between a load and a listener, all threads may end, and the last of them notify.
all_done :
    (thread_count n : ℕ) (t : Bool)
    → Reachable thread_count (behind_load n t)
    → Reachable thread_count (behind_load 0 false)
unfolding notify_last
all_done thread_count zero false r = r
all_done thread_count zero true r = after _ _ r (tell (behind_load 0 true) refl)
all_done thread_count (suc n) t r =
    let next = after _ _ r (done (behind_load (suc n) t) (omega arith)) in
    all_done thread_count n (t || suc n == 1)
      (subst (λ b. Reachable thread_count b) (fetch_sub-loaded n t) next)

stuck :
    (b c : ThreadDrainBarrier)
    → b.remaining ≡ 0
    → b.notifying ≡ false
    → b.waiting ≡ listening false
    → Step b c
    → ⊥
stuck b c none_left told deaf (done _ some_left) = some_left none_left
stuck b c none_left told deaf (tell _ telling) = cc
stuck b c none_left told deaf (wait n t v w leave) = cc
stuck b c none_left told deaf (wait n t v w (stay m)) = cc
stuck b c none_left told deaf (wait n t v w (listen m)) = cc
stuck b c none_left told deaf (wait n t v w (wake m)) = cc

-- However many threads there are, but for none at all, a state can be reached in which all of them have
-- ended, while the task that waits for them stays at its listener and no step is left.
pub wait_all_done-lost :
    (n : ℕ) → Reachable (suc n) lost × ((b : ThreadDrainBarrier) → ¬ Step lost b)
wait_all_done-lost n =
    let seen : Reachable (suc n) (behind_load (suc n) false) =
      unfold new in after _ _ start (wait (suc n) false loading loaded (stay n)) in
    (
      after _ _ (all_done (suc n) (suc n) false seen)
          (wait 0 false loaded (listening false) (listen 0)),
      λ b step. stuck lost b refl refl refl step,
    )
