-- ===== src/Thread/Tests.antt =====
-- Runs of the scheduler with two threads, and its theorems there.
use ex_os.Base.{ℕ, ◌≡◌, ◌≢◌, refl, true, false, none, some, [], ◌∷◌, arith, ◌==◌, if◌then◌else◌}
use ex_os.Base.Int.{pos, negsuc, ◌≤ℤ◌}
use ex_os.Base.Words.{wrap}
use ex_os.Thread.{
  thread_detached, thread_ready, handle_detached, handle_waiting, Kernel, prio, is_ready, schedule,
  create, find_mask, resume_all, wait_mask, resume,
}
use ex_os.Thread.Ready.{occurs, IsScheduled}
use ex_os.Thread.Schedule.{schedule_highest, create-IsScheduled}
use ex_os.Thread.Resume.{IsWaiting, Distinct, AllWaiting, Woken, resume_all-Woken}
use ex_os.Thread.Wait.{no_lost_wakeup}
use ex_os.Thread.{detach, rem_thread, is_detached}
use ex_os.Thread.Exit.{rem_thread-Woken}

-- No thread, no handle; thread 1 is to run.
abbrev nothing : Kernel
nothing = record {
  running = 1;
  threads = λ t. record { priority = pos 0; state = thread_detached; mask_used = 0; mask_wait = 0 };
  handles = λ h. record { priority = pos 0; state = handle_detached; owner = none; mask = 0 };
  ready = [];
  wait = [];
  queues = λ q. [];
  switch = false;
}

nothing-IsScheduled : IsScheduled nothing
unfolding occurs
nothing-IsScheduled = record {
  ordered = tt;
  in_ready = λ t. refl;
  in_wait = λ t. refl;
  waits = λ t e. ground arith;
}

create-IsScheduled_example :
    (k : Kernel) × (create nothing 0 (pos 200) ≡ some k)
    × IsScheduled k
    × ((k.threads 0).state ≡ thread_ready)
    × (prio k 0 ≡ negsuc 55)
    × ((u : ℕ) → u ≢ 0 → k.threads u ≡ nothing.threads u)
unfolding wrap
create-IsScheduled_example = create-IsScheduled nothing 0 (pos 200) nothing-IsScheduled refl

-- The idle thread 0 and the running thread 1 are ready; the handles 0 and 1 of thread 1 stand in list 6.
abbrev pub two : Kernel
two = record {
  running = 1;
  threads = λ t.
      if t == 0
      then record { priority = negsuc 127; state = thread_ready; mask_used = 0; mask_wait = 0 }
      else if t == 1
      then record { priority = pos 0; state = thread_ready; mask_used = 3; mask_wait = 0 }
      else record { priority = pos 0; state = thread_detached; mask_used = 0; mask_wait = 0 };
  handles = λ h. record {
    priority = pos 0;
    state = handle_waiting;
    owner = some 1;
    mask = if h == 0 then 1 else 2;
  };
  ready = 1 ∷ 0 ∷ [];
  wait = [];
  queues = λ q. if q == 6 then 0 ∷ 1 ∷ [] else [];
  switch = false;
}

pub two-IsScheduled : IsScheduled two
unfolding occurs
two-IsScheduled = record {
  ordered = ((omega arith, tt), (tt, tt));
  in_ready = λ t. ground arith;
  in_wait = λ t. ground arith;
  waits = λ t e. ground arith;
}

one_waits : (h : ℕ) → IsWaiting two h 1
one_waits h = record { owned = refl; alive = refl; queued = refl }

pub two-Distinct : Distinct (0 ∷ 1 ∷ [])
unfolding Distinct occurs
two-Distinct = (refl, (refl, tt))

pub two-AllWaiting : AllWaiting (λ h. 1) 6 two (0 ∷ 1 ∷ [])
two-AllWaiting = ((one_waits 0, omega arith), ((one_waits 1, omega arith), tt))

-- The first free bit of 0b1011 is the third.
find_mask_third : find_mask 11 0 32 ≡ some 4
unfolding find_mask
find_mask_third = refl

schedule_highest_example :
    (t : ℕ) × (schedule two ≡ some t)
    × (is_ready (two.threads t).state ≡ true)
    × ((v : ℕ) → is_ready (two.threads v).state ≡ true → prio two v ≤ℤ prio two t)
schedule_highest_example = schedule_highest two 0 two-IsScheduled refl

resume_all-Woken_example :
    (k' : Kernel) × (resume_all two 6 ≡ some (2, k')) × Woken (λ h. 1) 6 two k' (0 ∷ 1 ∷ [])
resume_all-Woken_example =
    resume_all-Woken (λ h. 1) 6 two (0 ∷ 1 ∷ []) refl two-IsScheduled two-Distinct two-AllWaiting

no_lost_wakeup_example :
    ((k1 : Kernel) × (k2 : Kernel) × (wait_mask two 3 ≡ some k1)
      × (resume k1 1 ≡ some k2)
      × (is_ready (k2.threads 1).state ≡ true))
    × ((k1 : Kernel) × (k2 : Kernel) × (resume two 1 ≡ some k1)
        × (wait_mask k1 3 ≡ some k2)
        × (is_ready (k2.threads 1).state ≡ true))
no_lost_wakeup_example = no_lost_wakeup two 1 3 two-IsScheduled refl (one_waits 1) (omega arith)

-- Both handles wait for the end of thread 0.
abbrev joined : Kernel
joined = record two { queues = λ q. if q == 1 then 0 ∷ 1 ∷ [] else [] }

joined-IsScheduled : IsScheduled joined
joined-IsScheduled = record {
  ordered = two-IsScheduled.ordered;
  in_ready = two-IsScheduled.in_ready;
  in_wait = two-IsScheduled.in_wait;
  waits = two-IsScheduled.waits;
}

one_joins : (h : ℕ) → IsWaiting (detach joined 0) h 1
unfolding detach
one_joins h = record { owned = refl; alive = refl; queued = refl }

rem_thread-Woken_example :
    (k' : Kernel) × (rem_thread joined 0 ≡ some k')
    × (is_detached (k'.threads 0).state ≡ true)
    × Woken (λ h. 1) 1 (detach joined 0) k' (0 ∷ 1 ∷ [])
rem_thread-Woken_example =
    rem_thread-Woken (λ h. 1) joined 0 (0 ∷ 1 ∷ []) joined-IsScheduled refl refl two-Distinct
      ((one_joins 0, omega arith), ((one_joins 1, omega arith), tt))
