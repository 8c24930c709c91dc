-- ===== src/Thread/Exit.antt =====
-- The end of a thread.
use ex_os.Base.{ℕ, ◌≡◌, refl, true, some, List, arith}
use ex_os.Thread.{Kernel, is_ready, is_detached, joining, detach, rem_thread}
use ex_os.LinkedList.Loops.{has}
use ex_os.Thread.Ready.{has-occurs, IsScheduled}
use ex_os.Thread.Schedule.{detach-IsScheduled}
use ex_os.Thread.Resume.{Distinct, AllWaiting, Woken, resume_all-Woken}

-- `___rem_thread` of a ready thread, with different handles of threads that have not ended in its
-- `Joining`, passes its ASSERTs: the thread has ended then, and from the state where it is just taken
-- out, all of these handles have been resumed.
pub rem_thread-Woken :
    (own : ℕ → ℕ) (k : Kernel) (t : ℕ) (xs : List ℕ)
    → IsScheduled k
    → is_ready (k.threads t).state ≡ true
    → k.queues (joining t) ≡ xs
    → Distinct xs
    → AllWaiting own (joining t) (detach k t) xs
    → (k' : Kernel) × (rem_thread k t ≡ some k')
      × (is_detached (k'.threads t).state ≡ true)
      × Woken own (joining t) (detach k t) k' xs
unfolding rem_thread detach
rem_thread-Woken own k t xs s r e d a =
    let (k1, run, w) =
      resume_all-Woken own (joining t) (detach k t) xs e (detach-IsScheduled k t s) d a in
    let there : has t k.ready ≡ true = has-occurs t k.ready (ground (arith, s.in_ready t)) in
    let gone : is_detached ((detach k t).threads t).state ≡ true = ground arith in
    (
      record k1 { switch = true },
      rw r (rw there (rw run refl)),
      w.ended t gone,
      record {
        scheduled = record {
          ordered = w.scheduled.ordered;
          in_ready = w.scheduled.in_ready;
          in_wait = w.scheduled.in_wait;
          waits = w.scheduled.waits;
        };
        emptied = w.emptied;
        all_done = w.all_done;
        elsewhere = w.elsewhere;
        still_ready = w.still_ready;
        ended = w.ended;
        all_awake = w.all_awake;
      },
    )
