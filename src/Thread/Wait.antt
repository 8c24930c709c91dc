-- ===== src/Thread/Wait.antt =====
-- Waiting: `___wait`, and its race with `_resume`.
use ex_os.Base.{
  ℕ, ◌≡◌, ◌≢◌, ◌∙◌, refl, inl, inr, ap, true, false, not, some, List, [], ◌∷◌, arith, ◌==◌,
  Bool-cases,
}
use ex_os.Thread.{
  is_ready, is_waiting, Kernel, to_wait, to_pending, rem_handle, find_pending, wait_mask, resume,
  pending,
}
use ex_os.Thread.Ready.{occurs, occurs-placed, IsScheduled}
use ex_os.Thread.Schedule.{to_wait-IsScheduled}
use ex_os.Thread.Resume.{
  IsWaiting, resumed, resume-resumed, resumed-IsScheduled, ready_stays, awoken, to_pending-threads,
}
use ex_os.Base.Bits.{bit_and_comm, zero-bit_and}
use Prim.Native.Nat.{bit_and}

-- A handle of the list that is done and has a bit of the mask is found.
find_pending-occurs :
    (k : Kernel) (mask h : ℕ) (xs : List ℕ)
    → occurs h xs ≢ 0
    → bit_and (k.handles h).mask mask ≢ 0
    → find_pending k mask xs ≡ true
unfolding find_pending occurs
find_pending-occurs k mask h [] o m = ground arith
find_pending-occurs k mask h (x ∷ xs) o m = elim (Bool-cases (x == h)) [
  | inl e ↦ let same : x ≡ h = ground arith in rw same (ground (arith, m))
  | inr e ↦ ground (arith, find_pending-occurs k mask h xs (ground arith) m)
]

-- A ready thread that waits for some mask stays as it is if a handle is pending that has a bit of
-- the mask, and else is waiting for that mask; the lists of threads stay well formed.
pub wait_mask_lem :
    (k : Kernel) (t mask : ℕ)
    → k.running ≡ t
    → IsScheduled k
    → is_ready (k.threads t).state ≡ true
    → mask ≢ 0
    → let found = find_pending k mask (k.queues (pending t)) in
      (k' : Kernel) × (wait_mask k mask ≡ some k')
      × IsScheduled k'
      × (is_waiting (k'.threads t).state ≡ not found)
      × (is_ready (k'.threads t).state ≡ found)
      × (found ≡ false → (k'.threads t).mask_wait ≡ mask)
      × (k'.handles ≡ k.handles)
unfolding wait_mask to_wait find_pending
wait_mask_lem k t mask self s r ne =
    let found = find_pending k mask (k.queues (pending t)) in
    elim (Bool-cases found) [
      | inl e ↦ (
        k,
        rw self (rw e (ground arith)),
        s,
        rw e (ground arith),
        rw e r,
        λ f. ground arith,
        refl,
      )
      | inr e ↦ (
        to_wait k t mask,
        rw self (rw e (ground arith)),
        to_wait-IsScheduled k t mask s r ne,
        rw e (ground arith),
        rw e (ground arith),
        λ f. ground arith,
        refl,
      )
    ]

to_pending_has : (k : Kernel) (h t : ℕ) → occurs h ((to_pending k h t).queues (pending t)) ≢ 0
unfolding to_pending
to_pending_has k h t = λ e.
    let k1 = rem_handle k h in
    let there = occurs-placed (λ i. (k1.handles i).priority) h h (k1.queues (pending t)) in
    ground (arith, there)

to_pending-mask : (k : Kernel) (h t : ℕ) → ((to_pending k h t).handles h).mask ≡ (k.handles h).mask
unfolding to_pending rem_handle
to_pending-mask k h t = ground arith

to_pending-running : (k : Kernel) (h t : ℕ) → (to_pending k h t).running ≡ k.running
unfolding to_pending rem_handle
to_pending-running k h t = ground arith

module _ (k : Kernel) (h mask : ℕ) (s : IsScheduled k)
    (r : is_ready (k.threads k.running).state ≡ true) (w : IsWaiting k h k.running)
    (m : bit_and mask (k.handles h).mask ≢ 0) where
  mask_not_zero : mask ≢ 0
  mask_not_zero z = m (ap (λ n. bit_and n (k.handles h).mask) z ∙ zero-bit_and (k.handles h).mask)

  resume_after :
      (k1 : Kernel) × (k2 : Kernel) × (wait_mask k mask ≡ some k1)
      × (resume k1 h ≡ some k2)
      × (is_ready (k2.threads k.running).state ≡ true)
  resume_after =
      let t = k.running in
      let (k1, e, s1, waiting, ready, for_mask, same) =
        wait_mask_lem k t mask refl s r mask_not_zero in
      let w1 : IsWaiting k1 h t = record {
        owned = rw same w.owned;
        alive = ground arith;
        queued = rw same w.queued;
      } in
      (
        k1,
        resumed k1 h t,
        e,
        resume-resumed k1 h t s1 w1,
        elim (Bool-cases (find_pending k mask (k.queues (pending t)))) [
          | inl f ↦ ready_stays k1 h t t (ready ∙ f)
          | inr f ↦ awoken k1 h t (rw (waiting, f, for_mask f, same) (ground (arith, m)))
        ],
      )

  resume_before :
      (k1 : Kernel) × (k2 : Kernel) × (resume k h ≡ some k1)
      × (wait_mask k1 mask ≡ some k2)
      × (is_ready (k2.threads k.running).state ≡ true)
  resume_before =
      let t = k.running in
      let k1 = to_pending k h t in
      let quiet : resumed k h t ≡ k1 = ground arith in
      let self = to_pending-running k h t in
      let found : find_pending k1 mask (k1.queues (pending t)) ≡ true =
        find_pending-occurs k1 mask h (k1.queues (pending t)) (to_pending_has k h t)
          (rw (to_pending-mask k h t, bit_and_comm (k.handles h).mask mask) m) in
      let s1 : IsScheduled k1 = rw quiet at (resumed-IsScheduled k h t s w) in
      let r1 : is_ready (k1.threads t).state ≡ true = rw (to_pending-threads k h t) r in
      let (k2, e, s2, waiting, ready, for_mask, same) =
        wait_mask_lem k1 t mask self s1 r1 mask_not_zero in
      (k1, k2, resume-resumed k h t s w ∙ ap some quiet, e, ready ∙ found)

-- No wakeup is lost: the running thread is ready, a handle of its own is in a list and has a bit of
-- the mask. Whether `_resume` of the handle comes after `___wait` for the mask or before it, both pass
-- their ASSERTs, and the thread is ready in the end.
pub no_lost_wakeup :
    (k : Kernel) (h mask : ℕ)
    → IsScheduled k
    → is_ready (k.threads k.running).state ≡ true
    → IsWaiting k h k.running
    → bit_and mask (k.handles h).mask ≢ 0
    → ((k1 : Kernel) × (k2 : Kernel) × (wait_mask k mask ≡ some k1)
        × (resume k1 h ≡ some k2)
        × (is_ready (k2.threads k.running).state ≡ true))
      × ((k1 : Kernel) × (k2 : Kernel) × (resume k h ≡ some k1)
          × (wait_mask k1 mask ≡ some k2)
          × (is_ready (k2.threads k.running).state ≡ true))
no_lost_wakeup k h mask s r w m = (resume_after k h mask s r w m, resume_before k h mask s r w m)
