-- ===== src/Thread/Schedule.antt =====
-- The scheduler: the thread that `__kernel_schedule` chooses, and what the state changes of threads
-- do to the two lists of threads.
use ex_os.Base.{
  ℕ, ◌≡◌, ◌≢◌, refl, inl, inr, ap, true, false, some, List, [], ◌∷◌, arith, ◌==◌, if◌then◌else◌,
  Bool-cases,
}
use ex_os.Base.Int.{ℤ, ◌≤ℤ◌}
use ex_os.Base.Words.{schar}
use ex_os.LinkedList.Links.{All}
use ex_os.Thread.{
  thread_detached, thread_ready, thread_wait, is_ready, is_waiting, is_detached, Thread, Kernel,
  placed, without, prio, write_at, to_ready, to_wait, set_thread, schedule, add_thread, added,
  create, detach,
}
use ex_os.Thread.Ready.{
  occurs, occurs-without, occurs-placed, without-IsOrdered, order_of_same, IsOrdered-placed,
  IsScheduled,
}

All-occurs : (P : ℕ → Type 0) (xs : List ℕ) → All P xs → (n : ℕ) → occurs n xs ≢ 0 → P n
unfolding occurs
All-occurs P [] h n m = absurd (m refl)
All-occurs P (x ∷ xs) h n m = elim (Bool-cases (x == n)) [
  | inl e ↦ let same : x ≡ n = ground arith in rw same at h.0
  | inr e ↦ All-occurs P xs h.1 n (ground arith)
]

-- Whenever a thread is ready, `__kernel_schedule` gives a ready thread, and no ready thread has a
-- higher priority than it.
pub schedule_highest :
    (k : Kernel) (u : ℕ)
    → IsScheduled k
    → is_ready (k.threads u).state ≡ true
    → (t : ℕ) × (schedule k ≡ some t)
      × (is_ready (k.threads t).state ≡ true)
      × ((v : ℕ) → is_ready (k.threads v).state ≡ true → prio k v ≤ℤ prio k t)
unfolding schedule occurs
schedule_highest k u s r = go k.ready refl
  where
    go :
        (xs : List ℕ)
        → k.ready ≡ xs
        → (t : ℕ) × (schedule k ≡ some t)
          × (is_ready (k.threads t).state ≡ true)
          × ((v : ℕ) → is_ready (k.threads v).state ≡ true → prio k v ≤ℤ prio k t)
    go [] e = absurd (ground (arith, s.in_ready u))
    go (t ∷ ts) e =
        let o = rw e at s.ordered in
        (
          t,
          rw e refl,
          ground (arith, s.in_ready t),
          λ v h. elim (Bool-cases (t == v)) [
            | inl same ↦ let eq : t ≡ v = ground arith in rw eq (omega arith)
            | inr other ↦ All-occurs _ ts o.0 v (ground (arith, s.in_ready v))
          ],
        )

state_after :
    (k : Kernel) (t n : ℕ) (v : Thread)
    → (write_at k.threads t v n).state ≡ (if n == t then v.state else (k.threads n).state)
state_after k t n v = ground arith

prio_after :
    (k : Kernel) (t n : ℕ) (v : Thread)
    → v.priority ≡ prio k t
    → prio k n ≡ (write_at k.threads t v n).priority
prio_after k t n v e = elim (Bool-cases (n == t)) [
  | inl h ↦ let same : n ≡ t = ground arith in rw h (rw e (ap (prio k) same))
  | inr h ↦ rw h refl
]

-- A thread that waits is moved to the ready list.
pub to_ready-IsScheduled :
    (k : Kernel) (t : ℕ)
    → IsScheduled k
    → is_waiting (k.threads t).state ≡ true
    → IsScheduled (to_ready k t)
unfolding to_ready
to_ready-IsScheduled k t s w =
    let v = record (k.threads t) { state = thread_ready } in
    let placed_there =
      IsOrdered-placed (prio k) t (without t k.ready)
        (without-IsOrdered (prio k) t k.ready s.ordered) in
    record {
      ordered =
          order_of_same (prio k) _ (placed (prio k) t (without t k.ready))
            (λ n m. prio_after k t n v refl) placed_there;
      in_ready = λ n.
          rw (occurs-placed (prio k) n t (without t k.ready))
            (rw (occurs-without n t k.ready) (ground (arith, s.in_ready n)));
      in_wait = λ n. rw (occurs-without n t k.wait) (ground (arith, s.in_wait n));
      waits = λ n h. ground (arith, s.waits n);
    }

-- A ready thread is moved to the wait list, with what it waits for.
pub to_wait-IsScheduled :
    (k : Kernel) (t mask : ℕ)
    → IsScheduled k
    → is_ready (k.threads t).state ≡ true
    → mask ≢ 0
    → IsScheduled (to_wait k t mask)
unfolding to_wait
to_wait-IsScheduled k t mask s r ne =
    let v = record (k.threads t) { state = thread_wait; mask_wait = mask } in
    record {
      ordered =
          order_of_same (prio k) _ (without t k.ready) (λ n m. prio_after k t n v refl)
            (without-IsOrdered (prio k) t k.ready s.ordered);
      in_ready = λ n. rw (occurs-without n t k.ready) (ground (arith, s.in_ready n));
      in_wait = λ n.
          rw (occurs-placed (prio k) n t (without t k.wait))
            (rw (occurs-without n t k.wait) (ground (arith, s.in_wait n)));
      waits = λ n h. ground (arith, s.waits n);
    }

-- `___add_thread` after a write that gives a detached thread its priority.
module _ (k : Kernel) (t : ℕ) (v : Thread) (s : IsScheduled k) where
  priority_elsewhere :
      is_detached (k.threads t).state ≡ true
      → (n : ℕ) → occurs n k.ready ≢ 0
      → prio k n ≡ (write_at k.threads t v n).priority
  priority_elsewhere d n m =
      let other : (n == t) ≡ false = ground (arith, s.in_ready n) in rw other refl

-- `exos_thread_create` of a detached thread makes it ready at the priority given, as a `signed char`
-- holds it, leaves the other threads as they are, and keeps the lists of threads well formed.
pub create-IsScheduled :
    (k : Kernel) (t : ℕ) (priority : ℤ)
    → IsScheduled k
    → is_detached (k.threads t).state ≡ true
    → (k' : Kernel) × (create k t priority ≡ some k')
      × IsScheduled k'
      × ((k'.threads t).state ≡ thread_ready)
      × (prio k' t ≡ schar priority)
      × ((u : ℕ) → u ≢ t → k'.threads u ≡ k.threads u)
unfolding create add_thread added
create-IsScheduled k t p s d =
    let v0 : Thread = record {
      priority = schar p;
      state = thread_detached;
      mask_used = 0;
      mask_wait = 0;
    } in
    let k1 = set_thread k t v0 in
    let v = record v0 { state = thread_ready } in
    let own : (t == t) ≡ true = ground arith in
    let before =
      order_of_same (prio k) (prio k1) k.ready (priority_elsewhere k t v0 s d) s.ordered in
    (
      added k1 t,
      rw own refl,
      record {
        ordered =
            order_of_same (prio k1) _ (placed (prio k1) t k.ready)
              (λ n m. prio_after k1 t n (record (k1.threads t) { state = thread_ready }) refl)
              (IsOrdered-placed (prio k1) t k.ready before);
        in_ready = λ n. rw (occurs-placed (prio k1) n t k.ready) (ground (arith, s.in_ready n));
        in_wait = λ n. ground (arith, s.in_wait n);
        waits = λ n h. ground (arith, s.waits n);
      },
      rw own refl,
      ground arith,
      λ u ne. ground arith,
    )

pub detach-IsScheduled : (k : Kernel) (t : ℕ) → IsScheduled k → IsScheduled (detach k t)
unfolding detach
detach-IsScheduled k t s =
    let v = record (k.threads t) { state = thread_detached } in
    record {
      ordered =
          order_of_same (prio k) _ (without t k.ready) (λ n m. prio_after k t n v refl)
            (without-IsOrdered (prio k) t k.ready s.ordered);
      in_ready = λ n. rw (occurs-without n t k.ready) (ground (arith, s.in_ready n));
      in_wait = λ n. rw (occurs-without n t k.wait) (ground (arith, s.in_wait n));
      waits = λ n h. ground (arith, s.waits n);
    }
