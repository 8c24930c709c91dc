-- ===== src/Thread/Resume.antt =====
-- Waking: `_resume` of one handle, and `___resume_all` of a list of them.
use ex_os.Base.{
  ℕ, zero, suc, ◌+◌, ◌<◌, ◌≡◌, ◌≢◌, ◌∙◌, refl, inl, inr, ap, Bool, true, false, not, some, List, [],
  ◌∷◌, arith, ◌==◌, if◌then◌else◌, Bool-cases, length, ◌&&◌,
}
use ex_os.LinkedList.Links.{All}
use ex_os.Thread.{
  thread_ready, handle_done, is_handle_detached, is_ready, is_waiting, is_detached, Kernel, without,
  to_ready, to_pending, rem_handle, resume, resume_loop, resume_all, pending,
}
use ex_os.Thread.Ready.{occurs, IsScheduled}
use ex_os.Thread.Schedule.{to_ready-IsScheduled}
use Prim.Native.Nat.{bit_and}

-- The handle is in a list, and its owner is a thread that has not ended.
pub record IsWaiting (k : Kernel) (h : ℕ) (t : ℕ) : Type 0 where
  pub owned : (k.handles h).owner ≡ some t
  pub alive : is_detached (k.threads t).state ≡ false
  pub queued : is_handle_detached (k.handles h).state ≡ false

-- Whether `_resume` of the handle wakes its owner.
abbrev pub wakes : Kernel → ℕ → ℕ → Bool
wakes k h t =
    is_waiting (k.threads t).state && not (bit_and (k.threads t).mask_wait (k.handles h).mask == 0)

abbrev pub resumed : Kernel → ℕ → ℕ → Kernel
resumed k h t = if wakes k h t then to_ready (to_pending k h t) t else to_pending k h t

pub resume-resumed :
    (k : Kernel) (h t : ℕ) → IsScheduled k → IsWaiting k h t → resume k h ≡ some (resumed k h t)
unfolding resume
resume-resumed k h t s w = rw (w.owned, resume) (ground (arith, w.alive, s.waits t))

to_pending-IsScheduled :
    (k : Kernel) (h t : ℕ)
    → IsScheduled k
    → is_handle_detached (k.handles h).state ≡ false
    → IsScheduled (to_pending k h t)
unfolding to_pending rem_handle
to_pending-IsScheduled k h t s q =
    rw q
      (record { ordered = s.ordered; in_ready = s.in_ready; in_wait = s.in_wait; waits = s.waits })

pub to_pending-threads : (k : Kernel) (h t : ℕ) → (to_pending k h t).threads ≡ k.threads
unfolding to_pending rem_handle
to_pending-threads k h t = ground arith

pub resumed-IsScheduled :
    (k : Kernel) (h t : ℕ) → IsScheduled k → IsWaiting k h t → IsScheduled (resumed k h t)
resumed-IsScheduled k h t s w = elim (Bool-cases (wakes k h t)) [
  | inl e ↦ rw e (
      to_ready-IsScheduled (to_pending k h t) t (to_pending-IsScheduled k h t s w.queued)
        (rw (to_pending-threads k h t) (ground arith)))
  | inr e ↦ rw e (to_pending-IsScheduled k h t s w.queued)
]

resumed-queues :
    (k : Kernel) (h t q : ℕ)
    → is_handle_detached (k.handles h).state ≡ false
    → pending t ≢ q
    → (resumed k h t).queues q ≡ without h (k.queues q)
unfolding to_pending to_ready rem_handle
resumed-queues k h t q w ne = ground (arith, w)

pub resumed-handles :
    (k : Kernel) (h t j : ℕ) → (j == h) ≡ false → (resumed k h t).handles j ≡ k.handles j
unfolding to_pending to_ready rem_handle
resumed-handles k h t j ne = ground arith

pub resumed_done : (k : Kernel) (h t : ℕ) → ((resumed k h t).handles h).state ≡ handle_done
unfolding to_pending to_ready rem_handle
resumed_done k h t = ground arith

pub resumed-threads :
    (k : Kernel) (h t u : ℕ)
    → (resumed k h t).threads u ≡ (
        if wakes k h t && (u == t)
        then record (k.threads u) { state = thread_ready }
        else k.threads u)
unfolding to_pending to_ready rem_handle
resumed-threads k h t u = ground arith

unfoldable pub Distinct : List ℕ → Type 0
Distinct [] = Unit
Distinct (x ∷ xs) = (occurs x xs ≡ 0) × Distinct xs

without_fresh : (x : ℕ) (xs : List ℕ) → occurs x xs ≡ 0 → without x xs ≡ xs
unfolding occurs
without_fresh x [] e = refl
without_fresh x (y ∷ ys) e = let rest = without_fresh x ys (omega arith) in ground (arith, rest)

other_than_head : (x j : ℕ) (xs : List ℕ) → occurs j (x ∷ xs) ≡ 0 → (j == x) ≡ false
unfolding occurs
other_than_head x j xs z = ground arith

without_head : (x : ℕ) (xs : List ℕ) → occurs x xs ≡ 0 → without x (x ∷ xs) ≡ xs
without_head x xs e = let rest = without_fresh x xs e in ground (arith, rest)

pub ready_stays :
    (k : Kernel) (h t u : ℕ)
    → is_ready (k.threads u).state ≡ true
    → is_ready ((resumed k h t).threads u).state ≡ true
ready_stays k h t u r = rw (resumed-threads k h t u) (ground (arith, r))

stays_ended :
    (k : Kernel) (h t u : ℕ)
    → is_detached (k.threads u).state ≡ true
    → is_detached ((resumed k h t).threads u).state ≡ true
stays_ended k h t u r = elim (Bool-cases (u == t)) [
  | inl e ↦
      let same : u ≡ t = ground arith in rw (resumed-threads k h t u) (ground (arith, same, r))
  | inr e ↦ rw (resumed-threads k h t u) (ground (arith, r))
]

pub awoken :
    (k : Kernel) (h t : ℕ) → wakes k h t ≡ true → is_ready ((resumed k h t).threads t).state ≡ true
awoken k h t w = rw (resumed-threads k h t t) (rw w (ground arith))

module _ (own : ℕ → ℕ) (q : ℕ) where
  -- Each handle of the list waits for a thread whose `Pending` is another list.
  abbrev pub AllWaiting : Kernel → List ℕ → Type 0
  AllWaiting k = All (λ h. IsWaiting k h (own h) × (pending (own h) ≢ q))

  -- From `k` to `k'` all of `xs` have been resumed.
  pub record Woken (k k' : Kernel) (xs : List ℕ) : Type 0 where
    pub scheduled : IsScheduled k'
    pub emptied : k'.queues q ≡ []
    pub all_done : All (λ h. (k'.handles h).state ≡ handle_done) xs
    pub elsewhere : (j : ℕ) → occurs j xs ≡ 0 → k'.handles j ≡ k.handles j
    pub still_ready :
        (u : ℕ) → is_ready (k.threads u).state ≡ true → is_ready (k'.threads u).state ≡ true
    pub ended :
        (u : ℕ) → is_detached (k.threads u).state ≡ true → is_detached (k'.threads u).state ≡ true
    pub all_awake :
        All (λ h. wakes k h (own h) ≡ true → is_ready (k'.threads (own h)).state ≡ true) xs

  IsWaiting-resumed :
      (k : Kernel) (h t j u : ℕ)
      → (j == h) ≡ false
      → IsWaiting k j u
      → IsWaiting (resumed k h t) j u
  IsWaiting-resumed k h t j u ne w =
      let same = resumed-handles k h t j ne in
      record {
        owned = rw same w.owned;
        alive = rw (resumed-threads k h t u) (ground (arith, w.alive));
        queued = rw same w.queued;
      }

  AllWaiting-resumed :
      (k : Kernel) (h t : ℕ) (xs : List ℕ)
      → occurs h xs ≡ 0
      → AllWaiting k xs
      → AllWaiting (resumed k h t) xs
  unfolding occurs
  AllWaiting-resumed k h t [] e a = tt
  AllWaiting-resumed k h t (x ∷ xs) e a = (
    (IsWaiting-resumed k h t x (own x) (ground arith) a.0.0, a.0.1),
    AllWaiting-resumed k h t xs (omega arith) a.1,
  )

  awake_later :
      (k k' : Kernel) (h t : ℕ) (xs : List ℕ)
      → occurs h xs ≡ 0
      → ((u : ℕ)
          → is_ready ((resumed k h t).threads u).state ≡ true
          → is_ready (k'.threads u).state ≡ true)
      → All
          (λ j. wakes (resumed k h t) j (own j) ≡ true → is_ready (k'.threads (own j)).state ≡ true)
          xs
      → All (λ j. wakes k j (own j) ≡ true → is_ready (k'.threads (own j)).state ≡ true) xs
  unfolding occurs
  awake_later k k' h t [] e r a = tt
  awake_later k k' h t (x ∷ xs) e r a = (
    λ w. elim (Bool-cases (wakes k h t && (own x == t))) [
      | inl b ↦ r (own x) (rw (resumed-threads k h t (own x)) (rw b refl))
      | inr b ↦ a.0 (
          rw (resumed-threads k h t (own x)) (rw (resumed-handles k h t x (ground arith)) (rw b w)))
    ],
    awake_later k k' h t xs (omega arith) r a.1,
  )

  resume_loop-Woken :
      (xs : List ℕ) (fuel : ℕ) (k : Kernel) (count : ℕ)
      → k.queues q ≡ xs
      → length xs < fuel
      → IsScheduled k
      → Distinct xs
      → AllWaiting k xs
      → (k' : Kernel) × (resume_loop fuel q k count ≡ some (count + length xs, k')) × Woken k k' xs
  unfolding resume_loop occurs Distinct
  resume_loop-Woken xs zero k count e lt s d a = absurd (omega arith)
  resume_loop-Woken [] (suc fuel) k count e lt s d a = (
    k,
    rw (e, resume_loop) (ap (λ n. some (n, k)) (omega arith)),
    record {
      scheduled = s;
      emptied = e;
      all_done = tt;
      elsewhere = λ j z. refl;
      still_ready = λ u r. r;
      ended = λ u r. r;
      all_awake = tt;
    },
  )
  resume_loop-Woken (x ∷ xs) (suc fuel) k count e lt s d a =
      let k1 = resumed k x (own x) in
      let gone = resumed-queues k x (own x) q a.0.0.queued a.0.1 in
      let left : k1.queues q ≡ xs = gone ∙ ap (without x) e ∙ without_head x xs d.0 in
      let (k', r, w) =
        resume_loop-Woken xs fuel k1 (count + 1) left (omega arith)
          (resumed-IsScheduled k x (own x) s a.0.0) d.1
          (AllWaiting-resumed k x (own x) xs d.0 a.1) in
      (
        k',
        rw (e, resume_loop)
            (rw (resume-resumed k x (own x) s a.0.0) (r ∙ ap (λ n. some (n, k')) (omega arith))),
        record {
          scheduled = w.scheduled;
          emptied = w.emptied;
          all_done = (rw (w.elsewhere x d.0) (resumed_done k x (own x)), w.all_done);
          elsewhere = λ j z.
              w.elsewhere j (omega arith)
              ∙ resumed-handles k x (own x) j (other_than_head x j xs z);
          ended = λ u h. w.ended u (stays_ended k x (own x) u h);
          still_ready = λ u h. w.still_ready u (ready_stays k x (own x) u h);
          all_awake = (
            λ h. w.still_ready (own x) (awoken k x (own x) h),
            awake_later k k' x (own x) xs d.0 w.still_ready w.all_awake,
          );
        },
      )

  -- `exos_thread_resume_all` of a list of different handles, each waiting for a thread that has not
  -- ended and whose `Pending` is another list, passes its ASSERTs and returns their number: the
  -- list is empty then and the handles are done, every thread that waited for one is ready, ready
  -- threads stay so, other handles are as before, and the lists of threads are well formed.
  pub resume_all-Woken :
      (k : Kernel) (xs : List ℕ)
      → k.queues q ≡ xs
      → IsScheduled k
      → Distinct xs
      → AllWaiting k xs
      → (k' : Kernel) × (resume_all k q ≡ some (length xs, k')) × Woken k k' xs
  unfolding resume_all
  resume_all-Woken k xs e s d a =
      let full : length xs < length (k.queues q) + 1 = rw e (omega arith) in
      let (k', r, w) = resume_loop-Woken xs (length (k.queues q) + 1) k 0 e full s d a in
      (k', r ∙ ap (λ n. some (n, k')) (omega arith), w)
