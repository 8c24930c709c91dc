-- ===== src/Thread.antt =====
-- exos/kernel/thread.c: threads, the ready list, and the handles that threads wait by.
-- A thread or a handle is a number. `_ready` and `_wait` are lists of threads; `queues` has the
-- lists of handles by the number of the list. A node is in one list at most, so `list_remove` takes
-- it out of whichever list it is in; `list_enqueue` is `placed`, which LinkedList.Enqueue shows it
-- to be on the linked list. A failed ASSERT, as in a DEBUG build, and a panic are `none`.
-- `__machine_req_switch`, which is assembly, sets `switch`; stacks and node types are left out.

pub mod Ready
pub mod Schedule
pub mod Resume
pub mod Wait
pub mod Exit
pub mod Tests
use ex_os.Base.{
  ℕ, zero, suc, ◌+◌, ◌*◌, ◌^◌, ◌-◌, Bool, true, false, not, ◌||◌, ◌&&◌, Option, none, some, List,
  [], ◌∷◌, ◌++◌, ◌==◌, if◌then◌else◌, length,
}
use ex_os.Base.Int.{ℤ, pos, negsuc}
use ex_os.Base.Words.{schar}
use ex_os.LinkedList.Enqueue.{front, back}
use ex_os.LinkedList.Loops.{has}
use Prim.Native.Nat.{bit_and, bit_or, bit_xor}

pub data ThreadState : Type 0 where
  thread_detached : ThreadState
  thread_ready : ThreadState
  thread_wait : ThreadState

pub data HandleState : Type 0 where
  handle_detached : HandleState
  handle_waiting : HandleState
  handle_done : HandleState

abbrev pub is_ready : ThreadState → Bool
is_ready thread_detached = false
is_ready thread_ready = true
is_ready thread_wait = false

abbrev pub is_waiting : ThreadState → Bool
is_waiting thread_detached = false
is_waiting thread_ready = false
is_waiting thread_wait = true

abbrev pub is_detached : ThreadState → Bool
is_detached thread_detached = true
is_detached thread_ready = false
is_detached thread_wait = false

abbrev pub is_handle_detached : HandleState → Bool
is_handle_detached handle_detached = true
is_handle_detached handle_waiting = false
is_handle_detached handle_done = false

-- `exos_thread_t`: its lists are in `queues`.
pub record Thread : Type 0 where
  pub priority : ℤ
  pub state : ThreadState
  pub mask_used : ℕ
  pub mask_wait : ℕ

-- `exos_wait_handle_t`
pub record Handle : Type 0 where
  pub priority : ℤ
  pub state : HandleState
  pub owner : Option ℕ
  pub mask : ℕ

-- `Pending` and `Joining` of a thread; the numbers 4 * n + 2 and 4 * n + 3 are for others.
abbrev pub pending : ℕ → ℕ
pending t = 4 * t

abbrev pub joining : ℕ → ℕ
joining t = 4 * t + 1

pub record Kernel : Type 0 where
  pub running : ℕ
  pub threads : ℕ → Thread
  pub handles : ℕ → Handle
  pub ready : List ℕ
  pub wait : List ℕ
  pub queues : ℕ → List ℕ
  pub switch : Bool

-- A write to one entry of a table.
abbrev pub write_at : {A : Type 0} → (ℕ → A) → ℕ → A → ℕ → A
write_at f i v j = if j == i then v else f j

abbrev pub without : ℕ → List ℕ → List ℕ
without n [] = []
without n (x ∷ xs) = if x == n then without n xs else x ∷ without n xs

-- What `list_enqueue` does to the list of nodes.
unfoldable pub placed : (ℕ → ℤ) → ℕ → List ℕ → List ℕ
placed prio n xs = front prio n xs ++ n ∷ back prio n xs

abbrev pub prio : Kernel → ℕ → ℤ
prio k t = (k.threads t).priority

abbrev pub set_thread : Kernel → ℕ → Thread → Kernel
set_thread k t v = record k { threads = write_at k.threads t v }

abbrev pub set_handle : Kernel → ℕ → Handle → Kernel
set_handle k h v = record k { handles = write_at k.handles h v }

-- `list_remove` and then `list_enqueue` of a thread, and its new state.
unfoldable pub to_ready : Kernel → ℕ → Kernel
to_ready k t = record k {
  ready = placed (prio k) t (without t k.ready);
  wait = without t k.wait;
  threads = write_at k.threads t (record (k.threads t) { state = thread_ready });
  switch = true;
}

unfoldable pub to_wait : Kernel → ℕ → ℕ → Kernel
to_wait k t mask = record k {
  ready = without t k.ready;
  wait = placed (prio k) t (without t k.wait);
  threads = write_at k.threads t (record (k.threads t) { state = thread_wait; mask_wait = mask });
  switch = true;
}

-- `__kernel_schedule`
pub schedule : Kernel → Option ℕ
schedule k = elim k.ready [ [] ↦ none | t ∷ _ ↦ some t ]

-- What `___add_thread` does behind its ASSERT.
unfoldable pub added : Kernel → ℕ → Kernel
added k t = record k {
  ready = placed (prio k) t k.ready;
  threads = write_at k.threads t (record (k.threads t) { state = thread_ready });
  queues = write_at (write_at k.queues (pending t) []) (joining t) [];
  switch = true;
}

-- `___add_thread`
pub add_thread : Kernel → ℕ → Option Kernel
add_thread k t = if is_detached (k.threads t).state then some (added k t) else none

-- `exos_thread_create`, but for the stack: the fields that the scheduler reads, and ___add_thread.
pub create : Kernel → ℕ → ℤ → Option Kernel
create k t priority =
    add_thread
      (set_thread k t (record {
        priority = schar priority;
        state = thread_detached;
        mask_used = 0;
        mask_wait = 0;
      }))
      t

-- `exos_thread_create_wait_handle`
pub create_wait_handle : Kernel → ℕ → Kernel
create_wait_handle k h =
    set_handle k h (record { priority = pos 0; state = handle_detached; owner = none; mask = 0 })

-- The loop of `_alloc_mask`, for the bits from 2 ^ i on; `n` is how many there are.
unfoldable pub find_mask : ℕ → ℕ → ℕ → Option ℕ
find_mask used i zero = none
find_mask used i (suc n) =
    let rest = find_mask used (i + 1) n in
    if bit_and (2 ^ i) (bit_xor used (2 ^ 32 - 1)) == 0 then rest else some (2 ^ i)

-- `_alloc_mask`
pub alloc_mask : Kernel → Option (ℕ × Kernel)
alloc_mask k =
    let self = k.threads k.running in
    elim (find_mask self.mask_used 0 32) [
      | none ↦ none
      | some mask ↦
          some
            (mask, set_thread k k.running (record self { mask_used = bit_or self.mask_used mask }))
    ]

-- `___add_handle`, after the condition has given a list
pub add_to_list : Kernel → ℕ → ℕ → Option Kernel
add_to_list k h q = if has h (k.queues q) then none else elim (alloc_mask k) [
  | none ↦ none
  | some (mask, k') ↦
      some
        (record (set_handle k' h (record (k'.handles h) {
          mask = mask;
          state = handle_waiting;
          owner = some k'.running;
        })) { queues = write_at k'.queues q (k'.queues q ++ h ∷ []) })
]

-- `exos_thread_add_wait_handle`, with `___add_handle`: the condition `cond` on the object `s` gives
-- a list to wait in or, for no wait, none. The mask is returned.
pub add_wait_handle :
    {S : Type 0}
    → (Kernel → S → Option (Option ℕ × S × Kernel))
    → Kernel
    → ℕ
    → S
    → Option (ℕ × S × Kernel)
unfolding add_to_list
add_wait_handle cond k h s =
    if is_handle_detached (k.handles h).state
    then elim (cond k s) [
      | none ↦ none
      | some (none, s', k') ↦ some ((k'.handles h).mask, s', k')
      | some (some q, s', k') ↦ elim (add_to_list k' h q) [
        | none ↦ none
        | some k'' ↦
            if (k''.handles h).mask == 0 then none else some ((k''.handles h).mask, s', k'')
      ]
    ]
    else some ((k.handles h).mask, s, k)

-- `_rem_handle`
unfoldable pub rem_handle : Kernel → ℕ → Kernel
rem_handle k h =
    if is_handle_detached (k.handles h).state
    then k
    else record (set_handle k h (record (k.handles h) { state = handle_detached })) {
      queues = λ q. without h (k.queues q);
    }

-- `___dispose_handle`, and the test of `exos_thread_dispose_wait_handle` before it
pub dispose_wait_handle : Kernel → ℕ → Option Kernel
dispose_wait_handle k h =
    let k1 = rem_handle k h in
    let handle = k1.handles h in
    let cleared = record handle { owner = none; mask = 0 } in
    if is_handle_detached (k.handles h).state then some k else elim handle.owner [
      | none ↦ some (set_handle k1 h cleared)
      | some t ↦
          let thread = k1.threads t in
          if bit_and thread.mask_used handle.mask == 0
          then none
          else some (
              set_handle
                (set_thread k1 t
                  (record thread { mask_used = bit_xor thread.mask_used handle.mask }))
                h cleared)
    ]

-- The part of `_resume` that moves the handle to the list of its owner.
unfoldable pub to_pending : Kernel → ℕ → ℕ → Kernel
to_pending k h t =
    let k1 = rem_handle k h in
    record (set_handle k1 h (record (k1.handles h) { state = handle_done })) {
      queues =
          write_at k1.queues (pending t)
            (placed (λ i. (k1.handles i).priority) h (k1.queues (pending t)));
    }

-- `_resume`
pub resume : Kernel → ℕ → Option Kernel
resume k h = elim (k.handles h).owner [
  | none ↦ none
  | some t ↦
      let thread = k.threads t in
      let k1 = to_pending k h t in
      if is_detached thread.state
      then none
      else if is_waiting thread.state
      then (if thread.mask_wait == 0
          then none
          else if bit_and thread.mask_wait (k.handles h).mask == 0
          then some k1
          else some (to_ready k1 t))
      else some k1
]

-- The loop of `___resume_all`
unfoldable pub resume_loop : ℕ → ℕ → Kernel → ℕ → Option (ℕ × Kernel)
resume_loop zero q k count = none
resume_loop (suc fuel) q k count = elim (k.queues q) [
  | [] ↦ some (count, k)
  | h ∷ _ ↦ elim (resume k h) [ none ↦ none | some k' ↦ resume_loop fuel q k' (count + 1) ]
]

-- `exos_thread_resume_all`: each round takes a handle out of the list.
pub resume_all : Kernel → ℕ → Option (ℕ × Kernel)
resume_all k q = resume_loop (length (k.queues q) + 1) q k 0

-- What `___rem_thread` does before it wakes those that join the thread.
unfoldable pub detach : Kernel → ℕ → Kernel
detach k t = record (set_thread k t (record (k.threads t) { state = thread_detached })) {
  ready = without t k.ready;
  wait = without t k.wait;
}

-- `___rem_thread`
pub rem_thread : Kernel → ℕ → Option Kernel
rem_thread k t =
    if not (is_ready (k.threads t).state) || not (has t k.ready)
    then none
    else elim (resume_all (detach k t) (joining t)) [
      | none ↦ none
      | some (_, k') ↦ some (record k' { switch = true })
    ]

-- The FOREACH of `___wait`
unfoldable pub find_pending : Kernel → ℕ → List ℕ → Bool
find_pending k mask [] = false
find_pending k mask (h ∷ hs) =
    if bit_and (k.handles h).mask mask == 0 then find_pending k mask hs else true

-- `___wait`
pub wait_mask : Kernel → ℕ → Option Kernel
wait_mask k mask =
    let t = k.running in
    if not (is_ready (k.threads t).state) || (mask == 0)
    then none
    else if find_pending k mask (k.queues (pending t))
    then some k
    else some (to_wait k t mask)

-- `___join_cond`
pub join_cond : Kernel → ℕ → Option ℕ
join_cond k t = if is_detached (k.threads t).state then none else some (joining t)
