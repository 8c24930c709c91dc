-- ===== src/Fifo/Laws.antt =====
-- Fifos as queues, and what goes wrong when several threads wait.
use ex_os.Base.{
  ℕ, ◌+◌, ◌^◌, ◌<◌, ◌≤◌, ◌≡◌, ◌≢◌, ◌∙◌, refl, sym, ap, inl, inr, true, false, not, ◌||◌, ◌%◌, ◌&&◌,
  ◌-◌, Option, none, some, List, [], ◌∷◌, ◌++◌, arith, ◌==◌, if◌then◌else◌, Bool-cases,
  Option-cases, length, length-append,
}
use ex_os.LinkedList.Loops.{has}
use ex_os.Event.{Event, event_cond}
use ex_os.Event.Laws.{no_one, set-Woken}
use ex_os.Thread.Resume.{wakes}
use ex_os.LinkedList.Links.{All}
use ex_os.Thread.{Kernel, handle_done, is_ready}
use ex_os.Fifo.{World, reset_if_empty, dequeue, dequeue_from, wait_end, not_null, queue}
use ex_os.Fifo.Order.{IsFifo, Woken-IsAwaited, queue-IsFifo, dequeue-IsFifo, first, rest}

pub data Op : Type 0 where
  put : ℕ → Op
  get : Op

pub data Reply : Type 0 where
  stored : Reply
  got : Option ℕ → Reply

abbrev pub after : Reply → Option (List Reply) → Option (List Reply)
after r none = none
after r (some rs) = some (r ∷ rs)

-- Calls of `exos_fifo_queue` and `exos_fifo_dequeue`, and what they reply.
unfoldable pub run : ℕ → World → List Op → Option (List Reply)
run q w [] = some []
run q w (put n ∷ ops) = elim (queue q w n) [ none ↦ none | some w' ↦ after stored (run q w' ops) ]
run q w (get ∷ ops) = elim (dequeue q w) [
  | none ↦ none
  | some (reply, w') ↦ after (got reply) (run q w' ops)
]

-- A queue of different numbers.
unfoldable pub queue_run : List ℕ → List Op → Option (List Reply)
queue_run items [] = some []
queue_run items (put n ∷ ops) =
    let more = after stored (queue_run (items ++ n ∷ []) ops) in if has n items then none else more
queue_run items (get ∷ ops) = after (got (first items)) (queue_run (rest items) ops)

queue_again : (q : ℕ) (w : World) (n : ℕ) → has n w.fifo.items ≡ true → queue q w n ≡ none
unfolding queue
queue_again q w n h = rw h refl

length-rest : (xs : List ℕ) → length (rest xs) ≤ length xs
length-rest [] = omega arith
length-rest (x ∷ xs) = omega arith

-- The items of a fifo from the front on are what its calls say: any sequence of `exos_fifo_queue` and
-- `exos_fifo_dequeue` replies as a queue of numbers does, which refuses a number that it has.
pub run-queue_run :
    (own : ℕ → ℕ) (q : ℕ) (ops : List Op) (w : World)
    → IsFifo own q w
    → length w.fifo.items + length ops < 2 ^ 32
    → run q w ops ≡ queue_run w.fifo.items ops
unfolding run queue_run
run-queue_run own q [] w f room = refl
run-queue_run own q (put n ∷ ops) w f room = elim (Bool-cases (has n w.fifo.items)) [
  | inl e ↦ rw (e, queue_again q w n e, run) refl
  | inr e ↦
      let (w', r, items, f', _, _) = queue-IsFifo own q w n f e (omega arith) in
      let size = length-append w.fifo.items (n ∷ []) in
      let ih = run-queue_run own q ops w' f' (rw items (omega (arith, size, room))) in
      rw (e, r, run) (ap (after stored) (ih ∙ ap (λ l. queue_run l ops) items))
]
run-queue_run own q (get ∷ ops) w f room =
    let (w', r, items, f') = dequeue-IsFifo own q w f in
    let ih =
      run-queue_run own q ops w' f' (rw items (omega (arith, length-rest w.fifo.items, room))) in
    rw (r, run) (ap (after (got (first w.fifo.items))) (ih ∙ ap (λ l. queue_run l ops) items))

-- An auto-reset event stands for one item only. Two nodes are queued in an empty fifo with an
-- auto-reset event that no thread waits for. One `exos_fifo_wait` does not wait and takes the first;
-- the next one waits, though the second is there.
pub stranded_item :
    (own : ℕ → ℕ) (q : ℕ) (w : World) (a b : ℕ) (f : IsFifo own q w)
    → w.fifo.items ≡ []
    → f.awaited.waiting ≡ []
    → w.fifo.has_event ≡ true
    → w.event.autoreset ≡ true
    → a ≢ b
    → (w1 : World) × (w2 : World) × (e : Event) × (w3 : World) × (queue q w a ≡ some w1)
      × (queue q w1 b ≡ some w2)
      × (event_cond q w2.kernel w2.event ≡ some (none, e, w2.kernel))
      × (dequeue q (record w2 { event = e }) ≡ some (some a, w3))
      × (w3.fifo.items ≡ b ∷ [])
      × (event_cond q w3.kernel w3.event ≡ some (some q, w3.event, w3.kernel))
unfolding event_cond dequeue dequeue_from reset_if_empty has
stranded_item own q w a b f empty alone has_event auto ne =
    let (w1, r1, items1, f1, has1, ev1) =
      queue-IsFifo own q w a f (rw empty refl) (rw empty (omega arith)) in
    let items1' : w1.fifo.items ≡ a ∷ [] = items1 ∙ ap (λ l. l ++ a ∷ []) empty in
    let new : has b w1.fifo.items ≡ false = rw items1' (ground arith) in
    let (w2, r2, items2, f2, has2, ev2) =
      queue-IsFifo own q w1 b f1 new (rw items1' (omega arith)) in
    let (e1, drained) = ev1 has_event in
    let (e2, _) = ev2 (has1 ∙ has_event) in
    let auto1 : w1.event.autoreset ≡ true = ap (λ v. v.autoreset) e1 ∙ auto in
    let auto2 : w2.event.autoreset ≡ true = ap (λ v. v.autoreset) e2 ∙ auto1 in
    let alone1 : f1.awaited.waiting ≡ [] = sym f1.awaited.here ∙ drained in
    let is_set : w2.event.signalled ≡ true = ap (λ v. v.signalled) e2 ∙ rw (auto1, alone1) refl in
    let items2' : w2.fifo.items ≡ a ∷ b ∷ [] = items2 ∙ ap (λ l. l ++ b ∷ []) items1' in
    let full : (w2.fifo.count == 0) ≡ false = ground (arith, f2.counted ∙ ap length items2') in
    let e = record w2.event { signalled = false } in
    let kept : (w2.fifo.has_event && false) ≡ false = ground arith in
    (
      w1,
      w2,
      e,
      record w2 { event = e; fifo = record w2.fifo { items = b ∷ []; count = w2.fifo.count - 1 } },
      r1,
      r2,
      rw (is_set, auto2) refl,
      ap (dequeue_from q (record w2 { event = e })) items2' ∙ rw (full, kept) refl,
      refl,
      refl,
    )

no_item : (q : ℕ) (w : World) → w.fifo.items ≡ [] → wait_end q w ≡ none
unfolding wait_end dequeue dequeue_from
no_item q w e = ap (λ items. not_null (dequeue_from q w items)) e ∙ nothing
  where
    nothing : not_null (dequeue_from q w []) ≡ none
    nothing = elim (Bool-cases (w.fifo.count == 0)) [
      | inr c ↦ rw c refl
      | inl c ↦ elim (Option-cases (reset_if_empty q w w.fifo)) [
        | inl r ↦ rw (c, r) refl
        | inr (w', r) ↦ rw (c, r) refl
      ]
    ]

-- Every handle of the list is done, and its owner is ready.
abbrev pub AllReady : (ℕ → ℕ) → Kernel → List ℕ → Type 0
AllReady own k xs =
    All (λ h. ((k.handles h).state ≡ handle_done) × (is_ready (k.threads (own h)).state ≡ true)) xs

all_ready :
    (own : ℕ → ℕ) (k k' : Kernel) (xs : List ℕ)
    → All (λ h. (k'.handles h).state ≡ handle_done) xs
    → All (λ h. wakes k h (own h) ≡ true → is_ready (k'.threads (own h)).state ≡ true) xs
    → All (λ h. wakes k h (own h) ≡ true) xs
    → AllReady own k' xs
all_ready own k k' [] done awake waits = tt
all_ready own k k' (x ∷ xs) (d, done) (a, awake) (w, waits) =
    ((d, a w), all_ready own k k' xs done awake waits)

-- One node is queued in an empty fifo with an event, where threads wait for the event: all of them
-- become ready, their handles done. The first that goes on in `exos_fifo_wait` takes the node; when
-- another one goes on after that, the fifo is empty and it panics.
pub queue-AllReady :
    (own : ℕ → ℕ) (q : ℕ) (w : World) (n : ℕ) (f : IsFifo own q w)
    → w.fifo.items ≡ []
    → w.fifo.has_event ≡ true
    → All (λ h. wakes w.kernel h (own h) ≡ true) f.awaited.waiting
    → (w1 : World) × (w2 : World) × (queue q w n ≡ some w1)
      × AllReady own w1.kernel f.awaited.waiting
      × (wait_end q w1 ≡ some (n, w2))
      × (wait_end q w2 ≡ none)
unfolding queue has wait_end
queue-AllReady own q w n f empty has_event waits =
    let a = f.awaited in
    let (k', r, woken) =
      set-Woken own q w.kernel w.event a.waiting a.here a.scheduled a.distinct a.all_waiting in
    let e = record w.event { signalled = not w.event.autoreset || no_one a.waiting } in
    let w1 : World = record {
      fifo = record w.fifo { items = n ∷ []; count = (w.fifo.count + 1) % 2 ^ 32 };
      event = e;
      kernel = k';
    } in
    let none_yet : w.fifo.count ≡ 0 = f.counted ∙ ap length empty in
    let f1 : IsFifo own q w1 = record {
      counted = rw none_yet refl;
      bounded = omega arith;
      level = λ h auto. rw auto refl;
      awaited = Woken-IsAwaited own q woken;
    } in
    let (w2, taken, none_left, _) = dequeue-IsFifo own q w1 f1 in
    (
      w1,
      w2,
      rw (empty, has_event, r) refl,
      all_ready own w.kernel k' a.waiting woken.all_done woken.all_awake waits,
      ap not_null taken,
      no_item q w2 none_left,
    )
