-- ===== src/Fifo/Order.antt =====
-- A fifo holds its items in order, and an event that is not auto-reset is set exactly while there
-- are items.
use ex_os.Base.{
  ℕ, ◌+◌, ◌-◌, ◌%◌, ◌^◌, ◌<◌, ◌≡◌, ◌∙◌, refl, ap, inl, inr, true, false, not, ◌&&◌, ◌||◌, Option,
  none, some, List, [], ◌∷◌, ◌++◌, arith, ◌==◌, Bool-cases, length, length-append,
}
use ex_os.LinkedList.Loops.{has}
use ex_os.Thread.{Kernel}
use ex_os.Thread.Ready.{IsScheduled}
use ex_os.Thread.Resume.{Distinct, AllWaiting, Woken}
use ex_os.Event.Laws.{no_one, set-Woken, reset-Woken}
use ex_os.Fifo.{Fifo, World, is_nil, reset_if_empty, dequeue, dequeue_from, queue}

abbrev pub first : List ℕ → Option ℕ
first [] = none
first (n ∷ ns) = some n

abbrev pub rest : List ℕ → List ℕ
rest [] = []
rest (n ∷ ns) = ns

module _ (own : ℕ → ℕ) (q : ℕ) where
  -- The threads are scheduled well, and different handles wait for the event.
  pub record IsAwaited (k : Kernel) : Type 0 where
    pub waiting : List ℕ
    pub here : k.queues q ≡ waiting
    pub scheduled : IsScheduled k
    pub distinct : Distinct waiting
    pub all_waiting : AllWaiting own q k waiting

  pub record IsFifo (w : World) : Type 0 where
    pub counted : w.fifo.count ≡ length w.fifo.items
    pub bounded : length w.fifo.items < 2 ^ 32
    pub level :
        w.fifo.has_event ≡ true
        → w.event.autoreset ≡ false
        → w.event.signalled ≡ not (is_nil w.fifo.items)
    pub awaited : IsAwaited w.kernel

  pub Woken-IsAwaited : {k k' : Kernel} {xs : List ℕ} → Woken own q k k' xs → IsAwaited k'
  unfolding Distinct
  Woken-IsAwaited w = record {
    waiting = [];
    here = w.emptied;
    scheduled = w.scheduled;
    distinct = tt;
    all_waiting = tt;
  }

  not_nil : (xs : List ℕ) (n : ℕ) → is_nil (xs ++ n ∷ []) ≡ false
  not_nil [] n = refl
  not_nil (x ∷ xs) n = refl

  -- `_queue` of a node that is not in the fifo puts it behind the items, and the fifo stays well
  -- formed: its event, if it is not auto-reset, is set.
  pub queue-IsFifo :
      (w : World) (n : ℕ)
      → (f : IsFifo w) → has n w.fifo.items ≡ false
      → length w.fifo.items + 1 < 2 ^ 32
      → (w' : World) × (queue q w n ≡ some w')
        × (w'.fifo.items ≡ w.fifo.items ++ n ∷ [])
        × IsFifo w'
        × (w'.fifo.has_event ≡ w.fifo.has_event)
        × (w.fifo.has_event ≡ true
            → (w'.event
                ≡ record w.event { signalled = not w.event.autoreset || no_one f.awaited.waiting })
              × (w'.kernel.queues q ≡ []))
  unfolding queue
  queue-IsFifo w n f fresh room =
      let items = w.fifo.items ++ n ∷ [] in
      let count = (w.fifo.count + 1) % 2 ^ 32 in
      let size = length-append w.fifo.items (n ∷ []) in
      let counted : count ≡ length items = omega (arith, f.counted, size) in
      let a = f.awaited in
      let (k', set, woken) =
        set-Woken own q w.kernel w.event a.waiting a.here a.scheduled a.distinct a.all_waiting in
      elim (Bool-cases w.fifo.has_event) [
        | inl e ↦ (
          record {
            fifo = record w.fifo { items = items; count = count };
            event = record w.event { signalled = not w.event.autoreset || no_one a.waiting };
            kernel = k';
          },
          rw (fresh, e, set) refl,
          refl,
          record {
            counted = counted;
            bounded = omega (arith, size);
            level = λ h auto. rw auto (rw (not_nil w.fifo.items n) refl);
            awaited = Woken-IsAwaited woken;
          },
          refl,
          λ h. (refl, woken.emptied),
        )
        | inr e ↦ (
          record w { fifo = record w.fifo { items = items; count = count } },
          rw (fresh, e) refl,
          refl,
          record {
            counted = counted;
            bounded = omega (arith, size);
            level = λ h auto. ground arith;
            awaited = a;
          },
          refl,
          λ h. absurd (ground arith),
        )
      ]

  reset_if_empty-IsFifo :
      (w : World) (f : Fifo)
      → IsAwaited w.kernel
      → f.count ≡ length f.items
      → length f.items < 2 ^ 32
      → (f.has_event ≡ true
          → w.event.autoreset ≡ false
          → is_nil f.items ≡ false
          → w.event.signalled ≡ true)
      → (w' : World) × (reset_if_empty q w f ≡ some w') × (w'.fifo ≡ f) × IsFifo w'
  unfolding reset_if_empty
  reset_if_empty-IsFifo w f a counted bounded level =
      let (k', reset, woken) =
        reset-Woken own q w.kernel w.event a.waiting a.here a.scheduled a.distinct a.all_waiting in
      elim (Bool-cases (f.has_event && is_nil f.items)) [
        | inl e ↦ (
          record { fifo = f; event = record w.event { signalled = false }; kernel = k' },
          rw (e, reset) refl,
          refl,
          record {
            counted = counted;
            bounded = bounded;
            level = λ h auto. ground arith;
            awaited = Woken-IsAwaited woken;
          },
        )
        | inr e ↦ (
          record w { fifo = f },
          rw e refl,
          refl,
          record {
            counted = counted;
            bounded = bounded;
            level = λ h auto.
                let more : is_nil f.items ≡ false = ground arith in rw more (level h auto more);
            awaited = a;
          },
        )
      ]

  -- `_dequeue` gives the first item, or NULL, and leaves the others; the fifo stays well formed: its
  -- event, if it is not auto-reset, is set exactly if there are more.
  pub dequeue-IsFifo :
      (w : World)
      → IsFifo w
      → (w' : World) × (dequeue q w ≡ some (first w.fifo.items, w'))
        × (w'.fifo.items ≡ rest w.fifo.items)
        × IsFifo w'
  unfolding dequeue dequeue_from
  dequeue-IsFifo w f = go w.fifo.items refl
    where
      go :
          (items : List ℕ)
          → w.fifo.items ≡ items
          → (w' : World) × (dequeue q w ≡ some (first items, w'))
            × (w'.fifo.items ≡ rest items)
            × IsFifo w'
      go [] e =
          let empty : (w.fifo.count == 0) ≡ true = ground (arith, f.counted, e) in
          let (w', r, same, f') =
            reset_if_empty-IsFifo w w.fifo f.awaited f.counted f.bounded
              (λ h auto more. f.level h auto ∙ ap not more) in
          (w', ap (dequeue_from q w) e ∙ rw (empty, r) refl, ap (λ g. g.items) same ∙ e, f')
      go (n ∷ ns) e =
          let full : (w.fifo.count == 0) ≡ false = ground (arith, f.counted, e) in
          let counted : w.fifo.count ≡ length (n ∷ ns) = f.counted ∙ ap length e in
          let bounded : length (n ∷ ns) < 2 ^ 32 = rw e at f.bounded in
          let (w', r, same, f') =
            reset_if_empty-IsFifo w (record w.fifo { items = ns; count = w.fifo.count - 1 })
              f.awaited (omega (arith, counted)) (omega (arith, bounded))
              (λ h auto more. f.level h auto ∙ rw e refl) in
          (w', ap (dequeue_from q w) e ∙ rw (full, r) refl, ap (λ g. g.items) same, f')
