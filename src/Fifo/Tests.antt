-- ===== src/Fifo/Tests.antt =====
-- The theorems on fifos at small ones.
use ex_os.Base.{ℕ, ◌≡◌, refl, true, false, none, some, [], ◌∷◌, arith, ◌==◌, if◌then◌else◌}
use ex_os.LinkedList.Loops.{has}
use ex_os.Base.Int.{pos}
use ex_os.Thread.{thread_wait, handle_waiting, Kernel}
use ex_os.Thread.Ready.{occurs, IsScheduled}
use ex_os.Thread.Resume.{Distinct, IsWaiting}
use ex_os.Thread.Tests.{two, two-IsScheduled, two-Distinct, two-AllWaiting}
use ex_os.Event.{Event, event_cond}
use ex_os.Fifo.{World, create, queue, dequeue, wait_end}
use ex_os.Fifo.Order.{IsFifo, dequeue-IsFifo}
use ex_os.Fifo.Laws.{
  put, get, stored, got, run, queue_run, run-queue_run, stranded_item, AllReady, queue-AllReady,
}

abbrev owner : ℕ → ℕ
owner h = 1

-- One item; two handles wait for the event.
abbrev one_item : World
one_item = record {
  fifo = record { count = 1; items = 5 ∷ []; has_event = true };
  event = record { signalled = true; autoreset = false };
  kernel = two;
}

one_item-IsFifo : IsFifo owner 6 one_item
one_item-IsFifo = record {
  counted = refl;
  bounded = omega arith;
  level = λ h auto. refl;
  awaited = record {
    waiting = 0 ∷ 1 ∷ [];
    here = refl;
    scheduled = two-IsScheduled;
    distinct = two-Distinct;
    all_waiting = two-AllWaiting;
  };
}

-- No item, and an auto-reset event that nobody waits for.
abbrev empty_auto : World
empty_auto = record {
  fifo = create true;
  event = record { signalled = false; autoreset = true };
  kernel = record two { queues = λ q. [] };
}

empty_auto-IsFifo : IsFifo owner 6 empty_auto
unfolding create Distinct
empty_auto-IsFifo = record {
  counted = refl;
  bounded = omega arith;
  level = λ h auto. ground arith;
  awaited = record {
    waiting = [];
    here = refl;
    scheduled = record {
      ordered = two-IsScheduled.ordered;
      in_ready = two-IsScheduled.in_ready;
      in_wait = two-IsScheduled.in_wait;
      waits = two-IsScheduled.waits;
    };
    distinct = tt;
    all_waiting = tt;
  };
}

in_order :
    queue_run [] (put 1 ∷ put 2 ∷ get ∷ get ∷ get ∷ [])
    ≡ some (stored ∷ stored ∷ got (some 1) ∷ got (some 2) ∷ got none ∷ [])
unfolding queue_run has
in_order = refl

run-queue_run_example :
    run 6 one_item (put 7 ∷ get ∷ get ∷ []) ≡ queue_run (5 ∷ []) (put 7 ∷ get ∷ get ∷ [])
run-queue_run_example =
    run-queue_run owner 6 (put 7 ∷ get ∷ get ∷ []) one_item one_item-IsFifo (omega arith)

dequeue-IsFifo_example :
    (w' : World) × (dequeue 6 one_item ≡ some (some 5, w'))
    × (w'.fifo.items ≡ [])
    × IsFifo owner 6 w'
dequeue-IsFifo_example = dequeue-IsFifo owner 6 one_item one_item-IsFifo

stranded_item_example :
    (w1 : World) × (w2 : World) × (e : Event) × (w3 : World) × (queue 6 empty_auto 3 ≡ some w1)
    × (queue 6 w1 4 ≡ some w2)
    × (event_cond 6 w2.kernel w2.event ≡ some (none, e, w2.kernel))
    × (dequeue 6 (record w2 { event = e }) ≡ some (some 3, w3))
    × (w3.fifo.items ≡ 4 ∷ [])
    × (event_cond 6 w3.kernel w3.event ≡ some (some 6, w3.event, w3.kernel))
unfolding create empty_auto-IsFifo
stranded_item_example =
    stranded_item owner 6 empty_auto 3 4 empty_auto-IsFifo refl refl refl refl (omega arith)

-- The threads 2 and 3 wait for the event of an empty fifo, with the handles 0 and 1.
abbrev herd : Kernel
herd = record two {
  threads = λ t.
      if t == 2
      then record { priority = pos 0; state = thread_wait; mask_used = 1; mask_wait = 1 }
      else if t == 3
      then record { priority = pos 0; state = thread_wait; mask_used = 1; mask_wait = 1 }
      else two.threads t;
  handles = λ h. record {
    priority = pos 0;
    state = handle_waiting;
    owner = some (if h == 0 then 2 else 3);
    mask = 1;
  };
  wait = 2 ∷ 3 ∷ [];
}

herd-IsScheduled : IsScheduled herd
unfolding occurs
herd-IsScheduled = record {
  ordered = two-IsScheduled.ordered;
  in_ready = λ t. ground arith;
  in_wait = λ t. ground arith;
  waits = λ t e. ground arith;
}

abbrev waiter : ℕ → ℕ
waiter h = if h == 0 then 2 else 3

abbrev empty_herd : World
empty_herd = record {
  fifo = create true;
  event = record { signalled = false; autoreset = false };
  kernel = herd;
}

herd_waits : (h : ℕ) → IsWaiting herd h (waiter h)
herd_waits h = record { owned = ground arith; alive = ground arith; queued = refl }

empty_herd-IsFifo : IsFifo waiter 6 empty_herd
unfolding create
empty_herd-IsFifo = record {
  counted = refl;
  bounded = omega arith;
  level = λ h auto. refl;
  awaited = record {
    waiting = 0 ∷ 1 ∷ [];
    here = refl;
    scheduled = herd-IsScheduled;
    distinct = two-Distinct;
    all_waiting = ((herd_waits 0, omega arith), ((herd_waits 1, omega arith), tt));
  };
}

queue-AllReady_example :
    (w1 : World) × (w2 : World) × (queue 6 empty_herd 5 ≡ some w1)
    × AllReady waiter w1.kernel (0 ∷ 1 ∷ [])
    × (wait_end 6 w1 ≡ some (5, w2))
    × (wait_end 6 w2 ≡ none)
unfolding empty_herd-IsFifo create
queue-AllReady_example =
    queue-AllReady waiter 6 empty_herd 5 empty_herd-IsFifo refl refl (refl, (refl, tt))
