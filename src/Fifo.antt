-- ===== src/Fifo.antt =====
-- exos/kernel/fifo.c: queues of nodes, with an event for the thread that waits for a node.
-- The items are the list of the nodes; `Count` is kept and checked as in a DEBUG build. `q` is the
-- number of the event's list of handles, and the event is an argument: it may be the caller's.
pub mod Order
pub mod Laws
pub mod Tests
use ex_os.Base.{
  ℕ, ◌+◌, ◌-◌, ◌%◌, ◌^◌, Bool, true, false, not, ◌&&◌, Option, none, some, List, [], ◌∷◌, ◌++◌,
  ◌==◌, if◌then◌else◌,
}
use ex_os.LinkedList.Loops.{has}
use ex_os.Thread.{Kernel}
use ex_os.Event.{Event}
use ex_os.Event

-- `fifo_t`
pub record Fifo : Type 0 where
  pub count : ℕ
  pub items : List ℕ
  pub has_event : Bool

-- `exos_fifo_create`
pub create : Bool → Fifo
create has_event = record { count = 0; items = []; has_event = has_event }

-- What the calls change: the fifo, its event and the threads.
pub record World : Type 0 where
  pub fifo : Fifo
  pub event : Event
  pub kernel : Kernel

abbrev pub is_nil : List ℕ → Bool
is_nil [] = true
is_nil (x ∷ xs) = false

abbrev pub with_event : Fifo → Option (Event × Kernel) → Option World
with_event f none = none
with_event f (some (e, k)) = some (record { fifo = f; event = e; kernel = k })

-- The end of `_dequeue`: the event is reset when nothing is left.
unfoldable pub reset_if_empty : ℕ → World → Fifo → Option World
reset_if_empty q w f =
    let emptied = with_event f (Event.reset q w.kernel w.event) in
    if f.has_event && is_nil f.items then emptied else some (record w { fifo = f })

-- `_dequeue`, for the items of the fifo: the node or NULL
unfoldable pub dequeue_from : ℕ → World → List ℕ → Option (Option ℕ × World)
dequeue_from q w [] =
    if w.fifo.count == 0
    then elim (reset_if_empty q w w.fifo) [ none ↦ none | some w' ↦ some (none, w') ]
    else none
dequeue_from q w (n ∷ ns) =
    let f = record w.fifo { items = ns; count = w.fifo.count - 1 } in
    if w.fifo.count == 0
    then none
    else elim (reset_if_empty q w f) [ none ↦ none | some w' ↦ some (some n, w') ]

-- `exos_fifo_dequeue`
unfoldable pub dequeue : ℕ → World → Option (Option ℕ × World)
dequeue q w = dequeue_from q w w.fifo.items

abbrev pub not_null : Option (Option ℕ × World) → Option (ℕ × World)
not_null none = none
not_null (some (none, w)) = none
not_null (some (some n, w)) = some (n, w)

-- `exos_fifo_wait` after the wait for the event: a missing node is a panic.
unfoldable pub wait_end : ℕ → World → Option (ℕ × World)
wait_end q w = not_null (dequeue q w)

-- `_queue`, behind `exos_fifo_queue`
pub queue : ℕ → World → ℕ → Option World
queue q w n =
    let f = record w.fifo { items = w.fifo.items ++ n ∷ []; count = (w.fifo.count + 1) % 2 ^ 32 } in
    if has n w.fifo.items
    then none
    else if w.fifo.has_event
    then with_event f (Event.set q w.kernel w.event)
    else some (record w { fifo = f })
