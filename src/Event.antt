-- ===== src/Event.antt =====
-- exos/kernel/event.c: events. `Handles` of an event is the list of handles with the number `q`.
pub mod Laws
pub mod Tests
use ex_os.Base.{ℕ, Bool, true, false, Option, none, some, [], ◌==◌, if◌then◌else◌}
use ex_os.Thread.{Kernel, resume_all, add_wait_handle, write_at}

-- `event_t`
pub record Event : Type 0 where
  pub signalled : Bool
  pub autoreset : Bool

-- `exos_event_create`
pub create : Bool → ℕ → Kernel → Event × Kernel
create autoreset q k = (
  record { signalled = false; autoreset = autoreset },
  record k { queues = write_at k.queues q [] },
)

-- `___event_cond`: the list to wait in, if the event is not set.
unfoldable pub event_cond : ℕ → Kernel → Event → Option (Option ℕ × Event × Kernel)
event_cond q k e =
    if e.signalled
    then some (none, (if e.autoreset then record e { signalled = false } else e), k)
    else some (some q, e, k)

-- `exos_event_add_handle`
pub add_handle : ℕ → Kernel → Event → ℕ → Option (ℕ × Event × Kernel)
add_handle q k e h = add_wait_handle (event_cond q) k h e

-- `exos_event_set`, with `___event_set`
pub set : ℕ → Kernel → Event → Option (Event × Kernel)
set q k e = elim (resume_all k q) [
  | none ↦ none
  | some (count, k') ↦
      if e.autoreset
      then some (record e { signalled = count == 0 }, k')
      else some (record e { signalled = true }, k')
]

-- `exos_event_reset`
pub reset : ℕ → Kernel → Event → Option (Event × Kernel)
reset q k e = elim (resume_all k q) [
  | none ↦ none
  | some (_, k') ↦ some (record e { signalled = false }, k')
]
