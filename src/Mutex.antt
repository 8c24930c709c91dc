-- ===== src/Mutex.antt =====
-- exos/kernel/mutex.c: recursive mutexes. `Handles` of a mutex is the list of handles with the
-- number `q`. The loop of `exos_mutex_lock` waits in between its rounds; what it does without a
-- wait is `mutex_cond` and the test of the owner.
mod Exclusion
mod Tests
use ex_os.Base.{
  ℕ, ◌+◌, ◌-◌, ◌%◌, ◌^◌, Bool, true, false, Option, none, some, List, [], ◌==◌, if◌then◌else◌,
}
use ex_os.Thread.{Kernel, resume_all, add_wait_handle, write_at}

-- `mutex_t`
pub record Mutex : Type 0 where
  pub owner : Option ℕ
  pub count : ℕ

-- `exos_mutex_create`
pub create : Mutex
create = record { owner = none; count = 0 }

-- `mutex->Owner == __running_thread`
unfoldable pub is_owner : ℕ → Option ℕ → Bool
is_owner t none = false
is_owner t (some u) = u == t

-- `___mutex_cond`
unfoldable pub mutex_cond : ℕ → Kernel → Mutex → Option (Option ℕ × Mutex × Kernel)
mutex_cond q k m = elim m.owner [
  | none ↦
      if m.count == 0
      then some (
        none,
        record { owner = some k.running; count = 1 },
        record k { queues = write_at k.queues q [] },
      )
      else none
  | some t ↦
      if t == k.running
      then (if m.count == 0
          then none
          else some (none, record { owner = some t; count = (m.count + 1) % 2 ^ 32 }, k))
      else some (some q, m, k)
]

-- The body of the loop of `exos_mutex_lock` up to the wait.
pub lock_round : ℕ → Kernel → Mutex → ℕ → Option (ℕ × Mutex × Kernel)
lock_round q k m h = add_wait_handle (mutex_cond q) k h m

-- `exos_mutex_unlock` with `_unlock`
unfoldable pub unlock : ℕ → Kernel → Mutex → Option (Mutex × Kernel)
unlock q k m =
    let left = m.count - 1 in
    if is_owner k.running m.owner
    then (if m.count == 0
        then none
        else if left == 0
        then elim (resume_all k q) [
          | none ↦ none
          | some (_, k') ↦ some (record { owner = none; count = left }, k')
        ]
        else some (record m { count = left }, k))
    else none

-- `exos_mutex_try`: whether the mutex was taken.
pub try : ℕ → Kernel → Mutex → Option (Bool × Mutex × Kernel)
try q k m = elim (mutex_cond q k m) [
  | none ↦ none
  | some (none, m', k') ↦ some (true, m', k')
  | some (some _, m', k') ↦ some (false, m', k')
]
