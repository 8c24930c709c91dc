-- ===== src/Mutex/Tests.antt =====
-- A mutex that thread 1 locks twice and unlocks once.
use ex_os.Base.{ℕ, refl, some, []}
use ex_os.Thread.{Kernel, write_at}
use ex_os.Thread.Tests.{two}
use ex_os.Mutex.{Mutex, create, mutex_cond, unlock, is_owner}
use ex_os.Mutex.Exclusion.{Reaches, created, locked, unlocked, IsHeld, Reaches-IsHeld}

abbrev held_by_one : ℕ → Mutex
held_by_one n = record { owner = some 1; count = n }

abbrev fresh_list : Kernel
fresh_list = record two { queues = write_at two.queues 7 [] }

once : Reaches 7 (held_by_one 1) (write_at (λ u. 0) 1 1)
unfolding mutex_cond create
once = locked two fresh_list created refl

twice : Reaches 7 (held_by_one 2) (write_at (write_at (λ u. 0) 1 1) 1 2)
unfolding mutex_cond
twice = locked two two once refl

once_again : Reaches 7 (held_by_one 1) (write_at (write_at (write_at (λ u. 0) 1 1) 1 2) 1 1)
unfolding unlock is_owner
once_again = unlocked two two twice refl

Reaches-IsHeld_example :
    IsHeld (held_by_one 1) (write_at (write_at (write_at (λ u. 0) 1 1) 1 2) 1 1)
Reaches-IsHeld_example = Reaches-IsHeld (held_by_one 1) _ once_again
