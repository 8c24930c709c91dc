-- ===== src/Event/Tests.antt =====
-- The theorems on events at an event that two handles wait for.
use ex_os.Base.{◌≡◌, refl, true, false, none, some, [], ◌∷◌}
use ex_os.Thread.{Kernel}
use ex_os.Thread.Resume.{Woken}
use ex_os.Thread.Tests.{two, two-IsScheduled, two-Distinct, two-AllWaiting}
use ex_os.Event.{Event, event_cond, set}
use ex_os.Event.Laws.{set-Woken}

abbrev auto : Event
auto = record { signalled = false; autoreset = true }

-- A set auto-reset event lets one thread pass.
passes_once : event_cond 6 two (record auto { signalled = true }) ≡ some (none, auto, two)
unfolding event_cond
passes_once = refl

set-Woken_example :
    (k' : Kernel) × (set 6 two auto ≡ some (auto, k')) × Woken (λ h. 1) 6 two k' (0 ∷ 1 ∷ [])
set-Woken_example =
    set-Woken (λ h. 1) 6 two auto (0 ∷ 1 ∷ []) refl two-IsScheduled two-Distinct two-AllWaiting
