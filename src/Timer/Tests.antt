-- ===== src/Timer/Tests.antt =====
-- Two timers, the first one due at the next tick, and the theorems there.
use ex_os.Base.{
  ℕ, ◌+◌, ◌/◌, ◌%◌, ◌^◌, ◌≡◌, ◌≢◌, refl, some, [], ◌∷◌, ◌++◌, map, arith, ◌==◌, if◌then◌else◌,
}
use ex_os.LinkedList.Loops.{has}
use ex_os.Thread.Ready.{occurs}
use ex_os.Timer.{
  timer_running, Timer, set_event, reset_event, tick_prepare, Timers, first_wait, tick_handler,
  add_timer, create, enqueue, uptime,
}
use ex_os.Timer.Rounds.{expired, left, ticked}
use ex_os.Timer.Ticks.{tick_handler-Ticked}
use ex_os.Timer.Skips.{tick_handler_skips}
use ex_os.Timer.Seconds.{uptimes, at_start, sum, uptimes_lem}

abbrev pair : ℕ → ℕ → Timer
pair period x =
    if x == 1
    then record { state = timer_running; period = period; time = 1 }
    else record { state = timer_running; period = 0; time = 5 }

-- The first timer has the period.
abbrev two_timers : ℕ → Timers
two_timers period = record { timers = pair period; queue = 1 ∷ 2 ∷ []; ticks = 7 }

tick_handler-Ticked_example :
    (t' : Timers) × (wait : ℕ) × (tick_handler 2 1 (two_timers 0)
      ≡ some (t', map set_event (expired 1 (pair 0) (1 ∷ 2 ∷ [])) ++ (tick_prepare 1 wait ∷ [])))
    × (t'.queue ≡ left 1 (pair 0) (1 ∷ 2 ∷ []))
    × ((x : ℕ) → t'.timers x ≡ (if has x (1 ∷ 2 ∷ []) then ticked 1 (pair 0 x) else pair 0 x))
    × (t'.ticks ≡ 8)
    × (first_wait t'.timers t'.queue ≡ some wait)
unfolding occurs
tick_handler-Ticked_example =
    tick_handler-Ticked 2 1 (two_timers 0) (omega arith) (λ x. ground arith)
      ((λ h. refl), ((λ h. refl), tt))

tick_handler_skips_example :
    (t' : Timers) × (wait : ℕ) × (tick_handler 2 1 (two_timers 10)
      ≡ some (t', reset_event 1 ∷ tick_prepare 1 wait ∷ []))
    × (t'.queue ≡ (2 ∷ []) ++ (1 ∷ []))
    × ((x : ℕ) → x ≢ 1 → t'.timers x ≡ pair 10 x)
    × (t'.ticks ≡ 8)
unfolding occurs
tick_handler_skips_example =
    tick_handler_skips 1 1 (two_timers 10) 1 (2 ∷ []) refl refl (omega arith) (omega arith)
      (omega arith, tt) (omega arith, tt)

-- 4 seconds of ticks, asked for three times.
uptimes_lem_example :
    (uptime ((sum (999 ∷ 2 ∷ []) + 3500) % 2 ^ 32) (uptimes at_start 0 (999 ∷ 2 ∷ []))).seconds
    ≡ (sum (999 ∷ 2 ∷ []) + 3500) / 1000
unfolding sum
uptimes_lem_example =
    uptimes_lem (999 ∷ 2 ∷ []) 3500 (omega arith, (omega arith, tt)) (omega arith) (omega arith)

-- A new timer goes behind those that are due no later.
in_between :
    (t : Timers) × (create 5 0 (two_timers 0) 3 4 0 ≡ some (t, [])) × (t.queue ≡ 1 ∷ 3 ∷ 2 ∷ [])
unfolding create add_timer enqueue
in_between = (_, refl, refl)
