-- ===== src/Timer.antt =====
-- exos/kernel/timer.c: timers, in a list that is ordered by the time that is left.
-- A timer is a number. What the code does to a timer's event, and its calls of the machine's tick, are
-- a list of calls, in order; the ticks that the machine counts since the last one are an argument. The
-- loop over the list takes fuel, since a timer that is put back moves the loop with it. A failed ASSERT
-- is `none`, and so is running out of fuel.
pub mod Rounds
pub mod Ticks
pub mod Skips
pub mod Seconds
pub mod Tests
use ex_os.Base.{
  ℕ, zero, suc, ◌+◌, ◌-◌, ◌/◌, ◌%◌, ◌^◌, Bool, true, false, Option, none, some, List, [], ◌∷◌, ◌++◌,
  ltb, leb, ◌==◌, if◌then◌else◌, length,
}
use ex_os.Thread.{without, write_at}
use ex_os.LinkedList.Loops.{has}

pub data TimerState : Type 0 where
  timer_detached timer_running timer_finished : TimerState

-- `exos_timer_t`
pub record Timer : Type 0 where
  pub state : TimerState
  pub period : ℕ
  pub time : ℕ

pub data TimerCall : Type 0 where
  set_event : ℕ → TimerCall
  reset_event : ℕ → TimerCall
  tick_prepare : ℕ → ℕ → TimerCall

-- `_timers` and `_ticks`
pub record Timers : Type 0 where
  pub timers : ℕ → Timer
  pub queue : List ℕ
  pub ticks : ℕ

-- `_enqueue`: behind the timers that are due no later
unfoldable pub enqueue : (ℕ → Timer) → ℕ → List ℕ → List ℕ
enqueue ts n [] = n ∷ []
enqueue ts n (x ∷ xs) = if ltb (ts n).time (ts x).time then n ∷ x ∷ xs else x ∷ enqueue ts n xs

-- What `_enqueue` returns: no timer is in front.
abbrev pub is_first : (ℕ → Timer) → ℕ → List ℕ → Bool
is_first ts n [] = true
is_first ts n (x ∷ xs) = ltb (ts n).time (ts x).time

-- `n->Succ` and what follows it
unfoldable pub behind : ℕ → List ℕ → List ℕ
behind n [] = []
behind n (x ∷ xs) = if x == n then xs else behind n xs

-- One round of `_tick_handler` for the timer `n`: the timers, the calls, and where the loop goes on.
unfoldable pub tick_step : ℕ → Timers → ℕ → List ℕ → Timers × List TimerCall × List ℕ
tick_step elapsed t n rest =
    let timer = t.timers n in
    let reloaded = write_at t.timers n (record timer { time = timer.period }) in
    let back = enqueue reloaded n (without n t.queue) in
    if leb timer.time elapsed
    then (if timer.period == 0
        then (
          record t {
            timers = write_at t.timers n (record timer { state = timer_finished });
            queue = without n t.queue;
          },
          set_event n ∷ [],
          rest,
        )
        else (record t { timers = reloaded; queue = back }, reset_event n ∷ [], behind n back))
    else (
      record t { timers = write_at t.timers n (record timer { time = timer.time - elapsed }) },
      [],
      rest,
    )

abbrev pub calling :
    List TimerCall → Option (Timers × List TimerCall) → Option (Timers × List TimerCall)
calling cs none = none
calling cs (some (t, ds)) = some (t, cs ++ ds)

-- The loop of `_tick_handler`, from the first timer of a list on
unfoldable pub tick_loop : ℕ → ℕ → Timers → List ℕ → Option (Timers × List TimerCall)
tick_loop fuel elapsed t [] = some (t, [])
tick_loop zero elapsed t (n ∷ rest) = none
tick_loop (suc fuel) elapsed t (n ∷ rest) =
    let (t', calls, next) = tick_step elapsed t n rest in
    calling calls (tick_loop fuel elapsed t' next)

-- `wait`: the time of the first timer, which is not 0
unfoldable pub first_wait : (ℕ → Timer) → List ℕ → Option ℕ
first_wait ts [] = some 0
first_wait ts (n ∷ ns) = if (ts n).time == 0 then none else some (ts n).time

-- The end of `_tick_handler`: the next tick is asked for, and the ticks are counted.
abbrev pub counted : ℕ → Timers → List TimerCall → Option ℕ → Option (Timers × List TimerCall)
counted elapsed t calls none = none
counted elapsed t calls (some wait) =
    some
      (record t { ticks = (t.ticks + elapsed) % 2 ^ 32 }, calls ++ (tick_prepare elapsed wait ∷ []))

abbrev pub tick_end : ℕ → Option (Timers × List TimerCall) → Option (Timers × List TimerCall)
tick_end elapsed none = none
tick_end elapsed (some (t, calls)) = counted elapsed t calls (first_wait t.timers t.queue)

-- `_tick_handler`
unfoldable pub tick_handler : ℕ → ℕ → Timers → Option (Timers × List TimerCall)
tick_handler fuel elapsed t = tick_end elapsed (tick_loop fuel elapsed t t.queue)

-- `___add_timer`, of a timer that is not in the list
pub add_timer : ℕ → ℕ → Timers → ℕ → Option (Timers × List TimerCall)
add_timer fuel elapsed t n =
    let timer = record (t.timers n) {
      state = timer_running;
      time = ((t.timers n).time + elapsed) % 2 ^ 32;
    } in
    let ts = write_at t.timers n timer in
    let t' = record t { timers = ts; queue = enqueue ts n t.queue } in
    let ticked = tick_handler fuel elapsed t' in
    if is_first ts n t.queue then ticked else some (t', [])

-- `exos_timer_create`, of a time that is not 0
pub create : ℕ → ℕ → Timers → ℕ → ℕ → ℕ → Option (Timers × List TimerCall)
create fuel elapsed t n time period =
    let timer : Timer = record { state = timer_detached; period = period; time = time } in
    add_timer fuel elapsed (record t { timers = write_at t.timers n timer }) n

-- `___rem_timer`
pub rem_timer : ℕ → ℕ → Timers → ℕ → Option (Timers × List TimerCall)
rem_timer fuel elapsed t n =
    let ticked = tick_handler fuel elapsed (record t { queue = without n t.queue }) in
    if has n t.queue then ticked else some (t, [])

-- `_ticks_elapsed`
abbrev pub ticks_elapsed : ℕ → Timers → ℕ
ticks_elapsed elapsed t = (elapsed + t.ticks) % 2 ^ 32

-- `exos_timer_elapsed_ticks`
abbrev pub elapsed_ticks : ℕ → Timers → ℕ → ℕ
elapsed_ticks elapsed t time = (ticks_elapsed elapsed t + 2 ^ 32 - time) % 2 ^ 32

-- The static variables of `___uptime`
pub record Uptime : Type 0 where
  pub last_time : ℕ
  pub seconds : ℕ
  pub fraction_ticks : ℕ

-- `EXOS_TICK_FREQ`
abbrev pub tick_freq : ℕ
tick_freq = 1000

-- `___uptime` at the ticks `time`: the seconds are in the result.
unfoldable pub uptime : ℕ → Uptime → Uptime
uptime time u =
    let fraction = (u.fraction_ticks + (time + 2 ^ 32 - u.last_time) % 2 ^ 32) % 2 ^ 32 in
    record {
      last_time = time;
      seconds = (u.seconds + fraction / tick_freq) % 2 ^ 32;
      fraction_ticks = fraction % tick_freq;
    }
