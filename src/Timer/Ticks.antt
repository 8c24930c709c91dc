-- ===== src/Timer/Ticks.antt =====
-- What `_tick_handler` does to the timers.
use ex_os.Base.{
  ℕ, ◌+◌, ◌-◌, ◌%◌, ◌^◌, ◌≤◌, ◌≡◌, ◌∙◌, ◌⊎◌, refl, ap, inl, inr, true, false, some, List, [], ◌∷◌,
  ◌++◌, map, arith, leb, ◌==◌, if◌then◌else◌, Bool-cases, length,
}
use ex_os.LinkedList.Loops.{has}
use ex_os.Thread.Ready.{occurs}
use ex_os.Timer.{
  Timer, TimerCall, set_event, tick_prepare, Timers, tick_loop, first_wait, tick_end, counted,
  tick_handler,
}
use ex_os.Timer.Rounds.{expired, left, ticked, OneShot, tick_loop-Ticked}

-- The first of the timers that are not due.
left_first :
    (elapsed : ℕ) (ts : ℕ → Timer) (ns : List ℕ)
    → (left elapsed ts ns ≡ [])
      ⊎ ((x : ℕ) × (xs : List ℕ) × (left elapsed ts ns ≡ x ∷ xs)
          × (has x ns ≡ true)
          × (leb (ts x).time elapsed ≡ false))
unfolding left has
left_first elapsed ts [] = inl refl
left_first elapsed ts (n ∷ ns) = elim (Bool-cases (leb (ts n).time elapsed)) [
  | inr later ↦ inr (n, left elapsed ts ns, rw later refl, ground arith, later)
  | inl due ↦ elim (left_first elapsed ts ns) [
    | inl nothing ↦ inl (rw due nothing)
    | inr (x, xs, here, there, later) ↦ inr (x, xs, rw due here, ground (arith, there), later)
  ]
]

-- The wait is not 0.
first_wait-left :
    (elapsed : ℕ) (ts us : ℕ → Timer) (ns queue : List ℕ)
    → queue ≡ left elapsed ts ns
    → ((x : ℕ) → us x ≡ (if has x ns then ticked elapsed (ts x) else ts x))
    → (wait : ℕ) × (first_wait us queue ≡ some wait)
unfolding first_wait
first_wait-left elapsed ts us ns queue at timers = elim (left_first elapsed ts ns) [
  | inl nothing ↦ (0, ap (first_wait us) (at ∙ nothing))
  | inr (x, xs, here, there, later) ↦
      let time : (us x).time ≡ (ts x).time - elapsed =
        ap (λ t. t.time) (rw (there, later) at (timers x)) in
      let some_time : ((us x).time == 0) ≡ false = ground (arith, time) in
      ((us x).time, ap (first_wait us) (at ∙ here) ∙ rw some_time refl)
]

pub tick_handler_end :
    (fuel elapsed : ℕ) (t t' : Timers) (calls : List TimerCall) (wait : ℕ)
    → tick_loop fuel elapsed t t.queue ≡ some (t', calls)
    → first_wait t'.timers t'.queue ≡ some wait
    → tick_handler fuel elapsed t
      ≡ some (
        record t' { ticks = (t'.ticks + elapsed) % 2 ^ 32 },
        calls ++ (tick_prepare elapsed wait ∷ []),
      )
unfolding tick_handler
tick_handler_end fuel elapsed t t' calls wait run first =
    ap (tick_end elapsed) run ∙ ap (counted elapsed t' calls) first

-- `_tick_handler` of a list of different timers, those that are due not periodic, ends after a round
-- for each timer. It ends just the timers that are due, sets their events in order, takes the ticks from
-- the others, which stay in their order, counts the ticks, and asks for the next tick when the first
-- timer that is left is due, if there is one.
pub tick_handler-Ticked :
    (fuel elapsed : ℕ) (t : Timers)
    → length t.queue ≤ fuel
    → ((x : ℕ) → occurs x t.queue ≤ 1)
    → OneShot elapsed t.timers t.queue
    → (t' : Timers) × (wait : ℕ) × (tick_handler fuel elapsed t
        ≡ some (
          t',
          map set_event (expired elapsed t.timers t.queue) ++ (tick_prepare elapsed wait ∷ []),
        ))
      × (t'.queue ≡ left elapsed t.timers t.queue)
      × ((x : ℕ)
          → t'.timers x ≡ (if has x t.queue then ticked elapsed (t.timers x) else t.timers x))
      × (t'.ticks ≡ (t.ticks + elapsed) % 2 ^ 32)
      × (first_wait t'.timers t'.queue ≡ some wait)
tick_handler-Ticked fuel elapsed t enough once one_shot =
    let (t', run, is) =
      tick_loop-Ticked elapsed t.timers fuel t [] t.queue enough refl once (λ x o. refl) one_shot in
    let (wait, first) =
      first_wait-left elapsed t.timers t'.timers t.queue t'.queue is.queue is.timers in
    (
      record t' { ticks = (t'.ticks + elapsed) % 2 ^ 32 },
      wait,
      tick_handler_end fuel elapsed t t' _ wait run first,
      is.queue,
      is.timers,
      ap (λ n. (n + elapsed) % 2 ^ 32) is.ticks,
      first,
    )
