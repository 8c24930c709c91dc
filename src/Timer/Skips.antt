-- ===== src/Timer/Skips.antt =====
-- A periodic timer that is put back in the list moves the loop of `_tick_handler` with it.
use ex_os.Base.{
  ℕ, suc, ◌+◌, ◌%◌, ◌^◌, ◌<◌, ◌≤◌, ◌≡◌, ◌≢◌, ◌∙◌, refl, ap, true, false, some, List, [], ◌∷◌, ◌++◌,
  arith, ltb, leb, ◌==◌,
}
use ex_os.LinkedList.Links.{All}
use ex_os.Thread.{without, write_at}
use ex_os.Thread.Ready.{occurs_cons, occurs}
use ex_os.Timer.{
  Timer, reset_event, tick_prepare, Timers, enqueue, behind, tick_step, tick_loop, first_wait,
  tick_handler,
}
use ex_os.Timer.Rounds.{without_absent}
use ex_os.Timer.Ticks.{tick_handler_end}

-- A timer that is due no earlier than the others goes to the end.
enqueue_last :
    (ts : ℕ → Timer) (n : ℕ) (ns : List ℕ)
    → All (λ x. (ts x).time ≤ (ts n).time) ns
    → enqueue ts n ns ≡ ns ++ (n ∷ [])
unfolding enqueue
enqueue_last ts n [] le = refl
enqueue_last ts n (x ∷ xs) (le, les) =
    let before : ltb (ts n).time (ts x).time ≡ false = ground arith in
    rw (before, enqueue_last ts n xs les) refl

behind_last : (n : ℕ) (ns : List ℕ) → occurs n ns ≡ 0 → behind n (ns ++ (n ∷ [])) ≡ []
unfolding behind occurs
behind_last n [] e = let same : (n == n) ≡ true = ground arith in rw same refl
behind_last n (x ∷ xs) e =
    let other : (x == n) ≡ false = ground arith in rw other (behind_last n xs (omega arith))

-- A property of the members is one of the list's members under another map that agrees there.
All-written :
    (ts : ℕ → Timer) (n : ℕ) (v : Timer) (ns : List ℕ)
    → occurs n ns ≡ 0
    → All (λ x. (ts x).time ≤ v.time) ns
    → All (λ x. (write_at ts n v x).time ≤ (write_at ts n v n).time) ns
unfolding occurs
All-written ts n v [] e le = tt
All-written ts n v (x ∷ xs) e (le, les) =
    let other : (x == n) ≡ false = ground arith in
    let same : (n == n) ≡ true = ground arith in
    (rw (other, same) le, All-written ts n v xs (omega arith) les)

first_wait-append :
    (ts us : ℕ → Timer) (n : ℕ) (ns : List ℕ)
    → occurs n ns ≡ 0
    → ((x : ℕ) → occurs x ns ≢ 0 → us x ≡ ts x)
    → All (λ x. 0 < (ts x).time) ns
    → 0 < (us n).time
    → (wait : ℕ) × (first_wait us (ns ++ (n ∷ [])) ≡ some wait)
unfolding first_wait occurs
first_wait-append ts us n [] apart same times time =
    let some_time : ((us n).time == 0) ≡ false = ground arith in ((us n).time, rw some_time refl)
first_wait-append ts us n (x ∷ xs) apart same (first, times) time =
    let here : us x ≡ ts x = same x (ground arith) in
    let some_time : ((us x).time == 0) ≡ false = rw here (ground arith) in
    ((us x).time, rw some_time refl)

-- The round of a periodic timer that goes to the end is the last one.
abbrev reloaded : Timers → ℕ → ℕ → Timer
reloaded t n = write_at t.timers n (record (t.timers n) { time = (t.timers n).period })

skip_step :
    (elapsed : ℕ) (t : Timers) (n : ℕ) (ns : List ℕ)
    → t.queue ≡ n ∷ ns
    → occurs n ns ≡ 0
    → (t.timers n).time ≤ elapsed
    → 0 < (t.timers n).period
    → All (λ x. (t.timers x).time ≤ (t.timers n).period) ns
    → tick_step elapsed t n ns
      ≡ (record t { timers = reloaded t n; queue = ns ++ (n ∷ []) }, reset_event n ∷ [], [])
unfolding tick_step
skip_step elapsed t n ns at apart due periodic late =
    let same : (n == n) ≡ true = ground arith in
    let now : leb (t.timers n).time elapsed ≡ true = ground arith in
    let again : ((t.timers n).period == 0) ≡ false = ground arith in
    let out : without n t.queue ≡ ns = ap (without n) at ∙ rw same (without_absent n ns apart) in
    let back : enqueue (reloaded t n) n ns ≡ ns ++ (n ∷ []) =
      enqueue_last (reloaded t n) n ns (All-written t.timers n _ ns apart late) in
    rw (now, again, out, back, behind_last n ns apart) refl

-- The first timer is due and periodic, and every other one has some time left and no more than its
-- period. Then `_tick_handler` puts it at the end and stops there: no ticks are taken from the other
-- timers, and none of those that are due ends, though the ticks are counted.
pub tick_handler_skips :
    (fuel elapsed : ℕ) (t : Timers) (n : ℕ) (ns : List ℕ)
    → t.queue ≡ n ∷ ns
    → occurs n ns ≡ 0
    → (t.timers n).time ≤ elapsed
    → 0 < (t.timers n).period
    → All (λ x. 0 < (t.timers x).time) ns
    → All (λ x. (t.timers x).time ≤ (t.timers n).period) ns
    → (t' : Timers) × (wait : ℕ) × (tick_handler (suc fuel) elapsed t
        ≡ some (t', reset_event n ∷ tick_prepare elapsed wait ∷ []))
      × (t'.queue ≡ ns ++ (n ∷ []))
      × ((x : ℕ) → x ≢ n → t'.timers x ≡ t.timers x)
      × (t'.ticks ≡ (t.ticks + elapsed) % 2 ^ 32)
unfolding tick_loop
tick_handler_skips fuel elapsed t n ns at apart due periodic times late =
    let same : (n == n) ≡ true = ground arith in
    let t1 = record t { timers = reloaded t n; queue = ns ++ (n ∷ []) } in
    let (wait, first) =
      first_wait-append t.timers (reloaded t n) n ns apart
        (λ x o. rw (occurs_cons x n ns apart o) refl) times (rw same periodic) in
    let step = skip_step elapsed t n ns at apart due periodic late in
    (
      record t1 { ticks = (t.ticks + elapsed) % 2 ^ 32 },
      wait,
      tick_handler_end (suc fuel) elapsed t t1 (reset_event n ∷ []) wait
          (ap (tick_loop (suc fuel) elapsed t) at ∙ rw step refl) first,
      refl,
      (λ x ne. let other : (x == n) ≡ false = ground arith in rw other refl),
      refl,
    )
