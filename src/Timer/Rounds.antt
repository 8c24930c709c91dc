-- ===== src/Timer/Rounds.antt =====
-- The rounds of the loop of `_tick_handler` over timers that are not periodic, or not due.
use ex_os.Base.{
  ℕ, zero, suc, ◌+◌, ◌-◌, ◌≤◌, ◌≡◌, ◌≢◌, ◌∙◌, refl, sym, ap, inl, inr, Bool, true, false, some,
  List, [], ◌∷◌, ◌++◌, map, append_assoc, arith, leb, ◌==◌, if◌then◌else◌, Bool-cases, length,
}
use ex_os.LinkedList.Links.{All}
use ex_os.LinkedList.Loops.{has}
use ex_os.Thread.{without, write_at}
use ex_os.Thread.Ready.{occurs_cons, occurs, occurs-append}
use ex_os.Timer.{timer_finished, Timer, TimerCall, set_event, Timers, tick_step, tick_loop}

-- The timers that are due, and the others.
unfoldable pub expired : ℕ → (ℕ → Timer) → List ℕ → List ℕ
expired elapsed ts [] = []
expired elapsed ts (n ∷ ns) =
    let rest = expired elapsed ts ns in if leb (ts n).time elapsed then n ∷ rest else rest

unfoldable pub left : ℕ → (ℕ → Timer) → List ℕ → List ℕ
left elapsed ts [] = []
left elapsed ts (n ∷ ns) =
    let rest = left elapsed ts ns in if leb (ts n).time elapsed then rest else n ∷ rest

-- A timer that is due ends, any other has less time.
abbrev pub ticked : ℕ → Timer → Timer
ticked elapsed t =
    if leb t.time elapsed
    then record t { state = timer_finished }
    else record t { time = t.time - elapsed }

-- The timers that are due are not periodic.
abbrev pub OneShot : ℕ → (ℕ → Timer) → List ℕ → Type 0
OneShot elapsed ts ns = All (λ n. (ts n).time ≤ elapsed → (ts n).period ≡ 0) ns

pub without_absent : (n : ℕ) (xs : List ℕ) → occurs n xs ≡ 0 → without n xs ≡ xs
unfolding occurs
without_absent n [] e = refl
without_absent n (x ∷ xs) e =
    let other : (x == n) ≡ false = ground arith in
    rw (other, without_absent n xs (omega arith)) refl

pub without-append : (n : ℕ) (xs ys : List ℕ) → without n (xs ++ ys) ≡ without n xs ++ without n ys
without-append n [] ys = refl
without-append n (x ∷ xs) ys = ground (arith, without-append n xs ys)

has-absent : (n : ℕ) (xs : List ℕ) → occurs n xs ≡ 0 → has n xs ≡ false
unfolding occurs has
has-absent n [] e = refl
has-absent n (x ∷ xs) e = ground (arith, has-absent n xs)

-- A node of a list of different nodes is taken out.
pub without_here :
    (n : ℕ) (kept rest : List ℕ)
    → occurs n (kept ++ (n ∷ rest)) ≤ 1
    → without n (kept ++ (n ∷ rest)) ≡ kept ++ rest
unfolding occurs
without_here n kept rest once =
    let here : (n == n) ≡ true = ground arith in
    let count : occurs n kept + (1 + occurs n rest) ≤ 1 =
      ground (arith, occurs-append n kept (n ∷ rest)) in
    rw
      (
        without-append n kept (n ∷ rest),
        here,
        without_absent n kept (omega arith),
        without_absent n rest (omega arith),
      )
      refl

-- A round for a timer that is not periodic, or not due.
abbrev once_ticked : ℕ → Timers → ℕ → Timers
once_ticked elapsed t n = record t {
  timers = write_at t.timers n (ticked elapsed (t.timers n));
  queue = if leb (t.timers n).time elapsed then without n t.queue else t.queue;
}

tick_step_once :
    (elapsed : ℕ) (t : Timers) (n : ℕ) (rest : List ℕ)
    → ((t.timers n).time ≤ elapsed → (t.timers n).period ≡ 0)
    → tick_step elapsed t n rest ≡ (
      once_ticked elapsed t n,
      (if leb (t.timers n).time elapsed then set_event n ∷ [] else []),
      rest,
    )
unfolding tick_step
tick_step_once elapsed t n rest periodic = elim (Bool-cases (leb (t.timers n).time elapsed)) [
  | inl due ↦
      let ends : ((t.timers n).period == 0) ≡ true = ground (arith, periodic) in rw (due, ends) refl
  | inr later ↦ rw later refl
]

tick_loop_step :
    (elapsed fuel : ℕ) (t t' : Timers) (n : ℕ) (rest : List ℕ) (b : Bool) (calls : List TimerCall)
    → ((t.timers n).time ≤ elapsed → (t.timers n).period ≡ 0)
    → leb (t.timers n).time elapsed ≡ b
    → tick_loop fuel elapsed (once_ticked elapsed t n) rest ≡ some (t', calls)
    → tick_loop (suc fuel) elapsed t (n ∷ rest)
      ≡ some (t', (if b then set_event n ∷ [] else []) ++ calls)
unfolding tick_loop
tick_loop_step elapsed fuel t t' n rest b calls periodic due run =
    let step = tick_step_once elapsed t n rest periodic in rw (step, run, due) refl

-- The timers after the round and what follows it.
timers_after :
    (elapsed : ℕ) (ts us : ℕ → Timer) (n : ℕ) (rest : List ℕ) (x : ℕ) (v : Timer)
    → occurs n rest ≡ 0
    → us n ≡ ts n
    → v ≡ (if has x rest then ticked elapsed (ts x) else write_at us n (ticked elapsed (us n)) x)
    → v ≡ (if has x (n ∷ rest) then ticked elapsed (ts x) else us x)
unfolding has
timers_after elapsed ts us n rest x v apart here after = elim (Bool-cases (n == x)) [
  | inl e ↦
      let same : n ≡ x = ground arith in
      let out : has x rest ≡ false = ap (λ y. has y rest) (sym same) ∙ has-absent n rest apart in
      let back : (x == n) ≡ true = ground arith in
      rw e (rw (out, back, here) at after ∙ ap (λ y. ticked elapsed (ts y)) same)
  | inr e ↦ let back : (x == n) ≡ false = ground arith in rw e (rw back at after)
]

module _ (elapsed : ℕ) (ts : ℕ → Timer) where
  -- What the loop makes of `t` from `rest` on, behind `kept`.
  pub record Ticked (t t' : Timers) (kept rest : List ℕ) : Type 0 where
    pub queue : t'.queue ≡ kept ++ left elapsed ts rest
    pub timers : (x : ℕ) → t'.timers x ≡ (if has x rest then ticked elapsed (ts x) else t.timers x)
    pub ticks : t'.ticks ≡ t.ticks

  pub tick_loop-Ticked :
      (fuel : ℕ) (t : Timers) (kept rest : List ℕ)
      → length rest ≤ fuel
      → t.queue ≡ kept ++ rest
      → ((x : ℕ) → occurs x (kept ++ rest) ≤ 1)
      → ((x : ℕ) → occurs x rest ≢ 0 → t.timers x ≡ ts x)
      → OneShot elapsed ts rest
      → (t' : Timers) × (tick_loop fuel elapsed t rest
          ≡ some (t', map set_event (expired elapsed ts rest)))
        × Ticked t t' kept rest
  unfolding tick_loop expired left occurs has
  tick_loop-Ticked fuel t kept [] enough queue once same one_shot =
      (t, refl, record { queue = queue; timers = λ x. refl; ticks = refl })
  tick_loop-Ticked zero t kept (n ∷ rest) enough queue once same one_shot = absurd (omega arith)
  tick_loop-Ticked (suc fuel) t kept (n ∷ rest) enough queue once same (periodic, one_shot) =
      let here : t.timers n ≡ ts n = same n (ground arith) in
      let apart : occurs n rest ≡ 0 = ground (arith, once n, occurs-append n kept (n ∷ rest)) in
      let t1 = once_ticked elapsed t n in
      let same1 : (x : ℕ) → occurs x rest ≢ 0 → t1.timers x ≡ ts x =
        λ x o. rw (occurs_cons x n rest apart o) (same x (λ z. o (ground (arith, z)))) in
      elim (Bool-cases (leb (ts n).time elapsed)) [
        | inl due ↦
            let now : leb (t.timers n).time elapsed ≡ true = rw here due in
            let (t', run, is) =
              tick_loop-Ticked fuel t1 kept rest (omega arith)
                (rw now (ap (without n) queue ∙ without_here n kept rest (once n)))
                (λ x.
                  omega (arith, once x, occurs-append x kept (n ∷ rest), occurs-append x kept rest))
                same1 one_shot in
            (
              t',
              rw due (tick_loop_step elapsed fuel t t' n rest true _ (rw here periodic) now run),
              record {
                queue = rw due is.queue;
                timers = λ x.
                    timers_after elapsed ts t.timers n rest x (t'.timers x) apart here
                      (is.timers x);
                ticks = is.ticks;
              },
            )
        | inr later ↦
            let now : leb (t.timers n).time elapsed ≡ false = rw here later in
            let (t', run, is) =
              tick_loop-Ticked fuel t1 (kept ++ (n ∷ [])) rest (omega arith)
                (rw now (queue ∙ sym (append_assoc kept (n ∷ []) rest)))
                (λ x. rw (append_assoc kept (n ∷ []) rest) (once x)) same1 one_shot in
            (
              t',
              rw later (tick_loop_step elapsed fuel t t' n rest false _ (rw here periodic) now run),
              record {
                queue = rw later (is.queue ∙ append_assoc kept (n ∷ []) (left elapsed ts rest));
                timers = λ x.
                    timers_after elapsed ts t.timers n rest x (t'.timers x) apart here
                      (is.timers x);
                ticks = is.ticks;
              },
            )
      ]
