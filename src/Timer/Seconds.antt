-- ===== src/Timer/Seconds.antt =====
-- `exos_timer_time` counts the seconds.
use ex_os.Base.{ℕ, ◌+◌, ◌-◌, ◌*◌, ◌/◌, ◌%◌, ◌^◌, ◌<◌, ◌≡◌, refl, List, [], ◌∷◌, arith}
use ex_os.Timer.{Uptime, uptime}

-- The ticks since the start are `total`.
pub record IsUptime (u : Uptime) (total : ℕ) : Type 0 where
  pub last : u.last_time ≡ total % 2 ^ 32
  pub whole : u.seconds * 1000 + u.fraction_ticks ≡ total
  pub part : u.fraction_ticks < 1000

-- Calls of `___uptime` after so many ticks each.
unfoldable pub uptimes : Uptime → ℕ → List ℕ → Uptime
uptimes u total [] = u
uptimes u total (d ∷ ds) = uptimes (uptime ((total + d) % 2 ^ 32) u) (total + d) ds

unfoldable pub sum : List ℕ → ℕ
sum [] = 0
sum (d ∷ ds) = d + sum ds

abbrev pub AllBelow : ℕ → List ℕ → Type 0
AllBelow k [] = Unit
AllBelow k (d ∷ ds) = (d < k) × AllBelow k ds

uptime-IsUptime :
    (u : Uptime) (total d : ℕ)
    → IsUptime u total
    → d < 4294966296
    → total + d < 4294967296000
    → IsUptime (uptime ((total + d) % 2 ^ 32) u) (total + d)
unfolding uptime
uptime-IsUptime u total d is small room =
    let gap : ((total + d) % 2 ^ 32 + 2 ^ 32 - u.last_time) % 2 ^ 32 ≡ d = omega (arith, is.last) in
    let fraction : (u.fraction_ticks + d) % 2 ^ 32 ≡ u.fraction_ticks + d =
      omega (arith, is.part) in
    let bound : u.seconds + (u.fraction_ticks + d) / 1000 < 2 ^ 32 =
      omega (arith, is.whole, is.part) in
    let seconds : (u.seconds + (u.fraction_ticks + d) / 1000) % 2 ^ 32
        ≡ u.seconds + (u.fraction_ticks + d) / 1000 =
      omega (arith, bound) in
    record {
      last = refl;
      whole = rw (gap, fraction, seconds) (omega (arith, is.whole));
      part = omega arith;
    }

uptimes-IsUptime :
    (u : Uptime) (total : ℕ) (ds : List ℕ) (end : ℕ)
    → end ≡ total + sum ds
    → IsUptime u total
    → AllBelow 4294966296 ds
    → end < 4294967296000
    → IsUptime (uptimes u total ds) end
unfolding uptimes sum
uptimes-IsUptime u total [] end all is small room =
    let same : total ≡ end = omega arith in rw same at is
uptimes-IsUptime u total (d ∷ ds) end all is (small, smalls) room =
    uptimes-IsUptime (uptime ((total + d) % 2 ^ 32) u) (total + d) ds end (omega arith)
      (uptime-IsUptime u total d is small (omega arith)) smalls room

abbrev pub at_start : Uptime
at_start = record { last_time = 0; seconds = 0; fraction_ticks = 0 }

-- `exos_timer_time` gives the ticks since the start by 1000, though `_ticks` wraps around, if it is
-- called before 2 ^ 32 - 1000 more ticks have passed, each time, and less than 2 ^ 32 seconds
-- have passed since the start.
pub uptimes_lem :
    (ds : List ℕ) (d : ℕ)
    → AllBelow 4294966296 ds
    → d < 4294966296
    → sum ds + d < 4294967296000
    → (uptime ((sum ds + d) % 2 ^ 32) (uptimes at_start 0 ds)).seconds ≡ (sum ds + d) / 1000
uptimes_lem ds d smalls small room =
    let before =
      uptimes-IsUptime at_start 0 ds (sum ds) (omega arith)
        (record { last = refl; whole = refl; part = omega arith }) smalls (omega arith) in
    let is = uptime-IsUptime (uptimes at_start 0 ds) (sum ds) d before small room in
    omega (arith, is.whole, is.part)
