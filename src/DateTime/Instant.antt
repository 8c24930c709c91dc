-- ===== src/DateTime/Instant.antt =====
-- `_seek` as addition of seconds to a date and a time of day.
use ex_os.Base.{ℕ, ◌+◌, ◌*◌, ◌/◌, ◌%◌, ◌<◌, ◌≡◌, refl, ◌⊎◌, inl, inr, ap, arith}
use ex_os.Base.Int.{ℤ, pos, pos_part, neg_part, ◌+ℤ◌, ◌*ℤ◌, +ℤ_parts, *ℤ-pos_parts, eq_of_parts}
use ex_os.Base.Words.{wrap, uchar}
use ex_os.DateTime.{DateTime, divrem, seek, date2days, days2date, seconds_in_day}
use ex_os.DateTime.Seek.{divrem_lem}

abbrev pub seconds_of_day : DateTime → ℕ
seconds_of_day d = d.seconds + 60 * d.minutes + 3600 * d.hours

-- One carry: `r` stays in its field, `q` goes to the next.
record Carries (z : ℤ) (m : ℕ) (q r : ℤ) : Type 0 where
  rest : neg_part r ≡ 0
  fits : pos_part r < m
  total : pos_part q * m + pos_part r + neg_part z ≡ neg_part q * m + pos_part z

divrem-Carries : (z : ℤ) (m : ℕ) → 0 < m → let (q, r) = divrem z m in Carries z m q r
divrem-Carries z m h =
    let (a, b, c) = divrem_lem z m h in
    let (q, r) = divrem z m in
    record {
      rest = ap neg_part a;
      fits = b;
      total = omega (
        arith,
        ap neg_part a,
        ap pos_part c,
        ap neg_part c,
        +ℤ_parts (q *ℤ pos m) r,
        *ℤ-pos_parts q m,
      );
    }

-- The three carries add up.
carry_total :
    (s m h t : ℕ) (z q q1 r1 q2 r2 q3 r3 : ℤ)
    → Carries (pos s +ℤ z) 60 q1 r1
    → Carries (q1 +ℤ pos m) 60 q2 r2
    → Carries (q2 +ℤ pos h) 24 q3 r3
    → pos (s + 60 * m + 3600 * h) +ℤ z ≡ q *ℤ pos 86400 +ℤ pos t
    → pos_part q3 * 86400
        + (pos_part r1 + 60 * pos_part r2 + 3600 * pos_part r3)
        + neg_part q * 86400
      ≡ neg_part q3 * 86400 + t + pos_part q * 86400
carry_total s m h t z q q1 r1 q2 r2 q3 r3 c1 c2 c3 e = omega (
  arith,
  ap pos_part e,
  ap neg_part e,
  +ℤ_parts (pos (s + 60 * m + 3600 * h)) z,
  +ℤ_parts (q *ℤ pos 86400) (pos t),
  *ℤ-pos_parts q 86400,
  +ℤ_parts (pos s) z,
  +ℤ_parts q1 (pos m),
  +ℤ_parts q2 (pos h),
)

one_part : (z : ℤ) → (neg_part z ≡ 0) ⊎ (pos_part z ≡ 0)
one_part z = ground arith

-- Days and a time of day below a day are given by their sum.
days_unique :
    (x y : ℤ) (r t : ℕ)
    → r < 86400
    → t < 86400
    → pos_part x * 86400 + r + neg_part y * 86400 ≡ neg_part x * 86400 + t + pos_part y * 86400
    → (x ≡ y) × (r ≡ t)
days_unique x y r t h k e = elim (one_part x) [
  | inl a ↦ elim (one_part y) [
    | inl b ↦ (eq_of_parts x y (omega arith), omega arith)
    | inr b ↦ (eq_of_parts x y (omega arith), omega arith)
  ]
  | inr a ↦ elim (one_part y) [
    | inl b ↦ (eq_of_parts x y (omega arith), omega arith)
    | inr b ↦ (eq_of_parts x y (omega arith), omega arith)
  ]
]

uchar_small : (r : ℤ) → neg_part r ≡ 0 → pos_part r < 256 → uchar r ≡ pos_part r
unfolding wrap
uchar_small r h k = ground arith

-- `d` at the time of day `t`, in seconds since midnight
abbrev pub at_time : DateTime → ℕ → DateTime
at_time d t = record d { seconds = t % 60; minutes = t / 60 % 60; hours = t / 3600 }

-- `_seek` adds seconds to a date, forwards and backwards: when the time of day and the seconds are
-- together `q` whole days, which may be negative, and `t` seconds more that are less than a day, then
-- the result is the date of the day number of the date and `q`, at the time of day `t`.
pub seek-days2date :
    (d : DateTime) (seconds q : ℤ) (t : ℕ)
    → pos (seconds_of_day d) +ℤ seconds ≡ q *ℤ pos seconds_in_day +ℤ pos t
    → t < seconds_in_day
    → seek d seconds ≡ days2date (at_time d t) (q +ℤ date2days d)
unfolding seek
seek-days2date d z q t e small =
    let (q1, r1) = divrem (pos d.seconds +ℤ z) 60 in
    let (q2, r2) = divrem (q1 +ℤ pos d.minutes) 60 in
    let (q3, r3) = divrem (q2 +ℤ pos d.hours) 24 in
    let c1 = divrem-Carries (pos d.seconds +ℤ z) 60 (omega arith) in
    let c2 = divrem-Carries (q1 +ℤ pos d.minutes) 60 (omega arith) in
    let c3 = divrem-Carries (q2 +ℤ pos d.hours) 24 (omega arith) in
    let s = uchar_small r1 c1.rest (omega (arith, c1.fits)) in
    let m = uchar_small r2 c2.rest (omega (arith, c2.fits)) in
    let h = uchar_small r3 c3.rest (omega (arith, c3.fits)) in
    let tod = pos_part r1 + 60 * pos_part r2 + 3600 * pos_part r3 in
    let (days, time) =
      days_unique q3 q tod t (omega (arith, c1.fits, c2.fits, c3.fits)) small
        (carry_total d.seconds d.minutes d.hours t z q q1 r1 q2 r2 q3 r3 c1 c2 c3 e) in
    let second : uchar r1 ≡ t % 60 = omega (arith, s, time, c1.fits) in
    let minute : uchar r2 ≡ t / 60 % 60 = omega (arith, m, time, c1.fits, c2.fits) in
    let hour : uchar r3 ≡ t / 3600 = omega (arith, h, time, c1.fits, c2.fits) in
    rw (second, minute, hour, days) refl
