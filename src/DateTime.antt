-- ===== src/DateTime.antt =====
-- exos/kernel/datetime.c: calendar dates, day numbers, and the wall clock of the kernel.
-- The code computes in `int`; the model computes in ℤ, so it is about arguments small enough that
-- no `int` overflows. A field of `EXOS_DATETIME` is a number below the size of its C type.
mod Calendar
mod Days
mod Seek
mod Instant
mod Faults
mod Tests
use ex_os.Base.{ℕ, ◌+◌, ◌%◌, Bool, true, false, not, ◌||◌, List, [], ◌∷◌, ◌==◌, if◌then◌else◌}
use ex_os.Base.Int.{ℤ, pos, negsuc, ◌+ℤ◌, ◌-ℤ◌, ◌*ℤ◌, ltb_ℤ}
use ex_os.Base.Words.{uchar, ushort, div_int, mod_int}

pub record DateTime : Type 0 where
  pub seconds : ℕ
  pub minutes : ℕ
  pub hours : ℕ
  pub day_of_week : ℕ
  pub day : ℕ
  pub month : ℕ
  pub year : ℕ

pub record TimeSpan : Type 0 where
  pub days : ℤ
  pub milliseconds : ℤ

-- `_biy`: whether February gets 29 days. `year & 3` is `year % 4`.
pub biy : ℕ → Bool
biy year = if year % 4 == 0 then (if year % 100 == 0 then year % 400 == 0 else true) else true

abbrev pub february : ℕ → ℕ
february year = if biy year then 29 else 28

-- A C `switch` whose cases fall through: the labels in order, each with what its line adds.
pub fall_through : ℕ → Bool → List (ℕ × ℕ) → ℕ
fall_through m entered [] = 0
fall_through m entered ((label, n) ∷ cases) =
    (if entered || m == label then n else 0) + fall_through m (entered || m == label) cases

abbrev pub month_cases : ℕ → List (ℕ × ℕ)
month_cases feb =
    (12, 30)
    ∷ (11, 31)
    ∷ (10, 30)
    ∷ (9, 31)
    ∷ (8, 31)
    ∷ (7, 30)
    ∷ (6, 31)
    ∷ (5, 30)
    ∷ (4, 31)
    ∷ (3, feb)
    ∷ (2, 31)
    ∷ []

-- `exos_datetime_day_of_year`, from 0.
pub day_of_year : DateTime → ℤ
unfolding fall_through
day_of_year d =
    pos (fall_through d.month false (month_cases (february d.year))) +ℤ (pos d.day -ℤ pos 1)

-- `_date2days`: days since the first of January of the year 1.
pub date2days : DateTime → ℤ
date2days d =
    let years = pos d.year -ℤ pos 1 in
    let qc = div_int years 400 in
    let ry = mod_int years 400 in
    let c = div_int ry 100 in
    let by = div_int (mod_int ry 100) 4 in
    (pos 97 *ℤ qc +ℤ pos 24 *ℤ c +ℤ by) +ℤ years *ℤ pos 365 +ℤ day_of_year d

-- The tests of `_days2date` in their nesting: each is `days >= test`, and then `days -= length`.
abbrev pub month_tests : ℕ → List (ℕ × ℕ)
month_tests feb =
    (31, 31)
    ∷ (feb, feb)
    ∷ (31, 31)
    ∷ (30, 30)
    ∷ (31, 31)
    ∷ (30, 30)
    ∷ (31, 31)
    ∷ (30, 31)
    ∷ (30, 30)
    ∷ (30, 31)
    ∷ (30, 30)
    ∷ []

pub walk_months : List (ℕ × ℕ) → ℕ → ℤ → ℕ × ℤ
walk_months [] month days = (month, days)
walk_months ((test, len) ∷ tests) month days =
    if ltb_ℤ days (pos test) then (month, days) else walk_months tests (month + 1) (days -ℤ pos len)

-- `datetime->Year += (days / period) * n`
abbrev pub add_years : ℕ → ℤ → ℕ → ℕ → ℕ
add_years year days period n = ushort (pos year +ℤ div_int days period *ℤ pos n)

-- `_days2date`: sets the four fields of the date, and leaves those of the time.
pub days2date : DateTime → ℤ → DateTime
unfolding walk_months
days2date d days =
    let y1 = add_years 1 days 146097 400 in
    let d1 = mod_int days 146097 in
    let y2 = add_years y1 d1 36524 100 in
    let d2 = mod_int d1 36524 in
    let y3 = add_years y2 d2 1461 4 in
    let d3 = mod_int d2 1461 in
    let y4 = add_years y3 d3 365 1 in
    let d4 = mod_int d3 365 in
    let (month, left) = walk_months (month_tests (february y4)) 1 d4 in
    record d {
      day_of_week = uchar (mod_int (days +ℤ pos 1) 7);
      year = y4;
      month = month;
      day = uchar (left +ℤ pos 1);
    }

abbrev pub is_nonzero : ℤ → Bool
is_nonzero (pos n) = not (n == 0)
is_nonzero (negsuc n) = true

-- `_divrem`: the quotient that goes back through `pd`, and the remainder.
pub divrem : ℤ → ℕ → ℤ × ℤ
divrem d m =
    let q = div_int d m in
    let rem = mod_int d m in
    if ltb_ℤ d (pos 0)
    then (if is_nonzero rem then (q -ℤ pos 1, rem +ℤ pos m) else (q, rem))
    else (if ltb_ℤ d (pos m) then (pos 0, d) else (q, rem))

-- `_seek`: `seconds` after `date1`. Every field of `*date2` is written, and a field of `*date1` is
-- read before its namesake is written, so the two may be one object.
pub seek : DateTime → ℤ → DateTime
unfolding divrem date2days days2date
seek date1 seconds =
    let (q1, s) = divrem (pos date1.seconds +ℤ seconds) 60 in
    let (q2, m) = divrem (q1 +ℤ pos date1.minutes) 60 in
    let (q3, h) = divrem (q2 +ℤ pos date1.hours) 24 in
    let clock = record date1 { seconds = uchar s; minutes = uchar m; hours = uchar h } in
    days2date clock (q3 +ℤ date2days date1)

abbrev pub seconds_in_day : ℕ
seconds_in_day = 86400

-- `exos_datetime_seek`
pub datetime_seek : DateTime → TimeSpan → DateTime
unfolding seek
datetime_seek base elapsed =
    seek base (div_int elapsed.milliseconds 1000 +ℤ elapsed.days *ℤ pos seconds_in_day)

-- The statics `_boot` and `_seconds`.
pub record Clock : Type 0 where
  pub boot : DateTime
  pub elapsed : ℤ

-- `exos_datetime_boot_setup`
pub boot_setup : DateTime → Clock → Clock
unfolding seek
boot_setup d c = record c { boot = seek d (pos 0 -ℤ c.elapsed) }

-- `exos_datetime_now`
pub now : Clock → DateTime
unfolding seek
now c = seek c.boot c.elapsed

-- `__timer_second_tick`
pub second_tick : Clock → Clock
second_tick c = record c { elapsed = c.elapsed +ℤ pos 1 }
