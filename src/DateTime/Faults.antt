-- ===== src/DateTime/Faults.antt =====
-- Where the calendar of the code differs from the Gregorian one.
use ex_os.Base.{ℕ, zero, suc, ◌+◌, ◌-◌, ◌%◌, ◌≤◌, ◌<◌, ◌≡◌, refl, ◌≢◌, ◌∙◌, ap, arith}
use ex_os.Base.Int.{pos, negsuc, ◌+ℤ◌, ◌-ℤ◌}
use ex_os.Base.Words.{wrap}
use ex_os.DateTime.{
  DateTime, biy, february, fall_through, month_tests, walk_months, date2days, days2date,
}
use ex_os.DateTime.Days.{day_number, doy, date2days-pos, year_of, rest_of, february_cases}
use ex_os.DateTime.Calendar.{days_before}

abbrev pub on : DateTime → ℕ → ℕ → ℕ → DateTime
on d year month day = record d { year = year; month = month; day = day }

-- A year that is no multiple of 4 gets a 29th of February: its last day has the number of the
-- first day of the next year, so the two dates are one to the code.
pub new_year_collision :
    (d : DateTime) (y : ℕ)
    → 1 ≤ y
    → y % 4 ≢ 0
    → date2days (on d y 12 31) ≡ date2days (on d (y + 1) 1 1)
unfolding biy fall_through
new_year_collision d y h ne =
    let feb : february y ≡ 29 = ground arith in
    rw
      (
        date2days-pos (on d y 12 31) h (omega arith),
        date2days-pos (on d (y + 1) 1 1) (omega arith) (omega arith),
      )
      (ap pos (rw feb (omega arith)))

-- The day of the year that the month tests are given, and what they make of it.
missed_walk :
    (b : ℕ)
    → b < 2
    → (walk_months (month_tests (28 + b)) 1 (pos (days_before (28 + b) 8 + 30)) ≡ (9, negsuc 0))
      × (walk_months (month_tests (28 + b)) 1 (pos (days_before (28 + b) 10 + 30)) ≡ (11, negsuc 0))
unfolding fall_through walk_months ◌-ℤ◌
missed_walk zero h = (refl, refl)
missed_walk (suc zero) h = (refl, refl)
missed_walk (suc (suc b)) h = absurd (omega arith)

missed_short :
    (b : ℕ) → b < 2 → (days_before (28 + b) 8 + 30 < 365) × (days_before (28 + b) 10 + 30 < 365)
unfolding fall_through
missed_short b h = omega arith

lost_day :
    (d e : DateTime) (y m : ℕ)
    → 1 ≤ y
    → y < 65536
    → days_before (february y) m + 30 < 365
    → walk_months (month_tests (february y)) 1 (pos (days_before (february y) m + 30))
      ≡ (m + 1, negsuc 0)
    → let r = days2date e (date2days (on d y m 31)) in
      (r.year ≡ y) × (r.month ≡ m + 1) × (r.day ≡ 0)
unfolding wrap ◌+ℤ◌
lost_day d e y m h k short walk =
    let years : (days2date e (pos (day_number (y - 1) (doy (on d y m 31))))).year ≡ y =
      year_of e (y - 1) (doy (on d y m 31)) (omega arith) short ∙ omega arith in
    let (month, day) = rw (years, walk) at (rest_of e (y - 1) (doy (on d y m 31)) short) in
    rw (date2days-pos (on d y m 31) h (omega arith)) (years, month, day)

-- The last days of August and October come back as day 0 of the month after.
pub lost_days :
    (d e : DateTime) (y : ℕ)
    → 1 ≤ y
    → y < 65536
    → (let r = days2date e (date2days (on d y 8 31)) in (r.year ≡ y) × (r.month ≡ 9) × (r.day ≡ 0))
      × (let r = days2date e (date2days (on d y 10 31)) in
          (r.year ≡ y) × (r.month ≡ 11) × (r.day ≡ 0))
lost_days d e y h k =
    let (b, small, eq) = february_cases y in
    let (aug, oct) = missed_walk b small in
    let (aug_short, oct_short) = missed_short b small in
    (
      lost_day d e y 8 h k (rw eq aug_short) (rw eq aug),
      lost_day d e y 10 h k (rw eq oct_short) (rw eq oct),
    )
