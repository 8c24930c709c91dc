-- ===== src/DateTime/Days.antt =====
-- Dates to day numbers and back.
use ex_os.Base.{
  ℕ, ◌+◌, ◌-◌, ◌*◌, ◌/◌, ◌%◌, ◌≤◌, ◌<◌, ◌≡◌, refl, inl, inr, ◌∙◌, true, false, arith, Bool-cases,
}
use ex_os.Base.Int.{pos, ◌+ℤ◌, pos_laws, pos-add, pos-sub}
use ex_os.Base.Words.{wrap, div_int, mod_int}
use ex_os.DateTime.{
  DateTime, biy, february, month_tests, walk_months, day_of_year, date2days, days2date,
}
use ex_os.DateTime.Calendar.{days_before, is_day, is_missed, is_day_pos, walk_months-days_before}

-- The day number of a date whose parts are not zero, in natural numbers.
abbrev pub doy : DateTime → ℕ
doy d = days_before (february d.year) d.month + (d.day - 1)

abbrev pub day_number : ℕ → ℕ → ℕ
day_number years doy =
    97 * (years / 400) + 24 * (years % 400 / 100) + years % 400 % 100 / 4 + years * 365 + doy

pub date2days-pos :
    (d : DateTime) → 1 ≤ d.year → 1 ≤ d.day → date2days d ≡ pos (day_number (d.year - 1) (doy d))
unfolding date2days day_of_year div_int mod_int
date2days-pos d y h = rw (pos-sub d.year 1 y, pos-sub d.day 1 h) (simp pos_laws)

-- The years of a day number.
pub year_of :
    (d : DateTime) (years doy : ℕ)
    → years < 65535
    → doy < 365
    → (days2date d (pos (day_number years doy))).year ≡ years + 1
unfolding days2date div_int mod_int wrap
year_of d years doy h k = simp pos_laws (omega arith)

-- The month tests see the day of the year.
pub rest_of :
    (d : DateTime) (years doy : ℕ)
    → doy < 365
    → let r = days2date d (pos (day_number years doy)) in
      let (month, left) = walk_months (month_tests (february r.year)) 1 (pos doy) in
      (r.month ≡ month) × (r.day ≡ wrap 256 (left +ℤ pos 1))
unfolding days2date div_int mod_int
rest_of d years doy k =
    let e : day_number years doy % 146097 % 36524 % 1461 % 365 ≡ doy = omega arith in
    rw e (refl, refl)

pub february_cases : (y : ℕ) → (b : ℕ) × (b < 2) × (february y ≡ 28 + b)
february_cases y = elim (Bool-cases (biy y)) [
  | inl long ↦ (1, omega arith, rw long)
  | inr short ↦ (0, omega arith, rw short)
]

-- A date that the code can name: not one of the two that the month tests miss, nor the 366th of
-- its year.
pub record IsNamed (d : DateTime) : Type 0 where
  pub after_christ : 1 ≤ d.year
  pub in_ushort : d.year < 65536
  pub valid : is_day (february d.year) d.month d.day ≡ true
  pub not_missed : is_missed d.month d.day ≡ false
  pub early : doy d < 365

module _ (d : DateTime) (n : IsNamed d) where
  open n use {after_christ, in_ushort, valid, not_missed, early}

  day_pos : (1 ≤ d.day) × (d.day < 32)
  day_pos =
      let (b, small, e) = february_cases d.year in is_day_pos b d.month d.day small (rw e at valid)

  walk_named :
      walk_months (month_tests (february d.year)) 1 (pos (doy d)) ≡ (d.month, pos (d.day - 1))
  walk_named =
      let (b, small, e) = february_cases d.year in
      rw e (walk_months-days_before b d.month d.day small (rw e at valid) not_missed)

  -- A date that the code can name comes back from its day number.
  pub days2date-date2days :
      (e : DateTime)
      → let r = days2date e (date2days d) in
        (r.year ≡ d.year) × (r.month ≡ d.month) × (r.day ≡ d.day)
  unfolding wrap
  days2date-date2days e =
      let years : (days2date e (pos (day_number (d.year - 1) (doy d)))).year ≡ d.year =
        year_of e (d.year - 1) (doy d) (omega arith) early ∙ omega arith in
      let (month, day) = rw (years, walk_named) at (rest_of e (d.year - 1) (doy d) early) in
      rw (date2days-pos d after_christ day_pos.0)
        (years, month, day ∙ rw (pos-add (d.day - 1) 1) (omega (arith, day_pos)))
