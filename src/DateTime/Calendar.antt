-- ===== src/DateTime/Calendar.antt =====
-- Days within a year: `exos_datetime_day_of_year` against the month tests of `_days2date`.
use ex_os.Base.{
  ℕ, ◌+◌, ◌-◌, ◌≤◌, ◌<◌, ◌≡◌, refl, Bool, true, false, not, ◌&&◌, ◌||◌, arith, leb, ◌==◌,
  if◌then◌else◌,
}
use ex_os.Base.Int.{ℤ, pos, negsuc, ◌+ℤ◌, ◌-ℤ◌}
use ex_os.Base.Words.{wrap, uchar}
use ex_os.Base.Table.{all_below, all_below-tested, passes}
use ex_os.DateTime.{fall_through, month_cases, month_tests, walk_months}

-- Days before a month in a year whose February has `feb` days.
abbrev pub days_before : ℕ → ℕ → ℕ
days_before feb m = fall_through m false (month_cases feb)

abbrev pub month_length : ℕ → ℕ → ℕ
month_length feb m =
    if m == 2 then feb else if m == 4 || m == 6 || m == 9 || m == 11 then 30 else 31

-- The two days that the month tests miss.
abbrev pub is_missed : ℕ → ℕ → Bool
is_missed m day = (m == 8 && day == 31) || (m == 10 && day == 31)

abbrev pub is_day : ℕ → ℕ → ℕ → Bool
is_day feb m day = leb 1 m && leb m 12 && leb 1 day && leb day (month_length feb m)

same_int : ℤ → ℤ → Bool
same_int (pos a) (pos b) = a == b
same_int (negsuc a) (negsuc b) = a == b
same_int a b = false

same_int_eq : (a b : ℤ) → same_int a b ≡ true → a ≡ b
unfolding same_int
same_int_eq a b h = ground arith

same_walk : ℕ × ℤ → ℕ → ℤ → Bool
unfolding same_int
same_walk (m', left') m left = m' == m && same_int left' left

same_walk_eq : (r : ℕ × ℤ) (m : ℕ) (left : ℤ) → same_walk r m left ≡ true → r ≡ (m, left)
unfolding same_walk
same_walk_eq (m', left') m left h = ground arith

walk_ok : ℕ → ℕ → ℕ → Bool
walk_ok feb m day =
    if is_day feb m day && not (is_missed m day)
    then same_walk (walk_months (month_tests feb) 1 (pos (days_before feb m + (day - 1)))) m
        (pos (day - 1))
    else true

walk_table :
    all_below 2 (λ b. all_below 13 (λ m. all_below 32 (λ day. walk_ok (28 + b) m day))) ≡ true
unfolding all_below passes walk_ok same_walk fall_through walk_months ◌-ℤ◌
walk_table = refl

walk_lem : (b m day : ℕ) → b < 2 → m < 13 → day < 32 → walk_ok (28 + b) m day ≡ true
walk_lem b m day p q r =
    all_below-tested (λ day. walk_ok (28 + b) m day) 32 day
      (all_below-tested (λ m. all_below 32 (λ day. walk_ok (28 + b) m day)) 13 m
        (all_below-tested (λ b. all_below 13 (λ m. all_below 32 (λ day. walk_ok (28 + b) m day))) 2
          b walk_table p)
        q)
      r

is_day_bounds : (feb m day : ℕ) → feb < 32 → is_day feb m day ≡ true → (m < 13) × (day < 32)
is_day_bounds feb m day f h = ground arith

-- The tests find the month and the day again, but for the last days of August and October.
pub walk_months-days_before :
    (b m day : ℕ)
    → b < 2
    → is_day (28 + b) m day ≡ true
    → is_missed m day ≡ false
    → walk_months (month_tests (28 + b)) 1 (pos (days_before (28 + b) m + (day - 1)))
      ≡ (m, pos (day - 1))
unfolding walk_ok
walk_months-days_before b m day p q r =
    let (small, short) = is_day_bounds (28 + b) m day (omega arith) q in
    same_walk_eq _ m (pos (day - 1)) (rw (q, r) at (walk_lem b m day p small short))

pub is_day_pos : (b m day : ℕ) → b < 2 → is_day (28 + b) m day ≡ true → (1 ≤ day) × (day < 32)
is_day_pos b m day p h = ground arith

back_ok : ℕ → ℕ → Bool
unfolding same_int
back_ok feb doy =
    let (m, left) = walk_months (month_tests feb) 1 (pos doy) in
    same_int (pos (days_before feb m) +ℤ (pos (uchar (left +ℤ pos 1)) -ℤ pos 1)) (pos doy)

back_table : all_below 2 (λ b. all_below 365 (λ doy. back_ok (28 + b) doy)) ≡ true
unfolding all_below passes back_ok fall_through walk_months wrap ◌-ℤ◌ ◌+ℤ◌
back_table = refl

-- What the tests find has the day of the year that they were given, day 0 of a month included.
pub days_before-walk_months :
    (b doy : ℕ)
    → b < 2
    → doy < 365
    → let (m, left) = walk_months (month_tests (28 + b)) 1 (pos doy) in
      pos (days_before (28 + b) m) +ℤ (pos (uchar (left +ℤ pos 1)) -ℤ pos 1) ≡ pos doy
unfolding back_ok
days_before-walk_months b doy p q = same_int_eq _ (pos doy) (
    all_below-tested (λ doy. back_ok (28 + b) doy) 365 doy
      (all_below-tested (λ b. all_below 365 (λ doy. back_ok (28 + b) doy)) 2 b back_table p) q)
