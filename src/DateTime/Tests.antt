-- ===== src/DateTime/Tests.antt =====
-- Runs of the calendar, and its theorems at concrete dates.
use ex_os.Base.{◌≡◌, refl, arith}
use ex_os.Base.Int.{pos, negsuc, ◌+ℤ◌, ◌-ℤ◌, ◌*ℤ◌}
use ex_os.Base.Words.{wrap, div_int, mod_int}
use ex_os.DateTime.{DateTime, biy, fall_through, day_of_year, date2days, days2date, seek}
use ex_os.DateTime.Days.{IsNamed, days2date-date2days}
use ex_os.DateTime.Instant.{at_time, seek-days2date}

abbrev thanksgiving : DateTime
thanksgiving = record {
  seconds = 59;
  minutes = 59;
  hours = 23;
  day_of_week = 4;
  day = 26;
  month = 11;
  year = 2026;
}

thanksgiving_days : date2days thanksgiving ≡ pos 739946
unfolding date2days day_of_year fall_through biy div_int mod_int ◌+ℤ◌ ◌-ℤ◌ ◌*ℤ◌
thanksgiving_days = refl

-- The 27th is a Friday (5). The ordinary years' extra day makes it a Saturday.
one_second_later : seek thanksgiving (pos 1) ≡ record {
  seconds = 0;
  minutes = 0;
  hours = 0;
  day_of_week = 6;
  day = 27;
  month = 11;
  year = 2026;
}
unfolding seek day_of_year fall_through biy div_int mod_int wrap ◌+ℤ◌ ◌-ℤ◌ ◌*ℤ◌
one_second_later = refl

thanksgiving-IsNamed : IsNamed thanksgiving
unfolding biy fall_through
thanksgiving-IsNamed = record {
  after_christ = omega arith;
  in_ushort = omega arith;
  valid = refl;
  not_missed = refl;
  early = omega arith;
}

days2date-date2days_example :
    let r = days2date thanksgiving (date2days thanksgiving) in
    (r.year ≡ 2026) × (r.month ≡ 11) × (r.day ≡ 26)
days2date-date2days_example = days2date-date2days thanksgiving thanksgiving-IsNamed thanksgiving

-- 59 minutes and 59 seconds past midnight on the 27th, less an hour, is a second before the 27th.
abbrev past_midnight : DateTime
past_midnight = record thanksgiving { day = 27; hours = 0 }

seek-days2date_example :
    seek past_midnight (negsuc 3599)
    ≡ days2date (at_time past_midnight 86399) (negsuc 0 +ℤ date2days past_midnight)
unfolding ◌+ℤ◌ ◌*ℤ◌
seek-days2date_example =
    seek-days2date past_midnight (negsuc 3599) (negsuc 0) 86399 refl (omega arith)

the_26th : seek past_midnight (negsuc 3599) ≡ record thanksgiving { day_of_week = 5 }
unfolding seek day_of_year fall_through biy div_int mod_int wrap ◌+ℤ◌ ◌-ℤ◌ ◌*ℤ◌
the_26th = refl
