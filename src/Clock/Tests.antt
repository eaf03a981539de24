-- ===== src/Clock/Tests.antt =====
-- Runs of kernel/time.c.
use rdix.Common.{◌+◌, ◌≡◌, refl, arith, u32}
use rdix.Clock.{TimeB, bcd2bin, time_read, mktime}
use rdix.Clock.Calendar.{IsDate, next_day, mktime-next_day}

-- 31 December 2023, from the registers of the clock
abbrev new_year_eve : TimeB
new_year_eve = record {
  tm_sec = 0;
  tm_min = 0;
  tm_hour = 0;
  tm_wday = 1;
  tm_mday = 31;
  tm_mon = 12;
  tm_year = 23;
}

read_test : time_read 0 0 0 1 49 18 35 ≡ new_year_eve
unfolding time_read bcd2bin
read_test = refl

eve-IsDate : IsDate new_year_eve
eve-IsDate = omega arith

mktime-next_day_example : mktime (next_day new_year_eve) ≡ u32 (mktime new_year_eve + 86400)
mktime-next_day_example = mktime-next_day new_year_eve eve-IsDate

-- one day more than the seconds since 1970
mktime_test : mktime (next_day new_year_eve) ≡ 1704067200 + 86400
unfolding mktime next_day
mktime_test = refl
