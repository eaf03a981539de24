-- ===== src/Clock.antt =====
-- kernel/time.c and `bcd2bin` of kernel/stdlib.c: the date of the real-time clock as seconds. The
-- year counts from 2000.
pub mod Calendar
mod Tests
use rdix.Common.{
  ℕ, ◌+◌, ◌*◌, ◌/◌, ◌%◌, Bool, ◌&&◌, List, [], ◌∷◌, ltb, ◌==◌, if◌then◌else◌, get_or, u8, u32,
}

pub record TimeB : Type 0 where
  pub tm_sec : ℕ
  pub tm_min : ℕ
  pub tm_hour : ℕ
  pub tm_wday : ℕ
  pub tm_mday : ℕ
  pub tm_mon : ℕ
  pub tm_year : ℕ

unfoldable pub bcd2bin : ℕ → ℕ
bcd2bin bcd = u8 (bcd % 16 + bcd / 16 * 10)

-- The days of a common year before each month, from 1 on.
abbrev pub month_days : List ℕ
month_days = 0 ∷ 0 ∷ 31 ∷ 59 ∷ 90 ∷ 120 ∷ 151 ∷ 181 ∷ 212 ∷ 243 ∷ 273 ∷ 304 ∷ 334 ∷ []

-- What `time_read` leaves, from the registers of the clock in the order in which it reads them.
unfoldable pub time_read : ℕ → ℕ → ℕ → ℕ → ℕ → ℕ → ℕ → TimeB
unfolding bcd2bin
time_read sec min hour wday mday mon year = record {
  tm_sec = bcd2bin sec;
  tm_min = bcd2bin min;
  tm_hour = bcd2bin hour;
  tm_wday = bcd2bin wday;
  tm_mday = bcd2bin mday;
  tm_mon = bcd2bin mon;
  tm_year = bcd2bin year;
}

unfoldable pub mktime : TimeB → ℕ
mktime tm =
    let years = u32 ((tm.tm_year + 30) * (3600 * 24 * 365)) in
    let leap_days = u32 (years + (tm.tm_year + 30 + 1) / 4 * (3600 * 24)) in
    let days = u32 (leap_days + (get_or month_days tm.tm_mon 0 + tm.tm_mday) * (3600 * 24)) in
    if (tm.tm_year + 30 + 2) % 4 == 0 && ltb 2 tm.tm_mon then u32 (days + 3600 * 24) else days
