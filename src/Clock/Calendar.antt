-- ===== src/Clock/Calendar.antt =====
-- `mktime` counts days as the calendar of the years from 2000 to 2099 does.
use rdix.Common.{
  ℕ, zero, suc, ◌+◌, ◌*◌, ◌/◌, ◌%◌, ◌≤◌, ◌<◌, ◌≡◌, refl, inl, inr, Bool, ◌&&◌, arith, ltb, ◌==◌,
  if◌then◌else◌, get_or, u32, Bool-cases, List, [], ◌∷◌,
}
use rdix.Clock.{TimeB, month_days, mktime}

-- A date of the calendar, and its month's length.
abbrev pub leap : ℕ → Bool
leap year = year % 4 == 0

abbrev month_lengths : List ℕ
month_lengths = 0 ∷ 31 ∷ 28 ∷ 31 ∷ 30 ∷ 31 ∷ 30 ∷ 31 ∷ 31 ∷ 30 ∷ 31 ∷ 30 ∷ 31 ∷ []

abbrev pub month_length : ℕ → ℕ → ℕ
month_length year month = if month == 2 && leap year then 29 else get_or month_lengths month 0

pub record IsDate (t : TimeB) : Type 0 where
  pub century : t.tm_year < 100
  pub month_low : 1 ≤ t.tm_mon
  pub month_high : t.tm_mon ≤ 12
  pub day_low : 1 ≤ t.tm_mday
  pub day_high : t.tm_mday ≤ month_length t.tm_year t.tm_mon

-- the day after
unfoldable pub next_day : TimeB → TimeB
next_day t =
    if ltb t.tm_mday (month_length t.tm_year t.tm_mon)
    then record t { tm_mday = t.tm_mday + 1 }
    else if ltb t.tm_mon 12
    then record t { tm_mday = 1; tm_mon = t.tm_mon + 1 }
    else record t { tm_mday = 1; tm_mon = 1; tm_year = t.tm_year + 1 }

-- the days that mktime counts
unfoldable pub days : ℕ → ℕ → ℕ → ℕ
days year month day =
    (year + 30) * 365
    + (year + 31) / 4
    + get_or month_days month 0
    + day
    + (if leap year && ltb 2 month then 1 else 0)

same_leap : (year : ℕ) → ((year + 30 + 2) % 4 == 0) ≡ leap year
same_leap year = let same : (year + 30 + 2) % 4 ≡ year % 4 = omega arith in rw same refl

mktime-days :
    (t : TimeB) → t.tm_year < 101 → mktime t ≡ u32 (days t.tm_year t.tm_mon t.tm_mday * 86400)
unfolding mktime days
mktime-days t century = elim (Bool-cases (leap t.tm_year && ltb 2 t.tm_mon)) [
  | inl b ↦ rw (same_leap t.tm_year, b) (omega arith)
  | inr b ↦ rw (same_leap t.tm_year, b) (omega arith)
]

-- The table of `mktime` adds up the lengths of the months.
months_add :
    (m : ℕ)
    → 1 ≤ m
    → m < 12
    → get_or month_days (m + 1) 0 ≡ get_or month_days m 0 + get_or month_lengths m 0
months_add zero low high = absurd (omega arith)
months_add (suc zero) low high = refl
months_add (suc (suc zero)) low high = refl
months_add (suc (suc (suc zero))) low high = refl
months_add (suc (suc (suc (suc zero)))) low high = refl
months_add (suc (suc (suc (suc (suc zero))))) low high = refl
months_add (suc (suc (suc (suc (suc (suc zero)))))) low high = refl
months_add (suc (suc (suc (suc (suc (suc (suc zero))))))) low high = refl
months_add (suc (suc (suc (suc (suc (suc (suc (suc zero)))))))) low high = refl
months_add (suc (suc (suc (suc (suc (suc (suc (suc (suc zero))))))))) low high = refl
months_add (suc (suc (suc (suc (suc (suc (suc (suc (suc (suc zero)))))))))) low high = refl
months_add (suc (suc (suc (suc (suc (suc (suc (suc (suc (suc (suc zero))))))))))) low high = refl
months_add (suc (suc (suc (suc (suc (suc (suc (suc (suc (suc (suc (suc m)))))))))))) low high =
    absurd (omega arith)

-- The first of the next month, counted in days.
month_end :
    (year m : ℕ) → 1 ≤ m → m < 12 → days year (m + 1) 1 ≡ days year m (month_length year m) + 1
unfolding days
month_end year m low high = elim (Bool-cases (leap year)) [
  | inl b ↦ rw (b, months_add m low high) (ground arith)
  | inr b ↦ rw (b, months_add m low high) (ground arith)
]

year_end : (year : ℕ) → days (year + 1) 1 1 ≡ days year 12 31 + 1
unfolding days
year_end year = elim (Bool-cases (leap year)) [
  | inl b ↦ ground (arith, b)
  | inr b ↦ ground (arith, b)
]

days-suc : (year m d : ℕ) → days year m (d + 1) ≡ days year m d + 1
unfolding days
days-suc year m d = omega arith

one_more :
    (t' t : TimeB)
    → t'.tm_year < 101
    → t.tm_year < 100
    → days t'.tm_year t'.tm_mon t'.tm_mday ≡ days t.tm_year t.tm_mon t.tm_mday + 1
    → mktime t' ≡ u32 (mktime t + 86400)
one_more t' t after century step =
    rw (mktime-days t' after, mktime-days t (omega arith), step) (omega arith)

-- From a date to the next one mktime goes on by the seconds of one day.
pub mktime-next_day : (t : TimeB) → IsDate t → mktime (next_day t) ≡ u32 (mktime t + 86400)
unfolding next_day
mktime-next_day t date = elim (Bool-cases (ltb t.tm_mday (month_length t.tm_year t.tm_mon))) [
  | inl inside ↦
      rw (next_day, inside)
        (one_more _ t (omega arith) date.century (days-suc t.tm_year t.tm_mon t.tm_mday))
  | inr last ↦ elim (Bool-cases (ltb t.tm_mon 12)) [
    | inl month ↦
        let day : t.tm_mday ≡ month_length t.tm_year t.tm_mon =
          ground (arith, last, date.day_high) in
        rw (next_day, last, month)
          (one_more _ t (omega arith) date.century
            (rw day (month_end t.tm_year t.tm_mon date.month_low (ground (arith, month)))))
    | inr year ↦
        let dec : t.tm_mon ≡ 12 = ground (arith, year, date.month_high) in
        let len : month_length t.tm_year t.tm_mon ≡ 31 = rw dec refl in
        let day : t.tm_mday ≡ 31 = ground (arith, len, last, date.day_high) in
        rw (next_day, last, year)
          (one_more _ t (omega arith) date.century (rw (day, dec) (year_end t.tm_year)))
  ]
]
