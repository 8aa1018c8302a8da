-- ===== src/Time/Calendar.antt =====
-- crates/core/src/time.rs: the days of the calendar. A month, a day and a time of day are natural
-- numbers, a year and a count of days or seconds are integers. `div_euclid` rounds down.
use cases.Prelude.{
  ℕ, ◌+◌, ◌-◌, ◌*◌, ◌/◌, ◌%◌, Bool, ◌&&◌, ◌||◌, not, ltb, leb, nat_eq, if◌then◌else◌,
}
use cases.Prelude.Int.{ℤ, pos, negsuc, pos_part, ◌+ℤ◌, ◌-ℤ◌}

abbrev pub day_secs : ℕ
day_secs = 86400

unfoldable pub div_euclid : ℤ → ℕ → ℤ
div_euclid (pos n) b = pos (n / b)
div_euclid (negsuc n) b = negsuc (n / b)

unfoldable pub rem_euclid : ℤ → ℕ → ℕ
rem_euclid (pos n) b = n % b
rem_euclid (negsuc n) b = b - 1 - n % b

-- An integer times a natural number.
unfoldable pub scale : ℤ → ℕ → ℤ
scale (pos n) b = pos (n * b)
scale (negsuc n) b = pos 0 -ℤ pos ((n + 1) * b)

unfoldable pub is_leap : ℕ → Bool
is_leap year = nat_eq (year % 4) 0 && (not (nat_eq (year % 100) 0) || nat_eq (year % 400) 0)

unfoldable pub days_in_month : ℕ → ℕ → ℕ
unfolding is_leap
days_in_month year month =
    if nat_eq month 2 && is_leap year
    then 29
    else if nat_eq month 2
    then 28
    else if nat_eq month 4 || nat_eq month 6 || nat_eq month 9 || nat_eq month 11
    then 30
    else 31

unfoldable pub is_date : ℕ → ℕ → ℕ → Bool
unfolding days_in_month
is_date year month day =
    (leb 1 month && leb month 12) && (leb 1 day && leb day (days_in_month year month))

unfoldable pub is_clock : ℕ → ℕ → ℕ → Bool
is_clock hour minute second = leb hour 23 && leb minute 59 && leb second 59

-- Of a date that `is_date` accepts, so the day is 1 or more.
unfoldable pub day_of_year : ℕ → ℕ → ℕ
day_of_year month day = (153 * (if ltb 2 month then month - 3 else month + 9) + 2) / 5 + day - 1

unfoldable pub day_of_era : ℕ → ℕ → ℕ
day_of_era year_of_era day_of_year =
    year_of_era * 365 + year_of_era / 4 - year_of_era / 100 + day_of_year

unfoldable pub days_from_civil : ℕ → ℕ → ℕ → ℤ
unfolding div_euclid scale day_of_year day_of_era ◌+ℤ◌ ◌-ℤ◌
days_from_civil year month day =
    let y = if leb month 2 then pos year -ℤ pos 1 else pos year in
    let era = div_euclid y 400 in
    let year_of_era = pos_part (y -ℤ scale era 400) in
    scale era 146097 +ℤ pos (day_of_era year_of_era (day_of_year month day)) -ℤ pos 719468

-- The year of its era, the month and the day of a day of the era, below 146097.
unfoldable pub civil_of_era : ℕ → ℕ × ℕ × ℕ
civil_of_era day_of_era =
    let year_of_era =
      (day_of_era - day_of_era / 1460 + day_of_era / 36524 - day_of_era / 146096) / 365 in
    let day_of_year = day_of_era - (365 * year_of_era + year_of_era / 4 - year_of_era / 100) in
    let shifted_month = (5 * day_of_year + 2) / 153 in
    let day = day_of_year - (153 * shifted_month + 2) / 5 + 1 in
    let month = if ltb shifted_month 10 then shifted_month + 3 else shifted_month - 9 in
    (year_of_era, month, day)

unfoldable pub civil_from_days : ℤ → ℤ × ℕ × ℕ
unfolding div_euclid scale civil_of_era ◌+ℤ◌ ◌-ℤ◌
civil_from_days days =
    let shifted = days +ℤ pos 719468 in
    let era = div_euclid shifted 146097 in
    let (year_of_era, month, day) = civil_of_era (pos_part (shifted -ℤ scale era 146097)) in
    (pos year_of_era +ℤ scale era 400 +ℤ pos (if leb month 2 then 1 else 0), month, day)
