-- ===== src/Time/Months.antt =====
-- crates/core/src/time.rs, `civil_from_days`: the month and the day that a day of an era gives.
use cases.Prelude.{
  ℕ, ◌+◌, ◌-◌, ◌*◌, ◌/◌, ◌%◌, ◌≤◌, Bool, true, ◌&&◌, ◌||◌, ◌≡◌, refl, leb, ltb, nat_eq, every,
  every_lem, if◌then◌else◌, arith, ap, ◌∙◌,
}
use cases.Time.Calendar.{is_leap, is_date, days_in_month, day_of_year, day_of_era, civil_of_era}
use cases.Time.Eras.{year_of, first_of, last_of, year_of_lem}

-- The month and the day of a day of a year that starts in March.
unfoldable pub month_of : ℕ → ℕ
month_of n =
    (let shifted = (5 * n + 2) / 153 in if ltb shifted 10 then shifted + 3 else shifted - 9)

unfoldable pub day_of : ℕ → ℕ
day_of n = n - (153 * ((5 * n + 2) / 153) + 2) / 5 + 1

-- The day `n` of a year can be this date: only the last one is the 29th of February.
can_be : ℕ → ℕ → ℕ → Bool
unfolding days_in_month
can_be n month day =
    (leb 1 month && leb month 12)
    && leb 1 day
    && (if nat_eq month 2
        then leb day 28 || nat_eq n 365 && leb day 29
        else leb day (days_in_month 1 month))

fits_month : ℕ → Bool
unfolding can_be month_of day_of day_of_year
fits_month n = can_be n (month_of n) (day_of n) && nat_eq (day_of_year (month_of n) (day_of n)) n

months : every fits_month 366 0 ≡ true
unfolding every fits_month
months = refl

longer_is_leap :
    (y n : ℕ) → y ≤ 399 → first_of y + 365 ≤ last_of y → n % 400 ≡ (y + 1) % 400 → is_leap n ≡ true
unfolding first_of last_of is_leap
longer_is_leap y n small long same = ground arith

-- A day of an era is a date of each year that stands in its era as it says.
pub record IsDayOf (d year month day : ℕ) : Type 0 where
  pub year_small : year ≤ 399
  pub month_low : 1 ≤ month
  pub is_day :
      (n : ℕ) → n % 400 ≡ (year + (if leb month 2 then 1 else 0)) % 400 → is_date n month day ≡ true
  pub counted : day_of_era year (day_of_year month day) ≡ d

fits_date :
    (d n month day : ℕ)
    → (d ≡ 365 → is_leap n ≡ true)
    → can_be d month day ≡ true
    → is_date n month day ≡ true
unfolding can_be is_date days_in_month
fits_date d n month day leap h = ground arith

last_month : month_of 365 ≡ 2
unfolding month_of
last_month = refl

year_length : (y n : ℕ) → first_of y + n ≤ last_of y → y ≤ 399 → n ≤ 365
unfolding first_of last_of
year_length y n h small = ground arith

fits_month_parts :
    (n : ℕ)
    → fits_month n ≡ true
    → (can_be n (month_of n) (day_of n) ≡ true) × (day_of_year (month_of n) (day_of n) ≡ n)
unfolding fits_month
fits_month_parts n h = (ground arith, ground arith)

can_be_month : (n month day : ℕ) → can_be n month day ≡ true → 1 ≤ month
unfolding can_be
can_be_month n month day h = ground arith

era_day :
    (y n d : ℕ) → y ≤ 399 → first_of y + n ≡ d → d ≤ last_of y → IsDayOf d y (month_of n) (day_of n)
era_day y n d small at within =
    let short = year_length y n (omega arith) small in
    let (fits, counted) =
      fits_month_parts n (every_lem fits_month 366 0 n months (omega arith) (omega arith)) in
    record {
      year_small = small;
      month_low = can_be_month n (month_of n) (day_of n) fits;
      is_day = λ year same.
          fits_date n year (month_of n) (day_of n)
            (λ last.
              longer_is_leap y year small (omega arith)
                (let march : month_of n ≡ 2 = ap month_of last ∙ last_month in ground arith))
            fits;
      counted = rw counted (unfold day_of_era in unfold first_of in omega arith);
    }

pub civil_of_era_lem :
    (d : ℕ) → d ≤ 146096 → IsDayOf d (civil_of_era d).0 (civil_of_era d).1 (civil_of_era d).2
unfolding civil_of_era
civil_of_era_lem d h =
    let (small, low, high) = year_of_lem d h in
    let n = d - first_of (year_of d) in
    unfold year_of in
    unfold first_of in
    unfold month_of in unfold day_of in era_day (year_of d) n d small (omega arith) high
