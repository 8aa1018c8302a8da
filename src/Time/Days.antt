-- ===== src/Time/Days.antt =====
-- crates/core/src/time.rs: a day has a date in the years 0000 to 9999, and is the day of that date.
use cases.Prelude.{
  ℕ, ◌+◌, ◌-◌, ◌*◌, ◌/◌, ◌%◌, ◌≤◌, Bool, true, false, ◌≡◌, refl, leb, if◌then◌else◌, arith, ap, ◌∙◌,
  sym,
}
use cases.Prelude.Int.{ℤ, pos, negsuc, pos_part, leb_ℤ, ◌+ℤ◌, ◌-ℤ◌}
use mathlib.Core.Path.{subst}
use cases.Time.Calendar.{
  is_date, days_in_month, day_of_year, day_of_era, div_euclid, scale, days_from_civil, civil_of_era,
  civil_from_days,
}
use cases.Time.Months.{IsDayOf, civil_of_era_lem}

-- The date of a day, with a year of the contract, which is the date of no other day.
pub record IsDateOf (days : ℤ) (date : ℤ × ℕ × ℕ) : Type 0 where
  pub year : ℕ
  pub year_is : date.0 ≡ pos year
  pub small : year ≤ 9999
  pub valid : is_date year date.1 date.2 ≡ true
  pub back : days_from_civil year date.1 date.2 ≡ days

-- `days_from_civil` of a date of the era `e`.
era_back :
    (e y month day : ℕ)
    → y ≤ 399
    → days_from_civil (y + e * 400 + (if leb month 2 then 1 else 0)) month day
      ≡ pos (e * 146097 + day_of_era y (day_of_year month day)) -ℤ pos 719468
unfolding days_from_civil div_euclid scale ◌+ℤ◌ ◌-ℤ◌
era_back e y month day small = ground arith

first_back :
    (month day : ℕ)
    → month ≤ 2
    → days_from_civil 0 month day ≡ pos (day_of_era 399 (day_of_year month day)) -ℤ pos 865565
unfolding days_from_civil div_euclid scale ◌+ℤ◌ ◌-ℤ◌
first_back month day small = ground arith

late_day :
    (n month day : ℕ)
    → is_date n month day ≡ true
    → day_of_era 399 (day_of_year month day) ≤ 146036
    → leb month 2 ≡ false
unfolding is_date day_of_era day_of_year
late_day n month day valid h = ground arith

early_day :
    (n y month day : ℕ)
    → is_date n month day ≡ true
    → y ≤ 399
    → 146037 ≤ day_of_era y (day_of_year month day)
    → (y ≡ 399) × (month ≤ 2)
unfolding is_date days_in_month day_of_era day_of_year
early_day n y month day valid small h = (ground arith, ground arith)

-- `civil_from_days`, of the days since 0000-03-01.
date_since : ℤ → ℤ × ℕ × ℕ
unfolding civil_from_days
date_since shifted =
    let era = div_euclid shifted 146097 in
    let (year_of_era, month, day) = civil_of_era (pos_part (shifted -ℤ scale era 146097)) in
    (pos year_of_era +ℤ scale era 400 +ℤ pos (if leb month 2 then 1 else 0), month, day)

date_since_lem : (days : ℤ) → civil_from_days days ≡ date_since (days +ℤ pos 719468)
unfolding date_since civil_from_days
date_since_lem days = refl

in_era : (n : ℕ) → pos_part (pos n -ℤ scale (div_euclid (pos n) 146097) 146097) ≡ n % 146097
unfolding div_euclid scale ◌-ℤ◌
in_era n = ground arith

year_pos : (e y c : ℕ) → pos y +ℤ scale (pos e) 400 +ℤ pos c ≡ pos (y + e * 400 + c)
unfolding scale ◌+ℤ◌
year_pos e y c = ground arith

era_year :
    (e y : ℕ) (second : Bool)
    → e ≤ 24
    → y ≤ 399
    → (e ≡ 24 → y ≡ 399 → second ≡ false)
    → y + e * 400 + (if second then 1 else 0) ≤ 9999
era_year e y second p q r = ground arith

last_era :
    (e y month day d n : ℕ)
    → e ≡ 24
    → y ≡ 399
    → e * 146097 + d ≤ 3652364
    → day_of_era y (day_of_year month day) ≡ d
    → is_date n month day ≡ true
    → leb month 2 ≡ false
last_era e y month day d n last end h counted valid =
    late_day n month day valid
      (let same = ap (λ y. day_of_era y (day_of_year month day)) end in omega arith)

era_date :
    (n e d y month day : ℕ)
    → IsDayOf d y month day
    → e * 146097 + d ≡ n
    → n ≤ 3652364
    → IsDateOf
        (pos n -ℤ pos 719468)
        (pos y +ℤ scale (pos e) 400 +ℤ pos (if leb month 2 then 1 else 0), month, day)
era_date n e d y month day p same h =
    let year = y + e * 400 + (if leb month 2 then 1 else 0) in
    let valid = p.is_day year (omega arith) in
    let after : e ≡ 24 → y ≡ 399 → leb month 2 ≡ false =
      λ last end. last_era e y month day d year last end (omega arith) p.counted valid in
    record {
      year = year;
      year_is = year_pos e y (if leb month 2 then 1 else 0);
      small = era_year e y (leb month 2) (omega arith) p.year_small after;
      valid = valid;
      back =
          era_back e y month day p.year_small
          ∙ ap (λ m. pos m -ℤ pos 719468) (omega (arith, p.counted));
    }

date_since-pos : (n : ℕ) → n ≤ 3652364 → IsDateOf (pos n -ℤ pos 719468) (date_since (pos n))
unfolding date_since
date_since-pos n h =
    let p = civil_of_era_lem (n % 146097) (omega arith) in
    rw (in_era n)
      (unfold div_euclid in era_date n (n / 146097) (n % 146097) _ _ _ p (omega arith) h)

in_first_era :
    (n : ℕ)
    → n ≤ 59
    → pos_part (negsuc n -ℤ scale (div_euclid (negsuc n) 146097) 146097) ≡ 146096 - n
unfolding div_euclid scale ◌-ℤ◌
in_first_era n h = ground arith

year_zero : (n : ℕ) → n ≤ 59 → pos 399 +ℤ scale (div_euclid (negsuc n) 146097) 400 +ℤ pos 1 ≡ pos 0
unfolding div_euclid scale ◌+ℤ◌ ◌-ℤ◌
year_zero n h = ground arith

first_days : (n k : ℕ) → n ≤ 59 → k ≡ 146096 - n → pos k -ℤ pos 865565 ≡ negsuc n -ℤ pos 719468
unfolding ◌-ℤ◌
first_days n k h e = ground arith

first_date :
    (n y month day : ℕ)
    → IsDayOf (146096 - n) y month day
    → n ≤ 59
    → IsDateOf (negsuc n -ℤ pos 719468) (
      pos y +ℤ scale (div_euclid (negsuc n) 146097) 400 +ℤ pos (if leb month 2 then 1 else 0),
      month,
      day,
    )
first_date n y month day p h =
    let valid = p.is_day (y + (if leb month 2 then 1 else 0)) refl in
    let (end, early) = early_day _ y month day valid p.year_small (omega (arith, p.counted)) in
    let second : leb month 2 ≡ true = ground arith in
    record {
      year = 0;
      year_is = rw (end, second) (year_zero n h);
      small = omega arith;
      valid = p.is_day 0 (rw (end, second) refl);
      back =
          first_back month day early
          ∙ first_days n _ h (ap (λ y. day_of_era y (day_of_year month day)) (sym end) ∙ p.counted);
    }

date_since-negsuc : (n : ℕ) → n ≤ 59 → IsDateOf (negsuc n -ℤ pos 719468) (date_since (negsuc n))
unfolding date_since
date_since-negsuc n h =
    rw (in_first_era n h) (first_date n _ _ _ (civil_of_era_lem (146096 - n) (omega arith)) h)

date_since_date :
    (shifted : ℤ)
    → leb_ℤ (negsuc 59) shifted ≡ true
    → leb_ℤ shifted (pos 3652364) ≡ true
    → IsDateOf (shifted -ℤ pos 719468) (date_since shifted)
date_since_date (pos n) low high = date_since-pos n (ground arith)
date_since_date (negsuc n) low high = date_since-negsuc n (ground arith)

shifted_in :
    (days : ℤ)
    → leb_ℤ (negsuc 719527) days ≡ true
    → leb_ℤ days (pos 2932896) ≡ true
    → (leb_ℤ (negsuc 59) (days +ℤ pos 719468) ≡ true)
      × (leb_ℤ (days +ℤ pos 719468) (pos 3652364) ≡ true)
      × (days +ℤ pos 719468 -ℤ pos 719468 ≡ days)
unfolding ◌+ℤ◌ ◌-ℤ◌
shifted_in (pos n) low high = (ground arith, ground arith, ground arith)
shifted_in (negsuc n) low high = (ground arith, ground arith, ground arith)

-- From 0000-01-01 to 9999-12-31, `civil_from_days` gives each day a date that is in the calendar,
-- with a year of at most four digits, and `days_from_civil` takes that date back to the day.
pub civil_from_days-IsDateOf :
    (days : ℤ)
    → leb_ℤ (negsuc 719527) days ≡ true
    → leb_ℤ days (pos 2932896) ≡ true
    → IsDateOf days (civil_from_days days)
civil_from_days-IsDateOf days low high =
    let (low', high', back) = shifted_in days low high in
    rw (date_since_lem days) (
      subst (λ d. IsDateOf d (date_since (days +ℤ pos 719468))) back
        (date_since_date (days +ℤ pos 719468) low' high'))
