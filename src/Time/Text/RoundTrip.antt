-- ===== src/Time/Text/RoundTrip.antt =====
-- crates/core/src/time.rs: a time reads from the text that it displays as.
use cases.Prelude.{
  ℕ, ◌+◌, ◌*◌, ◌/◌, ◌%◌, ◌<◌, ◌≤◌, String, true, ◌≡◌, refl, ap, ◌∙◌, some, List, [], ◌∷◌, ◌++◌,
  codes, arith,
}
use cases.Prelude.Int.{ℤ, pos, negsuc, pos_part, leb_ℤ, ◌+ℤ◌, ◌-ℤ◌}
use cases.Error.{ok}
use cases.Time.{Time, from_unix, min_secs, max_secs}
use cases.Time.Calendar.{
  day_secs, is_date, is_clock, div_euclid, rem_euclid, scale, days_in_month, days_from_civil,
  civil_from_days,
}
use cases.Time.Days.{civil_from_days-IsDateOf}
use cases.Time.Text.{
  read_date, read_clock, read_fraction, read_offset, split_at, time_of, read_parts, read_time,
  or_malformed, time_from_str, padded, write_fraction, time_to_string,
}
use cases.Time.Text.Digits.{padded_codes, codes-padded, number_two, number_four}
use cases.Time.Text.Fractions.{read_fraction-write_fraction}

date_codes : ℕ → ℕ → ℕ → List ℕ
unfolding padded_codes
date_codes year month day =
    padded_codes 4 year (b'-' ∷ padded_codes 2 month (b'-' ∷ padded_codes 2 day []))

clock_codes : ℕ → ℕ → ℕ → List ℕ
unfolding padded_codes
clock_codes hour minute second =
    padded_codes 2 hour (b':' ∷ padded_codes 2 minute (b':' ∷ padded_codes 2 second []))

read_date-date_codes :
    (year month day : ℕ)
    → year < 10000
    → month < 100
    → day < 100
    → read_date (date_codes year month day) ≡ some (year, month, day)
unfolding read_date date_codes padded_codes
read_date-date_codes year month day p q r =
    rw (number_four year p, number_two month q, number_two day r) refl

read_clock-clock_codes :
    (hour minute second : ℕ)
    → hour < 100
    → minute < 100
    → second < 100
    → read_clock (clock_codes hour minute second) ≡ some (hour, minute, second)
unfolding read_clock clock_codes padded_codes
read_clock-clock_codes hour minute second p q r =
    rw (number_two hour p, number_two minute q, number_two second r) refl

-- The halves of a time's text are as long as `read` takes them to be.
read_time-codes :
    (year month day hour minute second : ℕ) (rest : List ℕ)
    → read_time (date_codes year month day ++ b'T' ∷ clock_codes hour minute second ++ rest)
      ≡ read_parts (date_codes year month day) (b'T' ∷ clock_codes hour minute second) rest
unfolding read_time split_at date_codes clock_codes padded_codes
read_time-codes year month day hour minute second rest = refl

read_parts-some :
    (date clock rest : List ℕ) (d c : ℕ × ℕ × ℕ) (nanos : ℕ)
    → read_date date ≡ some d
    → read_clock clock ≡ some c
    → read_fraction rest ≡ some (nanos, b'Z' ∷ [])
    → read_parts date (b'T' ∷ clock) rest ≡ time_of d c nanos (pos 0)
unfolding read_parts read_offset
read_parts-some date clock rest d c nanos p q r = rw (p, q, r) refl

-- What `time_to_string` writes.
written : ℕ → ℕ → ℕ → ℕ → String → String
unfolding padded
written year month day secs rest = padded 4 year (
    String.◌∷◌ "-" (
      padded 2 month (
        String.◌∷◌ "-" (
          padded 2 day (
            String.◌∷◌ "T" (
              padded 2 (secs / 3600) (
                String.◌∷◌ ":"
                  (padded 2 (secs / 60 % 60) (String.◌∷◌ ":" (padded 2 (secs % 60) rest))))))))))

time_to_string-written :
    (t : Time)
    → let date = civil_from_days (div_euclid t.secs day_secs) in
      time_to_string t
      ≡ written
          (pos_part date.0)
          date.1
          date.2
          (rem_euclid t.secs day_secs)
          (write_fraction t.nanos)
unfolding time_to_string written
time_to_string-written t = refl

codes-written :
    (year month day secs : ℕ) (rest : String)
    → codes (written year month day secs rest)
      ≡ date_codes year month day
        ++ b'T' ∷ clock_codes (secs / 3600) (secs / 60 % 60) (secs % 60)
        ++ codes rest
unfolding written date_codes clock_codes padded_codes
codes-written year month day secs rest =
    rw
      (
        codes-padded 4 year,
        codes-padded 2 month,
        codes-padded 2 day,
        codes-padded 2 (secs / 3600),
        codes-padded 2 (secs / 60 % 60),
        codes-padded 2 (secs % 60),
      )
      refl

date_fits : (year month day : ℕ) → is_date year month day ≡ true → (month < 100) × (day < 100)
unfolding is_date days_in_month
date_fits year month day h = (ground arith, ground arith)

clock_fits : (secs : ℕ) → secs < 86400 → is_clock (secs / 3600) (secs / 60 % 60) (secs % 60) ≡ true
unfolding is_clock
clock_fits secs h = ground arith

clock_back : (n : ℕ) → n / 3600 * 3600 + n / 60 % 60 * 60 + n % 60 ≡ n
clock_back n = omega arith

-- The seconds of a time are those of its day and those of its clock.
secs_back :
    (secs : ℤ)
    → scale (div_euclid secs day_secs) day_secs +ℤ pos (rem_euclid secs day_secs) -ℤ pos 0 ≡ secs
unfolding scale div_euclid rem_euclid ◌+ℤ◌ ◌-ℤ◌
secs_back (pos n) = ground arith
secs_back (negsuc n) = ground arith

days_in :
    (secs : ℤ)
    → leb_ℤ min_secs secs ≡ true
    → leb_ℤ secs max_secs ≡ true
    → (leb_ℤ (negsuc 719527) (div_euclid secs day_secs) ≡ true)
      × (leb_ℤ (div_euclid secs day_secs) (pos 2932896) ≡ true)
unfolding div_euclid
days_in (pos n) low high = (ground arith, ground arith)
days_in (negsuc n) low high = (ground arith, ground arith)

rem_euclid_small : (secs : ℤ) → rem_euclid secs day_secs < 86400
unfolding rem_euclid
rem_euclid_small (pos n) = omega arith
rem_euclid_small (negsuc n) = omega arith

time_of-some :
    (t : Time) (year month day hour minute second : ℕ)
    → is_date year month day ≡ true
    → is_clock hour minute second ≡ true
    → scale (days_from_civil year month day) day_secs
        +ℤ pos (hour * 3600 + minute * 60 + second)
        -ℤ pos 0
      ≡ t.secs
    → from_unix t.secs t.nanos ≡ some t
    → time_of (year, month, day) (hour, minute, second) t.nanos (pos 0) ≡ some t
unfolding time_of
time_of-some t year month day hour minute second p q r h = rw (p, q, r) h

in_range :
    (t : Time)
    → leb_ℤ min_secs t.secs ≡ true
    → leb_ℤ t.secs max_secs ≡ true
    → t.nanos < 1000000000
    → from_unix t.secs t.nanos ≡ some t
unfolding from_unix
in_range t p q h = rw (p, q) (ground arith)

-- The text of a time with this date, and these seconds of its day, reads as the time.
read_written :
    (t : Time) (year month day secs : ℕ)
    → year ≤ 9999
    → is_date year month day ≡ true
    → secs < 86400
    → scale (days_from_civil year month day) day_secs +ℤ pos secs -ℤ pos 0 ≡ t.secs
    → from_unix t.secs t.nanos ≡ some t
    → t.nanos < 1000000000
    → read_time (codes (written year month day secs (write_fraction t.nanos))) ≡ some t
read_written t year month day secs p q r back h small =
    let (m, d) = date_fits year month day q in
    let clock = clock_back secs in
    ap read_time (codes-written year month day secs (write_fraction t.nanos))
    ∙ read_time-codes year month day _ _ _ (codes (write_fraction t.nanos))
    ∙ read_parts-some (date_codes year month day)
        (clock_codes (secs / 3600) (secs / 60 % 60) (secs % 60)) _ _ _ t.nanos
        (read_date-date_codes year month day (omega arith) m d)
        (read_clock-clock_codes (secs / 3600) (secs / 60 % 60) (secs % 60) (omega arith)
          (omega arith) (omega arith))
        (read_fraction-write_fraction t.nanos small)
    ∙ time_of-some t year month day _ _ _ q (clock_fits secs r) (rw clock back) h

-- Every time in the years 0000 to 9999 displays as text that reads as that time, to the nanosecond.
pub time_from_str-time_to_string :
    (t : Time)
    → leb_ℤ min_secs t.secs ≡ true
    → leb_ℤ t.secs max_secs ≡ true
    → t.nanos < 1000000000
    → time_from_str (time_to_string t) ≡ ok t
unfolding time_from_str
time_from_str-time_to_string t low high small =
    let (low', high') = days_in t.secs low high in
    let p = civil_from_days-IsDateOf (div_euclid t.secs day_secs) low' high' in
    let date = civil_from_days (div_euclid t.secs day_secs) in
    let year : pos_part date.0 ≡ p.year = ap pos_part p.year_is in
    let back =
      ap (λ d. scale d day_secs +ℤ pos (rem_euclid t.secs day_secs) -ℤ pos 0) p.back
      ∙ secs_back t.secs in
    ap (λ s. or_malformed (read_time (codes s))) (time_to_string-written t)
    ∙ ap
        (λ y. or_malformed (
          read_time (
            codes (written y date.1 date.2 (rem_euclid t.secs day_secs) (write_fraction t.nanos)))))
        year
    ∙ ap or_malformed (
        read_written t p.year date.1 date.2 (rem_euclid t.secs day_secs) p.small p.valid
          (rem_euclid_small t.secs) back (in_range t low high small) small)
