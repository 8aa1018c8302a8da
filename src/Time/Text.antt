-- ===== src/Time/Text.antt =====
-- crates/core/src/time.rs: a time is read from RFC 3339 text strictly, and written in UTC. The code
-- reads bytes; here they are characters, and only ASCII ones fit any place of the text.
mod Digits
mod Fractions
pub mod RoundTrip
pub mod Accepted
use Prim.Native.Char.{Char}
use cases.Prelude.{
  ℕ, zero, suc, ◌+◌, ◌-◌, ◌*◌, ◌/◌, ◌%◌, String, Bool, ◌&&◌, ◌||◌, Option, none, some, List, [],
  ◌∷◌, ltb, leb, nat_eq, codes, is_empty, if◌then◌else◌,
}
use cases.Prelude.Int.{ℤ, pos, pos_part, ◌+ℤ◌, ◌-ℤ◌}
use cases.Error.{malformed, Result, ok, err}
use cases.Time.{Time, from_unix}
use cases.Time.Calendar.{
  day_secs, div_euclid, rem_euclid, scale, is_date, is_clock, days_from_civil, civil_from_days,
}

infixl 10 ◌>>=◌
abbrev ◌>>=◌ {ℓ κ} : {A : Type ℓ} {B : Type κ} → Option A → (A → Option B) → Option B
some a >>= f = f a
none >>= f = none

abbrev is_digit : ℕ → Bool
is_digit c = leb b'0' c && leb c b'9'

-- `number`, with the number read so far.
unfoldable pub number_from : ℕ → List ℕ → Option ℕ
number_from n [] = some n
number_from n (c ∷ rest) =
    let read = number_from (n * 10 + (c - b'0')) rest in if is_digit c then read else none

unfoldable pub number : List ℕ → Option ℕ
unfolding number_from
number digits = number_from 0 digits

unfoldable pub read_date : List ℕ → Option (ℕ × ℕ × ℕ)
unfolding number
read_date (y1 ∷ y2 ∷ y3 ∷ y4 ∷ dash1 ∷ mo1 ∷ mo2 ∷ dash2 ∷ d1 ∷ d2 ∷ []) =
    if nat_eq dash1 b'-' && nat_eq dash2 b'-'
    then (do
      year ← number (y1 ∷ y2 ∷ y3 ∷ y4 ∷ [])
      month ← number (mo1 ∷ mo2 ∷ [])
      day ← number (d1 ∷ d2 ∷ [])
      some (year, month, day))
    else none
read_date _ = none

unfoldable pub read_clock : List ℕ → Option (ℕ × ℕ × ℕ)
unfolding number
read_clock (h1 ∷ h2 ∷ colon1 ∷ mi1 ∷ mi2 ∷ colon2 ∷ s1 ∷ s2 ∷ []) =
    if nat_eq colon1 b':' && nat_eq colon2 b':'
    then (do
      hour ← number (h1 ∷ h2 ∷ [])
      minute ← number (mi1 ∷ mi2 ∷ [])
      second ← number (s1 ∷ s2 ∷ [])
      some (hour, minute, second))
    else none
read_clock _ = none

-- The digits at the front of a text, and the text after them.
unfoldable pub split_digits : List ℕ → List ℕ × List ℕ
split_digits [] = ([], [])
split_digits (c ∷ rest) =
    let (digits, after) = split_digits rest in
    if is_digit c then (c ∷ digits, after) else ([], c ∷ rest)

-- The first `k` digits as a number, with 0 for those that are not there.
unfoldable pub read_nanos : ℕ → ℕ → List ℕ → ℕ
read_nanos zero nanos digits = nanos
read_nanos (suc k) nanos [] = read_nanos k (nanos * 10) []
read_nanos (suc k) nanos (c ∷ digits) = read_nanos k (nanos * 10 + (c - b'0')) digits

unfoldable pub read_fraction : List ℕ → Option (ℕ × List ℕ)
unfolding split_digits read_nanos
read_fraction [] = some (0, [])
read_fraction (c ∷ fraction) =
    if nat_eq c b'.'
    then (let (digits, after) = split_digits fraction in
        if is_empty digits then none else some (read_nanos 9 0 digits, after))
    else some (0, c ∷ fraction)

unfoldable pub read_offset : List ℕ → Option ℤ
unfolding number ◌-ℤ◌
read_offset (z ∷ []) = if nat_eq z b'Z' || nat_eq z b'z' then some (pos 0) else none
read_offset (sign ∷ h1 ∷ h2 ∷ colon ∷ m1 ∷ m2 ∷ []) =
    if (nat_eq sign b'+' || nat_eq sign b'-') && nat_eq colon b':'
    then (do
      hours ← number (h1 ∷ h2 ∷ [])
      minutes ← number (m1 ∷ m2 ∷ [])
      if ltb 23 hours || ltb 59 minutes
          then none
          else (let offset = hours * 3600 + minutes * 60 in
              some (if nat_eq sign b'-' then pos 0 -ℤ pos offset else pos offset)))
    else none
read_offset _ = none

-- `split_at_checked`.
unfoldable pub split_at : ℕ → List ℕ → Option (List ℕ × List ℕ)
split_at zero text = some ([], text)
split_at (suc n) [] = none
split_at (suc n) (c ∷ text) = do p ← split_at n text; some (c ∷ p.0, p.1)

unfoldable pub time_of : ℕ × ℕ × ℕ → ℕ × ℕ × ℕ → ℕ → ℤ → Option Time
unfolding is_date is_clock days_from_civil scale ◌+ℤ◌ ◌-ℤ◌ from_unix
time_of (year, month, day) (hour, minute, second) nanos offset =
    if is_date year month day && is_clock hour minute second
    then from_unix
        (scale (days_from_civil year month day) day_secs
          +ℤ pos (hour * 3600 + minute * 60 + second)
          -ℤ offset)
        nanos
    else none

abbrev pub is_separator : ℕ → Bool
is_separator c = nat_eq c b'T' || nat_eq c b't'

unfoldable pub read_parts : List ℕ → List ℕ → List ℕ → Option Time
unfolding read_date read_clock read_fraction read_offset time_of
read_parts date [] rest = none
read_parts date (separator ∷ clock) rest =
    if is_separator separator
    then (do
      d ← read_date date
      c ← read_clock clock
      f ← read_fraction rest
      offset ← read_offset f.1
      time_of d c f.0 offset)
    else none

unfoldable pub read_time : List ℕ → Option Time
unfolding split_at read_parts
read_time text = do
  halves ← split_at 19 text
  parts ← split_at 10 halves.0
  read_parts parts.0 parts.1 halves.1

abbrev pub or_malformed : Option Time → Result Time
or_malformed (some t) = ok t
or_malformed none = err malformed

unfoldable pub time_from_str : String → Result Time
unfolding read_time
time_from_str s = or_malformed (read_time (codes s))

unfoldable pub digit_char : ℕ → Char
digit_char zero = "0"
digit_char (suc zero) = "1"
digit_char (suc (suc zero)) = "2"
digit_char (suc (suc (suc zero))) = "3"
digit_char (suc (suc (suc (suc zero)))) = "4"
digit_char (suc (suc (suc (suc (suc zero))))) = "5"
digit_char (suc (suc (suc (suc (suc (suc zero)))))) = "6"
digit_char (suc (suc (suc (suc (suc (suc (suc zero))))))) = "7"
digit_char (suc (suc (suc (suc (suc (suc (suc (suc zero)))))))) = "8"
digit_char _ = "9"

-- `{n:0width$}` in front of a text, of a number of at most that many digits.
unfoldable pub padded : ℕ → ℕ → String → String
unfolding digit_char
padded zero n s = s
padded (suc width) n s = padded width (n / 10) (String.◌∷◌ (digit_char (n % 10)) s)

-- The loop that takes the last zeros off a fraction, which is not 0 and below 10 ^ 9: at most
-- eight rounds.
unfoldable pub strip_zeros : ℕ → ℕ → ℕ → ℕ × ℕ
strip_zeros zero fraction width = (fraction, width)
strip_zeros (suc fuel) fraction width =
    let rest = strip_zeros fuel (fraction / 10) (width - 1) in
    if nat_eq (fraction % 10) 0 then rest else (fraction, width)

unfoldable pub write_fraction : ℕ → String
unfolding strip_zeros padded
write_fraction nanos =
    if nat_eq nanos 0
    then "Z"
    else (let (fraction, width) = strip_zeros 9 nanos 9 in
        String.◌∷◌ "." (padded width fraction "Z"))

unfoldable pub time_to_string : Time → String
unfolding civil_from_days div_euclid rem_euclid write_fraction padded
time_to_string t =
    let (year, month, day) = civil_from_days (div_euclid t.secs day_secs) in
    let secs = rem_euclid t.secs day_secs in
    padded 4 (pos_part year) (
      String.◌∷◌ "-" (
        padded 2 month (
          String.◌∷◌ "-" (
            padded 2 day (
              String.◌∷◌ "T" (
                padded 2 (secs / 3600) (
                  String.◌∷◌ ":" (
                    padded 2 (secs / 60 % 60)
                      (String.◌∷◌ ":" (padded 2 (secs % 60) (write_fraction t.nanos)))))))))))
