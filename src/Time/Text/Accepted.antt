-- ===== src/Time/Text/Accepted.antt =====
-- crates/core/src/time.rs: the times that text can hold.
use cases.Prelude.{
  ℕ, ◌+◌, ◌*◌, ◌<◌, String, Bool, true, false, ◌&&◌, ◌≡◌, Option, none, some, List, [], ◌∷◌, codes,
  arith, if◌then◌else◌,
}
use cases.Prelude.Int.{ℤ, pos, leb_ℤ, ◌+ℤ◌, ◌-ℤ◌}
use cases.Error.{ok}
use cases.Time.{Time, from_unix, min_secs, max_secs}
use cases.Time.Calendar.{day_secs, is_date, is_clock, scale, days_from_civil}
use cases.Time.Text.{
  ◌>>=◌, is_separator, read_date, read_clock, read_fraction, read_offset, split_at, time_of,
  read_parts, read_time, or_malformed, time_from_str, time_to_string,
}
use cases.Time.Text.RoundTrip.{time_from_str-time_to_string}

-- A time in the years 0000 to 9999.
abbrev pub IsTime : Time → Type 0
IsTime t = (leb_ℤ min_secs t.secs ≡ true) × (leb_ℤ t.secs max_secs ≡ true) × (t.nanos < 1000000000)

from_unix_passed : (secs : ℤ) (nanos : ℕ) {t : Time} → from_unix secs nanos ≡ some t → IsTime t
unfolding from_unix
from_unix_passed secs nanos {t = t} h = (ground arith, ground arith, ground arith)

if_some :
    {A : Type 0} (test : Bool) (o : Option A) {a : A}
    → (if test then o else none) ≡ some a
    → o ≡ some a
if_some true o h = h
if_some false o h = absurd (cc h)

bind_some :
    {A B : Type 0} (o : Option A) (f : A → Option B) {b : B}
    → (o >>= f) ≡ some b
    → (a : A) × (f a ≡ some b)
bind_some none f h = absurd (cc h)
bind_some (some a) f h = (a, h)

time_of_passed :
    (d c : ℕ × ℕ × ℕ) (nanos : ℕ) (offset : ℤ) {t : Time}
    → time_of d c nanos offset ≡ some t
    → IsTime t
unfolding time_of
time_of_passed (y, m, d) (h, mi, s) nanos offset {t = t} e =
    from_unix_passed
      (scale (days_from_civil y m d) day_secs +ℤ pos (h * 3600 + mi * 60 + s) -ℤ offset) nanos
      {t = t} (if_some (is_date y m d && is_clock h mi s) _ {a = t} e)

read_parts_passed :
    (date clock rest : List ℕ) {t : Time} → read_parts date clock rest ≡ some t → IsTime t
unfolding read_parts
read_parts_passed date [] rest h = absurd (cc h)
read_parts_passed date (separator ∷ clock) rest {t = t} h =
    let e = if_some (is_separator separator) _ {a = t} h in
    let (d, e) = bind_some (read_date date) _ {b = t} e in
    let (c, e) = bind_some (read_clock clock) _ {b = t} e in
    let (f, e) = bind_some (read_fraction rest) _ {b = t} e in
    let (offset, e) = bind_some (read_offset f.1) _ {b = t} e in
    time_of_passed d c f.0 offset {t = t} e

read_time_passed : (cs : List ℕ) {t : Time} → read_time cs ≡ some t → IsTime t
unfolding read_time
read_time_passed cs {t = t} h =
    let (halves, e) = bind_some (split_at 19 cs) _ {b = t} h in
    let (parts, e) = bind_some (split_at 10 halves.0) _ {b = t} e in
    read_parts_passed parts.0 parts.1 halves.1 {t = t} e

or_malformed_passed : (o : Option Time) {t : Time} → or_malformed o ≡ ok t → o ≡ some t
or_malformed_passed none h = absurd (cc h)
or_malformed_passed (some u) h = ground arith

-- Text that reads as a time holds one in the years 0000 to 9999, with less than a second of
-- nanoseconds, and the text that this time displays as reads as it.
pub time_from_str_passed :
    (s : String) {t : Time}
    → time_from_str s ≡ ok t
    → (leb_ℤ min_secs t.secs ≡ true)
      × (leb_ℤ t.secs max_secs ≡ true)
      × (t.nanos < 1000000000)
      × (time_from_str (time_to_string t) ≡ ok t)
time_from_str_passed s {t = t} h =
    let (low, high, small) =
      read_time_passed (codes s) {t = t}
        (or_malformed_passed (read_time (codes s)) {t = t} (unfold time_from_str in h)) in
    (low, high, small, time_from_str-time_to_string t low high small)
