-- ===== src/Examples/Times.antt =====
-- Times of the tests of crates/core/src/time.rs.
use cases.Prelude.{String, ◌<◌, ◌≡◌, refl}
use cases.Error.{malformed, Result, ok, err}
use cases.Time.{Time}
use cases.Prelude.{true, arith}
use cases.Prelude.Int.{pos, negsuc, leb_ℤ}
use cases.Time.{min_secs, max_secs}
use cases.Time.Calendar.{civil_from_days}
use cases.Time.Days.{IsDateOf, civil_from_days-IsDateOf}
use cases.Time.Text.{time_from_str, time_to_string}
use cases.Time.Text.RoundTrip.{time_from_str-time_to_string}
use cases.Time.Text.Accepted.{time_from_str_passed}

rewritten : Result Time → String
rewritten (ok t) = time_to_string t
rewritten (err e) = ""

times_rewritten :
    (rewritten (time_from_str "2026-09-15T11:45:00+02:00") ≡ "2026-09-15T09:45:00Z")
    × (rewritten (time_from_str "2026-12-31T23:30:00-01:00") ≡ "2027-01-01T00:30:00Z")
    × (rewritten (time_from_str "2026-09-16t22:15:41.605108z") ≡ "2026-09-16T22:15:41.605108Z")
    × (rewritten (time_from_str "0000-02-29T12:00:00Z") ≡ "0000-02-29T12:00:00Z")
    × (rewritten (time_from_str "1969-12-31T23:59:59.5Z") ≡ "1969-12-31T23:59:59.5Z")
    × (time_from_str "1900-02-29T00:00:00Z" ≡ err malformed)
    × (time_from_str "2016-12-31T23:59:60Z" ≡ err malformed)
unfolding rewritten time_from_str time_to_string
times_rewritten = (refl, refl, refl, refl, refl, refl, refl)

civil_from_days-IsDateOf_example : IsDateOf (negsuc 0) (civil_from_days (negsuc 0))
civil_from_days-IsDateOf_example = civil_from_days-IsDateOf (negsuc 0) refl refl

abbrev afternoon : Time
afternoon = record { secs = pos 1789462920; nanos = 250000000 }

time_from_str-time_to_string_example : time_from_str (time_to_string afternoon) ≡ ok afternoon
time_from_str-time_to_string_example =
    time_from_str-time_to_string afternoon refl refl (omega arith)

reads_offset : time_from_str "2026-09-15T11:02:00.25+02:00" ≡ ok afternoon
unfolding time_from_str
reads_offset = refl

time_from_str_passed_example :
    (leb_ℤ min_secs afternoon.secs ≡ true)
    × (leb_ℤ afternoon.secs max_secs ≡ true)
    × (afternoon.nanos < 1000000000)
    × (time_from_str (time_to_string afternoon) ≡ ok afternoon)
time_from_str_passed_example =
    time_from_str_passed "2026-09-15T11:02:00.25+02:00" {t = afternoon} reads_offset
