-- ===== src/Time.antt =====
-- crates/core/src/time.rs: an instant, in whole seconds since 1970 and nanoseconds after them.
pub mod Calendar
pub mod Text
mod Eras
mod Months
pub mod Days
use cases.Prelude.{ℕ, Bool, true, false, Option, none, some, ltb, ◌&&◌, ◌||◌, if◌then◌else◌}
use cases.Prelude.Int.{ℤ, pos, negsuc, ltb_ℤ, leb_ℤ}

pub record Time : Type 0 where
  pub secs : ℤ
  pub nanos : ℕ

-- 0000-01-01T00:00:00Z and 9999-12-31T23:59:59Z, in seconds since 1970.
abbrev pub min_secs : ℤ
min_secs = negsuc 62167219199

abbrev pub max_secs : ℤ
max_secs = pos 253402300799

unfoldable pub from_unix : ℤ → ℕ → Option Time
from_unix secs nanos =
    if leb_ℤ min_secs secs && leb_ℤ secs max_secs && ltb nanos 1000000000
    then some (record { secs = secs; nanos = nanos })
    else none

-- The derived order: by the seconds, then by the nanoseconds.
unfoldable pub time_lt : Time → Time → Bool
time_lt a b = ltb_ℤ a.secs b.secs || (leb_ℤ a.secs b.secs && ltb a.nanos b.nanos)

-- `a > b` on `Option<Time>`, where `None` is the least.
unfoldable pub later : Option Time → Option Time → Bool
unfolding time_lt
later none b = false
later (some a) none = true
later (some a) (some b) = time_lt b a
