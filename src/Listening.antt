-- ===== src/Listening.antt =====
-- crates/core/src/listening.rs: the waits that listen for messages. A text is the list of its
-- characters here.
pub mod Lines
pub mod Lapse
use cases.Prelude.{
  ℕ, ◌+◌, ◌*◌, ◌/◌, ◌%◌, ◌^◌, Bool, true, false, not, ◌&&◌, ◌||◌, Option, none, some, List, [], ◌∷◌,
  String, leb, ltb, nat_eq, length, is_empty, any, if◌then◌else◌,
}
use cases.Prelude.Int.{ℤ, pos, negsuc, ◌+ℤ◌, ◌-ℤ◌}
use cases.Error.{Result, ok, err, invalid}
use cases.Time.{Time}
use cases.Time.Calendar.{scale}
use cases.Rules.Fields.{is_white_space}

-- `HEARTBEAT`, `LAPSE` and `DOING_MAX`, the first two in seconds.
abbrev pub heartbeat : ℕ
heartbeat = 15

abbrev pub lapse : ℕ
lapse = 3 * heartbeat

abbrev pub doing_max : ℕ
doing_max = 80

unfoldable pub trim_start : List ℕ → List ℕ
trim_start [] = []
trim_start (c ∷ text) = if is_white_space c then trim_start text else c ∷ text

unfoldable pub trim_end : List ℕ → List ℕ
trim_end [] = []
trim_end (c ∷ text) =
    let rest = trim_end text in if is_white_space c && is_empty rest then [] else c ∷ rest

-- `str::trim`.
unfoldable pub trim : List ℕ → List ℕ
trim text = trim_end (trim_start text)

-- `char::is_control`, and the characters that break a line or set its direction.
unfoldable pub leaves_line : ℕ → Bool
leaves_line c =
    leb c 0x1f
    || (leb 0x7f c && leb c 0x9f)
    || nat_eq c 0x2028
    || nat_eq c 0x2029
    || (leb 0x202a c && leb c 0x202e)
    || (leb 0x2066 c && leb c 0x2069)

unfoldable pub doing_line : List ℕ → Result (Option (List ℕ))
doing_line text =
    let line = trim text in
    if is_empty line
    then ok none
    else if any leaves_line line
    then err invalid
    else if ltb doing_max (length line)
    then err invalid
    else ok (some line)

pub record Wait : Type 0 where
  pub id : String
  pub worker : String
  pub labels : List String
  pub kinds : List String
  pub since : Time
  pub heard : Time

pub record Listening : Type 0 where
  pub worker : String
  pub labels : List String
  pub since : Time
  pub heard : Time
  pub doing : Option String
  pub doing_at : Option Time
  pub waits : List Wait

-- `Duration`: seconds, a u64, and nanoseconds below a second.
pub record Duration : Type 0 where
  pub secs : ℕ
  pub nanos : ℕ

unfoldable pub duration_le : Duration → Duration → Bool
duration_le a b = ltb a.secs b.secs || (nat_eq a.secs b.secs && leb a.nanos b.nanos)

abbrev pub second : ℕ
second = 1000000000

unfoldable pub nanos_of : Time → ℤ
nanos_of t = scale t.secs second +ℤ pos t.nanos

abbrev pub duration_of : ℤ → Option Duration
duration_of (pos diff) =
    if ltb (diff / second) (2 ^ 64)
    then some (record { secs = diff / second; nanos = diff % second })
    else none
duration_of (negsuc diff) = none

unfoldable pub before : Time → Time → Option Duration
before at now = duration_of (nanos_of now -ℤ nanos_of at)

abbrev pub is_none_or : (Duration → Bool) → Option Duration → Bool
is_none_or p none = true
is_none_or p (some d) = p d

unfoldable pub heard_in_time : Time → Time → Bool
heard_in_time heard now =
    is_none_or (λ ago. duration_le ago (record { secs = lapse; nanos = 0 })) (before heard now)

unfoldable pub live : Listening → Time → Bool
live listening now = heard_in_time listening.heard now
