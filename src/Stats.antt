-- ===== src/Stats.antt =====
-- crates/core/src/stats.rs: how many cases were opened and answered on each day, and the median time
-- to answer.
pub mod Median
pub mod Days
use cases.Prelude.{
  ℕ, zero, suc, ◌+◌, ◌-◌, ◌*◌, ◌/◌, ◌%◌, ◌^◌, Bool, true, false, not, ◌&&◌, ◌||◌, Option, none,
  some, List, [], ◌∷◌, ◌++◌, ltb, leb, nat_eq, length, get_elem?, set, replicate, if◌then◌else◌,
}
use cases.Prelude.Int.{ℤ, pos, negsuc, ◌+ℤ◌, ◌-ℤ◌}
use cases.Names.{Kind, State, kind_eq}
use cases.Time.{Time}
use cases.Time.Calendar.{day_secs, div_euclid, scale}
use cases.Record.{Record, at}
use cases.Case.{Case, Event}

-- `Stats`, with the median in whole seconds.
pub record Stats : Type 0 where
  pub opened : List ℕ
  pub answered : List ℕ
  pub median : Option ℕ

-- What the loop over the cases has counted: cases opened and answers given by day, and the waits in
-- nanoseconds.
pub record Tally : Type 0 where
  pub opened : List ℕ
  pub answered : List ℕ
  pub waits : List ℕ

abbrev pub u32_max : ℕ
u32_max = 2 ^ 32 - 1

abbrev pub u64_max : ℕ
u64_max = 2 ^ 64 - 1

abbrev pub second : ℕ
second = 1000000000

-- `opened[i] = opened[i].saturating_add(1)`, at an index that there is.
unfoldable pub count_one : List ℕ → ℕ → List ℕ
count_one [] i = []
count_one (n ∷ ns) zero = (if ltb n u32_max then n + 1 else n) ∷ ns
count_one (n ∷ ns) (suc i) = n ∷ count_one ns i

unfoldable pub day : Time → ℤ
day t = div_euclid t.secs day_secs

unfoldable pub nanos : Time → ℤ
nanos t = scale t.secs second +ℤ pos t.nanos

-- A difference of days as an index below `len`.
abbrev pub index_below : ℕ → ℤ → Option ℕ
index_below len (pos i) = if ltb i len then some i else none
index_below len (negsuc i) = none

abbrev pub first_day : Time → ℕ → ℤ
first_day now days = day now -ℤ pos days +ℤ pos 1

unfoldable pub slot : Time → ℕ → Time → Option ℕ
slot now days t = index_below days (day t -ℤ first_day now days)

abbrev pub slot_of : Time → ℕ → Option Time → Option ℕ
slot_of now days none = none
slot_of now days (some t) = slot now days t

abbrev pub count_at : Option ℕ → List ℕ → List ℕ
count_at none counts = counts
count_at (some i) counts = count_one counts i

-- `waits.push(wait)`, of a wait that is not below zero.
abbrev pub push_wait : ℤ → List ℕ → List ℕ
push_wait (pos w) waits = waits ++ w ∷ []
push_wait (negsuc w) waits = waits

abbrev pub push_since : Time → Option Time → List ℕ → List ℕ
push_since t none waits = waits
push_since t (some asked) waits = push_wait (nanos t -ℤ nanos asked) waits

-- An answer given on a day that counts.
abbrev pub count_answer : Option ℕ → Time → Option Time → Tally → Tally
count_answer none t asked tally = tally
count_answer (some i) t asked tally = record tally {
  answered = count_one tally.answered i;
  waits = push_since t asked tally.waits;
}

abbrev pub count_answered : Time → ℕ → Option Time → Option Time → Tally → Tally
count_answered now days none asked tally = tally
count_answered now days (some t) asked tally = count_answer (slot now days t) t asked tally

abbrev pub was_had : Option State → Bool
was_had (some State.answered) = true
was_had (some State.picked_up) = true
was_had _ = false

abbrev pub is_open : State → Bool
is_open State.open_ = true
is_open _ = false

-- The state after an event: before the next one, or the case's.
abbrev pub state_after : List Event → State → State
state_after [] state = state
state_after (e ∷ rest) state = elim e.from [ none ↦ state | some s ↦ s ]

-- When the case was last asked, after an event.
unfoldable pub asked_after : Record → Bool → Option Time → Option Time
asked_after (Record.note r) reopens asked = if reopens then r.noted_at else asked
asked_after (Record.amend r) reopens asked = if reopens then r.amended_at else asked
asked_after _ reopens asked = asked

-- What an event that is an answer, and no drop, adds.
unfoldable pub count_event : Time → ℕ → Record → Option Time → Tally → Tally
count_event now days (Record.answer r) asked tally =
    if r.drop then tally else count_answered now days r.answered_at asked tally
count_event now days _ asked tally = tally

-- The loop over the events of a case, with when it was last asked.
unfoldable pub count_events : Time → ℕ → State → List Event → Option Time → Tally → Tally
count_events now days state [] asked tally = tally
count_events now days state (e ∷ rest) asked tally =
    count_events now days state rest
      (asked_after e.entry (was_had e.from && is_open (state_after rest state)) asked)
      (count_event now days e.entry asked tally)

abbrev pub count_opened : Time → ℕ → Case → Tally → Tally
count_opened now days c tally = record tally {
  opened = count_at (slot_of now days c.question.opened_at) tally.opened;
}

unfoldable pub count_case : Time → ℕ → Case → Tally → Tally
count_case now days c tally =
    if kind_eq c.kind Kind.message
    then tally
    else count_events now days c.state c.events c.question.opened_at (count_opened now days c tally)

unfoldable pub count_cases : Time → ℕ → List Case → Tally → Tally
count_cases now days [] tally = tally
count_cases now days (c ∷ cases) tally = count_cases now days cases (count_case now days c tally)

unfoldable pub put_in_order : ℕ → List ℕ → List ℕ
put_in_order x [] = x ∷ []
put_in_order x (y ∷ ys) = if leb x y then x ∷ y ∷ ys else y ∷ put_in_order x ys

-- `sort_unstable`.
unfoldable pub sort : List ℕ → List ℕ
sort [] = []
sort (x ∷ xs) = put_in_order x (sort xs)

-- `i128::midpoint`, of two that there are.
abbrev pub midpoint : Option ℕ → Option ℕ → Option ℕ
midpoint (some a) (some b) = some ((a + b) / 2)
midpoint _ _ = none

-- The median in nanoseconds: of an even number of waits, the mean of the middle two.
unfoldable pub middle : List ℕ → Option ℕ
middle sorted =
    let mid = length sorted / 2 in
    if nat_eq (length sorted % 2) 1
    then get_elem? sorted mid
    else if nat_eq mid 0
    then none
    else midpoint (get_elem? sorted (mid - 1)) (get_elem? sorted mid)

abbrev pub in_seconds : Option ℕ → Option ℕ
in_seconds none = none
in_seconds (some m) = if leb (m / second) u64_max then some (m / second) else none

unfoldable pub median : List ℕ → Option ℕ
median waits = in_seconds (middle (sort waits))

unfoldable pub stats : List Case → Time → ℕ → Stats
stats cases now days =
    let tally =
      count_cases now days cases
        (record { opened = replicate days 0; answered = replicate days 0; waits = [] }) in
    record { opened = tally.opened; answered = tally.answered; median = median tally.waits }
