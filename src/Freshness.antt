-- ===== src/Freshness.antt =====
-- crates/core/src/freshness.rs: how a case changed after a form was drawn from it.
pub mod Walk
pub mod Passed
use cases.Prelude.{
  ℕ, ◌-◌, String, Bool, true, false, not, ◌&&◌, ◌||◌, Option, none, some, List, [], ◌∷◌, ◌++◌,
  length, all, leb, ltb, nat_eq, if◌then◌else◌,
}
use cases.Names.{Author, EventType, State, opener, same_author, state_eq}
use cases.Record.{event}
use cases.Case.{Case, Event}

pub data Since : Type 0 where
  unchanged moved changed : Since

unfoldable pub since_as_str : Since → String
since_as_str Since.unchanged = "unchanged"
since_as_str Since.moved = "moved"
since_as_str Since.changed = "changed"

-- `State::ALL.len()`.
abbrev pub states : ℕ
states = 7

abbrev pub contains_state : List State → State → Bool
contains_state [] s = false
contains_state (t ∷ ts) s = state_eq t s || contains_state ts s

-- `partition_point` and the slice from it, of events in the order of their seqs.
unfoldable pub events_since : ℕ → List Event → List Event
events_since seq [] = []
events_since seq (e ∷ rest) =
    let after = events_since seq rest in if leb e.seq seq then after else e ∷ rest

abbrev pub is_from : State → Option State → Bool
is_from state none = false
is_from state (some s) = state_eq s state

abbrev pub is_note_or_amend : EventType → Bool
is_note_or_amend EventType.note = true
is_note_or_amend EventType.amend = true
is_note_or_amend _ = false

unfoldable pub stays : State → Event → Bool
unfolding event
stays state e = is_note_or_amend (event e.entry) && is_from state e.from

abbrev pub froms : List Event → List (Option State)
froms [] = []
froms (e ∷ rest) = e.from ∷ froms rest

-- The loop over the states, with the states left, the latest first, and the one that the case is
-- at. Beyond `states` of them, the write to the array `left` panics: `none`.
unfoldable pub walk : List State → Option State → List (Option State) → Option Since
walk left at [] = some Since.moved
walk left at (none ∷ rest) = some Since.changed
walk left none (some next ∷ rest) = walk left (some next) rest
walk left (some at) (some next ∷ rest) = elim (state_eq at next) [
  | true ↦ walk left (some at) rest
  | false ↦ elim (contains_state left next) [
    | true ↦ some Since.changed
    | false ↦ elim (ltb (length left) states) [
      | true ↦ walk (at ∷ left) (some next) rest
      | false ↦ none
    ]
  ]
]

-- `Case::since`, or `none` where it would panic.
unfoldable pub since : Case → ℕ → ℕ → Option Since
since c revision seq =
    let events = events_since seq c.events in
    if nat_eq revision c.revision
    then some Since.unchanged
    else if ltb c.revision revision
    then some Since.changed
    else if not (nat_eq (length events) (c.revision - revision))
    then some Since.changed
    else if ltb seq c.amend_seq && not (same_author (opener c.kind) Author.human)
    then some Since.changed
    else if all (stays c.state) events
    then some Since.unchanged
    else walk [] none (froms events ++ some c.state ∷ [])

abbrev pub is_unchanged : Option Since → Option Bool
is_unchanged (some Since.unchanged) = some true
is_unchanged (some _) = some false
is_unchanged none = none

unfoldable pub unchanged_since : Case → ℕ → ℕ → Option Bool
unchanged_since c revision seq = is_unchanged (since c revision seq)
