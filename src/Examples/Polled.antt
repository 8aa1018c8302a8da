-- ===== src/Examples/Polled.antt =====
-- A store whose version moves from 1 to 2: a case goes, and another is opened.
use cases.Prelude.{
  ℕ, ◌==◌, ◌≡◌, refl, ◌⊎◌, inl, inr, Option, none, some, List, [], ◌∷◌, if◌then◌else◌, arith,
  Bool-cases,
}
use cases.Error.{Category, ok}
use cases.Case.{Row}
use cases.Store.{Version, Changes, Cases, lookup, insert, remove}
use cases.Poll.{Read, Poller, new_poller, remove_all, insert_all, take_changes, take_answer, poll}
use cases.Poll.Lookups.{map_option}
use cases.Poll.Synced.{AreLawful, IsLawful, polls, poll-polls}
use cases.Replay.Folding.{fold}
use cases.Examples.Running.{running}
use cases.Examples.Script.{scripted, stored_rows, open_row}
use cases.Examples.Replayed.{answered}

abbrev first_cases : List (ℕ × List Row)
first_cases = (1, open_row ∷ []) ∷ []

abbrev second_cases : List (ℕ × List Row)
second_cases = (2, stored_rows) ∷ []

abbrev rows_at : Version → List (ℕ × List Row)
rows_at v = if v == "1" then first_cases else second_cases

abbrev first_read : Read Category
first_read asked = inr (Changes.all "1" first_cases)

abbrev changes_of : Option Version → Changes
changes_of none = Changes.all "2" second_cases
changes_of (some old) =
    if old == "1" then Changes.since "2" second_cases (1 ∷ []) else Changes.all "2" second_cases

abbrev second_read : Read Category
second_read asked = inr (changes_of asked)

abbrev failed_read : Read Category
failed_read asked = inl Category.invalid

second_read-IsLawful : (asked : Option Version) → IsLawful rows_at asked (second_read asked)
second_read-IsLawful none = ((refl, tt), refl)
second_read-IsLawful (some old) = elim (Bool-cases (old == "1")) [
  | inl e ↦ rw (e, changes_of) ((refl, tt), (λ j h. ground arith), λ j. ground arith)
  | inr e ↦ rw (e, changes_of) ((refl, tt), refl)
]

reads-AreLawful :
    AreLawful scripted rows_at (first_read ∷ failed_read ∷ first_read ∷ second_read ∷ [])
reads-AreLawful = (
  λ asked. ((refl, tt), refl),
  (λ asked. tt, (λ asked. ((refl, tt), refl), (second_read-IsLawful, tt))),
)

abbrev polled : (Category ⊎ Cases) × Poller
polled =
    poll scripted second_read
      (polls scripted rows_at (first_read ∷ failed_read ∷ first_read ∷ []) new_poller)

-- The case that went is dropped, and the one that was opened is folded.
poll-second : polled.0 ≡ inr ((2, ok answered) ∷ [])
unfolding running scripted polls poll take_answer take_changes insert_all remove_all insert remove
    new_poller
poll-second = refl

poll-polls_example :
    (v : Version) × (polled.1.version ≡ some v)
    × ((j : ℕ)
        → lookup j ((2, ok answered) ∷ []) ≡ map_option (fold scripted) (lookup j (rows_at v)))
poll-polls_example =
    poll-polls scripted rows_at (first_read ∷ failed_read ∷ first_read ∷ []) second_read
      reads-AreLawful poll-second

poll-failed : (poll scripted failed_read new_poller).0 ≡ inl Category.invalid
unfolding poll take_answer
poll-failed = refl
