-- ===== src/Replay/Recount.antt =====
-- crates/core/src/case.rs: an event is taken alike whatever the case's place in its store: its
-- problems, its revision and its last seq. And an event that a write takes, a replay takes.
use cases.Prelude.{ℕ, String, Bool, true, false, ◌≡◌, refl, List, arith}
use cases.Error.{ok}
use cases.Names.{Author}
use cases.Record.{Record, Amend, Answer, Note}
use cases.Case.{Case, Problem}
use cases.Rules.Amending.{
  check_amend, check_amend_fields, check_amend_against, changes_question, changes_rest,
}
use cases.Rules.Answering.{check_answer, check_response}
use cases.Rules.Opening.{check_open}
use cases.Replay.Taking.{
  start, take_amend, take_answer, take_pickup, take_note, take_close, take_withdraw, take_park,
  take_resume, take_entry, take, amend_question, reopen, touch, push_event,
}

module _ (problems : List Problem) (revision last_seq : ℕ) where
  abbrev pub recount : Case → Case
  recount c = record c { problems = problems; revision = revision; last_seq = last_seq }

  check_answer-recount : (r : Answer) (c : Case) → check_answer r (recount c) ≡ check_answer r c
  unfolding check_answer check_response
  check_answer-recount r c = ground arith

  check_amend-recount : (r : Amend) (c : Case) → check_amend r (recount c) ≡ check_amend r c
  unfolding check_amend check_amend_fields check_amend_against changes_question changes_rest
  check_amend-recount r c = refl

  changes_question-recount :
      (r : Amend) (c : Case) → changes_question r (recount c) ≡ changes_question r c
  unfolding changes_question
  changes_question-recount r c = refl

  module _ (c : Case) where
    take_amend-recount :
        (seq : ℕ) (author : Author) (r : Amend)
        → ((take_amend seq author r (recount c)).0 ≡ (take_amend seq author r c).0)
          × ((take_amend seq author r (recount c)).1 ≡ recount (take_amend seq author r c).1)
    unfolding take_amend amend_question reopen
    take_amend-recount seq author r = (
      ground (arith, check_amend-recount r c, changes_question-recount r c),
      ground (arith, check_amend-recount r c, changes_question-recount r c),
    )

    take_answer-recount :
        (r : Answer)
        → ((take_answer r (recount c)).0 ≡ (take_answer r c).0)
          × ((take_answer r (recount c)).1 ≡ recount (take_answer r c).1)
    unfolding take_answer
    take_answer-recount r =
        (ground (arith, check_answer-recount r c), ground (arith, check_answer-recount r c))

    take_entry-recount :
        (seq : ℕ) (author : Author) (entry : Record) (write : Bool)
        → ((take_entry seq author entry write (recount c)).0
            ≡ (take_entry seq author entry write c).0)
          × ((take_entry seq author entry write (recount c)).1
              ≡ recount (take_entry seq author entry write c).1)
    unfolding take_entry take_pickup take_note take_close take_withdraw take_park take_resume reopen
    take_entry-recount seq author (Record.amend r) write = take_amend-recount seq author r
    take_entry-recount seq author (Record.answer r) write = take_answer-recount r
    take_entry-recount seq author _ write = (ground arith, ground arith)

    pub take-recount :
        (seq : ℕ) (author : Author) (entry : Record) (text : String) (write : Bool)
        → ((take seq author entry text write (recount c)).0
            ≡ (take seq author entry text write c).0)
          × ((take seq author entry text write (recount c)).1
              ≡ recount (take seq author entry text write c).1)
    unfolding take touch push_event
    take-recount seq author entry text write = (
      ground (arith, take_entry-recount seq author entry write),
      ground (arith, take_entry-recount seq author entry write),
    )

module _ (c : Case) (seq : ℕ) (author : Author) where
  take_note-write :
      (r : Note) → (take_note r true c).0 ≡ ok tt → take_note r false c ≡ take_note r true c
  unfolding take_note
  take_note-write r h = ground arith

  take_entry-write :
      (entry : Record)
      → (take_entry seq author entry true c).0 ≡ ok tt
      → take_entry seq author entry false c ≡ take_entry seq author entry true c
  unfolding take_entry
  take_entry-write (Record.note r) h = take_note-write r h
  take_entry-write _ h = refl

  -- What a write takes, a replay takes to the same case.
  pub take-write :
      (entry : Record) (text : String)
      → (take seq author entry text true c).0 ≡ ok tt
      → take seq author entry text false c ≡ take seq author entry text true c
  unfolding take
  take-write entry text h = rw (take_entry-write entry (ground arith))

-- What a write opens, a replay opens to the same case.
pub start-write :
    (seq : ℕ) (author : Author) (entry : Record) (text : String) {c : Case}
    → start seq author entry text true ≡ ok c
    → start seq author entry text false ≡ ok c
unfolding start check_open
start-write seq author (Record.open_ r) text h = ground arith
start-write seq author _ text h = ground arith
