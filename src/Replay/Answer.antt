-- ===== src/Replay/Answer.antt =====
-- crates/core/src/case.rs: the answer that a case holds is an answer to its question as it stands.
use cases.Prelude.{ℕ, ◌⊎◌, String, Bool, false, ◌≡◌, sym, List, arith, inl, inr, Option, none, some}
use mathlib.Core.Path.{subst}
use cases.Prelude.Int.{pos, ltb_ℤ}
use cases.Error.{ok, Result-cases, ok-injective}
use cases.Names.{Author, Kind, opener}
use cases.Time.{Time}
use cases.Record.{Actor, Record, Open, Amend, Answer, Note}
use cases.Record.Codec.{Codec}
use cases.Case.{Case, Row, Append}
use cases.Rules.Opening.{check_open}
use cases.Rules.Answering.{check_answer}
use cases.Rules.Answered.{IsAnswer, check_answer-IsAnswer, check_answer_seq}
use cases.Replay.Taking.{
  start, amend_question, take_amend, take_answer, take_pickup, take_note, take_close, take_withdraw,
  take_park, take_resume, take_entry, take, reopen, touch, push_event,
}
use cases.Replay.Folding.{fold}
use cases.Replay.Appending.{append_event}
use cases.Replay.Passed.{take_passed}
use cases.Replay.Lifecycle.{IsLifecycle, IsLifecycle-IsKept}
use cases.Replay.Induction.{IsKept, fold_kept, append_kept}

-- The answer is to the question, and its writer read the question as it stands: `amend_seq` is
-- that of the case.
abbrev pub IsAnswerTo : Kind → Open → ℕ → Option Answer → Type 0
IsAnswerTo kind q amend_seq none = Unit
IsAnswerTo kind q amend_seq (some a) = IsAnswer kind q a × (a.amend_seq ≡ pos amend_seq)

abbrev pub HasAnswer : Case → Type 0
HasAnswer c = IsAnswerTo c.kind c.question c.amend_seq c.answer

-- What an event leaves of the answer: none, or the one there was, to the same question, or the
-- one that the event gives.
abbrev LeavesAnswer : Case → Case → Type 0
LeavesAnswer c c' =
    (c'.answer ≡ none)
    ⊎ ((c'.kind ≡ c.kind)
        × (c'.question ≡ c.question)
        × (c'.amend_seq ≡ c.amend_seq)
        × ((c'.answer ≡ c.answer)
            ⊎ ((a : Answer) × (c'.answer ≡ some a)
                × (check_answer a c ≡ ok tt)
                × (ltb_ℤ a.amend_seq (pos c.amend_seq) ≡ false))))

module _ (c : Case) (v : IsLifecycle c) where
  -- An amend is of a case that has no answer, or takes the answer away.
  take_amend_answer :
      (seq : ℕ) (author : Author) (r : Amend)
      → (take_amend seq author r c).0 ≡ ok tt
      → (take_amend seq author r c).1.answer ≡ none
  unfolding take_amend amend_question reopen opener
  take_amend_answer seq author r h = ground (arith, v.answer)

  take_answer_answer :
      (r : Answer) → (take_answer r c).0 ≡ ok tt → LeavesAnswer c (take_answer r c).1
  unfolding take_answer
  take_answer_answer r h =
      inr (
        ground arith,
        ground arith,
        ground arith,
        inr (r, ground arith, ground arith, ground arith),
      )

  take_note_answer :
      (r : Note) (write : Bool)
      → (take_note r write c).0 ≡ ok tt
      → LeavesAnswer c (take_note r write c).1
  unfolding take_note reopen
  take_note_answer r write h = ground arith

  take_entry_answer :
      (seq : ℕ) (author : Author) (entry : Record) (write : Bool)
      → (take_entry seq author entry write c).0 ≡ ok tt
      → LeavesAnswer c (take_entry seq author entry write c).1
  unfolding take_entry take_pickup take_close take_withdraw take_park take_resume
  take_entry_answer seq author (Record.amend r) write h = inl (take_amend_answer seq author r h)
  take_entry_answer seq author (Record.answer r) write h = take_answer_answer r h
  take_entry_answer seq author (Record.note r) write h = take_note_answer r write h
  take_entry_answer seq author _ write h =
      inr (ground arith, ground arith, ground arith, inl (ground arith))

left_IsAnswerTo : (c c' : Case) → HasAnswer c → LeavesAnswer c c' → HasAnswer c'
left_IsAnswerTo c c' v (inl e) = rw e tt
left_IsAnswerTo c c' v (inr (kind, question, amend_seq, inl e)) =
    rw kind (rw question (rw amend_seq (rw e v)))
left_IsAnswerTo c c' v (inr (kind, question, amend_seq, inr (a, e, passed, fresh))) = rw kind (
    rw question
      (rw amend_seq (rw e (check_answer-IsAnswer a c passed, check_answer_seq a c passed fresh))))

abbrev HasAll : Case → Type 0
HasAll c = IsLifecycle c × HasAnswer c

start-HasAnswer :
    (seq : ℕ) (author : Author) (entry : Record) (text : String) (write : Bool) (c : Case)
    → start seq author entry text write ≡ ok c
    → HasAnswer c
unfolding start
start-HasAnswer seq author (Record.open_ r) text write c h =
    elim (Result-cases (check_open r author write)) [
      | inl ((kind, urgency), e) ↦ subst HasAnswer (ok-injective (rw e at h)) tt
      | inr (x, e) ↦ absurd (ground arith)
    ]
start-HasAnswer seq author _ text write c h = absurd (cc h)

take-HasAnswer :
    (seq : ℕ) (author : Author) (entry : Record) (text : String) (write : Bool) (c : Case)
    → HasAll c
    → (take seq author entry text write c).0 ≡ ok tt
    → HasAnswer (take seq author entry text write c).1
unfolding push_event touch
take-HasAnswer seq author entry text write c v h =
    let p = take_passed c seq author entry text write h in
    subst HasAnswer (sym p.1) (
      left_IsAnswerTo c (take_entry seq author entry write c).1 v.1
        (take_entry_answer c v.0 seq author entry write p.0))

HasAll-IsKept : IsKept HasAll
HasAll-IsKept = record {
  starts = λ seq author entry text write c h. (
    IsLifecycle-IsKept.starts seq author entry text write c h,
    start-HasAnswer seq author entry text write c h,
  );
  takes = λ seq author entry text write c v h. (
    IsLifecycle-IsKept.takes seq author entry text write c v.0 h,
    take-HasAnswer seq author entry text write c v h,
  );
  counts = λ c problems revision last_seq v.
      (IsLifecycle-IsKept.counts c problems revision last_seq v.0, v.1);
}

module _ (k : Codec) where
  -- An answer that a case of the fold holds answers the question that the case asks as it stands,
  -- after every amend, and its `amend_seq` is that of the case. It gives the responses of its kind
  -- alone, and is a drop and nothing else, or a reply: on a decision, an option there is or `other`
  -- with a note; on an approval, one verdict for each row and none for anything else; on a signoff
  -- `accept`, or `changes` with a note; on a briefing `accept`, or `send_back` with a note, with
  -- left-out items that there are, each filed once; on a stuck case or a question a text that is
  -- not blank; on an fyi an ack. A message has none.
  pub fold-HasAnswer :
      (rows : List Row) {c : Case}
      → fold k rows ≡ ok c
      → IsAnswerTo c.kind c.question c.amend_seq c.answer
  fold-HasAnswer rows h = (fold_kept HasAll-IsKept k rows h).1

  -- An append, accepted or refused, to a case that holds what its state says and an answer to its
  -- question, if any, leaves one that does.
  pub append_event-HasAnswer :
      (append : Append) (now : Time) (writer : Option Actor) (at_revision : Option ℕ) (c : Case)
      → IsLifecycle c
      → IsAnswerTo c.kind c.question c.amend_seq c.answer
      → let c' = (append_event k append now writer at_revision c).1 in
        IsAnswerTo c'.kind c'.question c'.amend_seq c'.answer
  append_event-HasAnswer append now writer at_revision c v a =
      (append_kept HasAll-IsKept k append now writer at_revision c (v, a)).1
