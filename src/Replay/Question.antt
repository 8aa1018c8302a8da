-- ===== src/Replay/Question.antt =====
-- crates/core/src/case.rs: the question of a case stays one that the rules of an open allow its
-- kind, through every amend.
use cases.Prelude.{ℕ, ◌⊎◌, String, Bool, ◌≡◌, refl, sym, List, arith, inl, inr, Option}
use mathlib.Core.Path.{subst}
use cases.Error.{ok, Result-cases, ok-injective}
use cases.Names.{Author}
use cases.Time.{Time}
use cases.Record.{Actor, Record, Amend}
use cases.Record.Codec.{Codec}
use cases.Case.{Case, Row, Append}
use cases.Rules.Opening.{check_open}
use cases.Rules.Amending.{check_amend}
use cases.Rules.Sound.{IsSound, check_open-IsSound}
use cases.Replay.Taking.{
  start, amended, amend_question, take_amend, take_answer, take_pickup, take_note, take_close,
  take_withdraw, take_park, take_resume, take_entry, take, reopen, touch, push_event,
}
use cases.Replay.Folding.{fold}
use cases.Replay.Appending.{append_event}
use cases.Replay.Passed.{take_passed}
use cases.Replay.Induction.{IsKept, fold_kept, append_kept}
use cases.Replay.Amended.{amended-IsSound}

abbrev pub HasSound : Case → Type 0
HasSound c = IsSound c.kind c.question

start-HasSound :
    (seq : ℕ) (author : Author) (entry : Record) (text : String) (write : Bool) (c : Case)
    → start seq author entry text write ≡ ok c
    → HasSound c
unfolding start
start-HasSound seq author (Record.open_ r) text write c h =
    elim (Result-cases (check_open r author write)) [
      | inl ((kind, urgency), e) ↦
          subst HasSound (ok-injective (rw e at h))
            (check_open-IsSound r author write kind urgency e)
      | inr (x, e) ↦ absurd (ground arith)
    ]
start-HasSound seq author _ text write c h = absurd (cc h)

take_amend_question :
    (c : Case) (seq : ℕ) (author : Author) (r : Amend)
    → (take_amend seq author r c).0 ≡ ok tt
    → (check_amend r c ≡ ok tt)
      × ((take_amend seq author r c).1.kind ≡ c.kind)
      × ((take_amend seq author r c).1.question ≡ amended r c.question)
unfolding take_amend amend_question reopen
take_amend_question c seq author r h = (ground arith, ground arith, ground arith)

-- An event other than an amend leaves the question as it was.
pub take_entry_question :
    (c : Case) (seq : ℕ) (author : Author) (entry : Record) (write : Bool)
    → (take_entry seq author entry write c).0 ≡ ok tt
    → ((take_entry seq author entry write c).1.kind ≡ c.kind)
      × (((r : Amend) × (entry ≡ Record.amend r)
            × (check_amend r c ≡ ok tt)
            × ((take_entry seq author entry write c).1.question ≡ amended r c.question))
          ⊎ ((take_entry seq author entry write c).1.question ≡ c.question))
unfolding take_entry take_answer take_pickup take_note take_close take_withdraw take_park
    take_resume reopen
take_entry_question c seq author (Record.amend r) write h =
    let p = take_amend_question c seq author r h in (p.1, inl (r, refl, p.0, p.2))
take_entry_question c seq author _ write h = (ground arith, inr (ground arith))

take-HasSound :
    (seq : ℕ) (author : Author) (entry : Record) (text : String) (write : Bool) (c : Case)
    → HasSound c
    → (take seq author entry text write c).0 ≡ ok tt
    → HasSound (take seq author entry text write c).1
unfolding push_event touch
take-HasSound seq author entry text write c v h =
    let p = take_passed c seq author entry text write h in
    let q = take_entry_question c seq author entry write p.0 in
    subst HasSound (sym p.1) (
      subst (λ k. IsSound k (take_entry seq author entry write c).1.question) (sym q.0)
        (elim q.1 [
          | inl (r, _, passed, e) ↦ subst (IsSound c.kind) (sym e) (amended-IsSound r c v passed)
          | inr e ↦ subst (IsSound c.kind) (sym e) v
        ]))

HasSound-IsKept : IsKept HasSound
HasSound-IsKept = record {
  starts = start-HasSound;
  takes = take-HasSound;
  counts = λ c problems revision last_seq v. v;
}

module _ (k : Codec) where
  -- Every case that the fold gives asks a sound question, however it was amended. Its title is not
  -- blank; options, rows, landed work, left-out items and a recommend stand only on the kind that
  -- takes them; a decision has an option, an approval a row, a message a worker or a label, a
  -- briefing a body; the recommend names one of the options there now; no option or label is blank,
  -- no label is given twice; each row fits and has an id of its own; and the left-out items are at
  -- most ten, each written, short enough and given once.
  pub fold-IsSound : (rows : List Row) {c : Case} → fold k rows ≡ ok c → IsSound c.kind c.question
  fold-IsSound rows h = fold_kept HasSound-IsKept k rows h

  -- An append, accepted or refused, to a case that asks a sound question leaves one that does.
  pub append_event-IsSound :
      (append : Append) (now : Time) (writer : Option Actor) (at_revision : Option ℕ) (c : Case)
      → IsSound c.kind c.question
      → let c' = (append_event k append now writer at_revision c).1 in IsSound c'.kind c'.question
  append_event-IsSound append now writer at_revision c v =
      append_kept HasSound-IsKept k append now writer at_revision c v
