-- ===== src/Replay/Lifecycle.antt =====
-- crates/core/src/case.rs: what a case holds in each state: its answer, pickup, park and close.
use cases.Prelude.{
  ℕ, String, Bool, true, false, not, ◌&&◌, ◌||◌, ◌≡◌, Option, none, some, List, arith, sym, inl,
  inr,
}
use mathlib.Core.Path.{subst}
use cases.Error.{ok, Result-cases, ok-injective}
use cases.Names.{Author, Kind, State, Urgency, opener, kind_eq, state_eq}
use cases.Time.{Time}
use cases.Record.{Actor, Record, Open, Amend, Answer, Note, Close}
use cases.Record.Codec.{Codec}
use cases.Case.{Case, Event, Row, Append, Problem}
use cases.Rules.Fields.{blank}
use cases.Rules.Opening.{check_open}
use cases.Rules.Amending.{is_some}
use cases.Replay.Taking.{
  start, started, take_amend, take_answer, take_pickup, take_note, take_close, take_withdraw,
  take_park, take_resume, take_entry, take, amend_question, reopen, touch, push_event,
}
use cases.Replay.Folding.{fold}
use cases.Replay.Appending.{append_event}
use cases.Replay.Passed.{take_passed}
use cases.Replay.Induction.{IsKept, fold_kept, append_kept}

-- The states of a case that the author's side opens.
abbrev pub is_state_of : Author → State → Bool
is_state_of Author.human State.sent = true
is_state_of Author.human State.picked_up = true
is_state_of Author.human State.closed = true
is_state_of Author.human State.withdrawn = true
is_state_of Author.human _ = false
is_state_of Author.agent State.sent = false
is_state_of Author.agent _ = true

-- Whether a case in the state may (or may not) have an answer. A withdrawn case keeps what it had.
abbrev pub answer_fits : Author → State → Bool → Bool
answer_fits Author.human s has = not has
answer_fits Author.agent State.answered has = has
answer_fits Author.agent State.picked_up has = has
answer_fits Author.agent State.closed has = has
answer_fits Author.agent State.withdrawn has = true
answer_fits Author.agent _ has = not has

abbrev pub pickup_fits : State → Bool → Bool
pickup_fits State.picked_up has = has
pickup_fits State.closed has = has
pickup_fits State.withdrawn has = true
pickup_fits _ has = not has

abbrev pub close_fits : Kind → Option Close → Bool
close_fits kind none = true
close_fits kind (some r) = not (blank r.outcome) && (not r.expired || kind_eq kind Kind.briefing)

pub record IsLifecycle (c : Case) : Type 0 where
  pub side : is_state_of (opener c.kind) c.state ≡ true
  pub answer : answer_fits (opener c.kind) c.state (is_some c.answer) ≡ true
  pub pickup : pickup_fits c.state (is_some c.pickup) ≡ true
  pub pickup_answered :
      (opener c.kind ≡ Author.agent) → is_some c.pickup ≡ true → is_some c.answer ≡ true
  pub park : is_some c.park ≡ state_eq c.state State.parked
  pub stuck : c.state ≡ State.parked → c.kind ≡ Kind.stuck
  pub close : is_some c.close ≡ state_eq c.state State.closed
  pub outcome : close_fits c.kind c.close ≡ true

started-IsLifecycle :
    (seq : ℕ) (author : Author) (r : Open) (text : String) (kind : Kind) (urgency : Urgency)
    → IsLifecycle (started seq author r text (kind, urgency))
unfolding opener
started-IsLifecycle seq author r text kind urgency = ground arith

start-IsLifecycle :
    (seq : ℕ) (author : Author) (entry : Record) (text : String) (write : Bool) (c : Case)
    → start seq author entry text write ≡ ok c
    → IsLifecycle c
unfolding start
start-IsLifecycle seq author (Record.open_ r) text write c h =
    elim (Result-cases (check_open r author write)) [
      | inl ((kind, urgency), e) ↦
          subst IsLifecycle (ok-injective (rw e at h))
            (started-IsLifecycle seq author r text kind urgency)
      | inr (x, e) ↦ absurd (ground arith)
    ]
start-IsLifecycle seq author _ text write c h = absurd (cc h)

module _ (c : Case) (v : IsLifecycle c) where
  take_amend-IsLifecycle :
      (seq : ℕ) (author : Author) (r : Amend)
      → (take_amend seq author r c).0 ≡ ok tt
      → IsLifecycle (take_amend seq author r c).1
  unfolding take_amend amend_question reopen opener
  take_amend-IsLifecycle seq author r h = ground arith

  take_answer-IsLifecycle :
      (r : Answer) → (take_answer r c).0 ≡ ok tt → IsLifecycle (take_answer r c).1
  unfolding take_answer opener
  take_answer-IsLifecycle r h = ground arith

  take_note-IsLifecycle :
      (r : Note) (write : Bool)
      → (take_note r write c).0 ≡ ok tt
      → IsLifecycle (take_note r write c).1
  unfolding take_note reopen opener
  take_note-IsLifecycle r write h = ground arith

  take_entry-IsLifecycle :
      (seq : ℕ) (author : Author) (entry : Record) (write : Bool)
      → (take_entry seq author entry write c).0 ≡ ok tt
      → IsLifecycle (take_entry seq author entry write c).1
  unfolding take_entry take_pickup take_close take_withdraw take_park take_resume opener
  take_entry-IsLifecycle seq author (Record.open_ r) write h = ground arith
  take_entry-IsLifecycle seq author (Record.amend r) write h = take_amend-IsLifecycle seq author r h
  take_entry-IsLifecycle seq author (Record.answer r) write h = take_answer-IsLifecycle r h
  take_entry-IsLifecycle seq author (Record.note r) write h = take_note-IsLifecycle r write h
  take_entry-IsLifecycle seq author _ write h = ground arith

listed-IsLifecycle :
    (c : Case) (e : Event) (t : Option Time)
    → IsLifecycle c
    → IsLifecycle (push_event e (touch t c))
unfolding push_event touch
listed-IsLifecycle c e t v = record {
  side = v.side;
  answer = v.answer;
  pickup = v.pickup;
  pickup_answered = v.pickup_answered;
  park = v.park;
  stuck = v.stuck;
  close = v.close;
  outcome = v.outcome;
}

counted-IsLifecycle :
    (c : Case) (problems : List Problem) (revision last_seq : ℕ)
    → IsLifecycle c
    → IsLifecycle (record c { problems = problems; revision = revision; last_seq = last_seq })
counted-IsLifecycle c problems revision last_seq v = record {
  side = v.side;
  answer = v.answer;
  pickup = v.pickup;
  pickup_answered = v.pickup_answered;
  park = v.park;
  stuck = v.stuck;
  close = v.close;
  outcome = v.outcome;
}

take-IsLifecycle :
    (seq : ℕ) (author : Author) (entry : Record) (text : String) (write : Bool) (c : Case)
    → IsLifecycle c
    → (take seq author entry text write c).0 ≡ ok tt
    → IsLifecycle (take seq author entry text write c).1
take-IsLifecycle seq author entry text write c v h =
    let p = take_passed c seq author entry text write h in
    subst IsLifecycle (sym p.1)
      (listed-IsLifecycle _ _ _ (take_entry-IsLifecycle c v seq author entry write p.0))

pub IsLifecycle-IsKept : IsKept IsLifecycle
IsLifecycle-IsKept = record {
  starts = start-IsLifecycle;
  takes = take-IsLifecycle;
  counts = counted-IsLifecycle;
}

module _ (k : Codec) where
  -- Every case that the fold gives holds what its state says: an answer exactly while it is
  -- answered, picked up or closed (a withdrawn one keeps what it had), and none on a case that the
  -- human opened; a pickup only with it; a park exactly while it is parked, which only a stuck case
  -- is; and a close exactly while it is closed, with an outcome that is not blank, and expired only
  -- on a briefing. A case of the human's is only ever sent, picked up, closed or withdrawn, and
  -- another is never sent.
  pub fold-IsLifecycle : (rows : List Row) {c : Case} → fold k rows ≡ ok c → IsLifecycle c
  fold-IsLifecycle rows h = fold_kept IsLifecycle-IsKept k rows h

  -- An append, accepted or refused, to a case that holds what its state says leaves one that does.
  pub append_event-IsLifecycle :
      (append : Append) (now : Time) (writer : Option Actor) (at_revision : Option ℕ) (c : Case)
      → IsLifecycle c
      → IsLifecycle (append_event k append now writer at_revision c).1
  append_event-IsLifecycle append now writer at_revision c v =
      append_kept IsLifecycle-IsKept k append now writer at_revision c v
