-- ===== src/Replay/Transitions.antt =====
-- crates/core/src/case.rs: the states that an event moves a case between.
use cases.Prelude.{
  ℕ, String, Bool, true, false, not, ◌&&◌, ◌||◌, ◌≡◌, refl, ◌⊎◌, arith, if◌then◌else◌,
}
use cases.Error.{ok}
use cases.Names.{Author, Kind, State, EventType, opener, same_author, state_eq, written_by}
use cases.Record.{Record, Amend, Answer, Note, Close, Park, event}
use cases.Case.{Case}
use cases.Rules.Fields.{check_opener}
use cases.Replay.Passed.{take_passed, state-take}
use cases.Replay.Taking.{
  take_amend, take_answer, take_pickup, take_note, take_close, take_withdraw, take_park,
  take_resume, take_entry, take, amend_question, reopen, waits, had,
}

-- The state machine of `spec/vectors/README.md`: which event, by which author, moves a case of a
-- kind from one state to another.
pub data Move (kind : Kind) (author : Author) : EventType → State → State → Type 0 where
  amend_waiting :
      {s : State}
      → author ≡ opener kind
      → (s ≡ State.open_) ⊎ (s ≡ State.sent)
      → Move kind author EventType.amend s s
  amend_reopens :
      {s : State}
      → author ≡ Author.agent
      → opener kind ≡ Author.agent
      → (s ≡ State.answered) ⊎ (s ≡ State.picked_up)
      → Move kind author EventType.amend s State.open_
  answered : author ≡ Author.human → Move kind author EventType.answer State.open_ State.answered
  picked_up :
      {s : State}
      → author ≡ Author.agent
      → (s ≡ State.answered) ⊎ (s ≡ State.sent)
      → Move kind author EventType.pickup s State.picked_up
  noted :
      author ≡ Author.agent
      → opener kind ≡ Author.agent
      → Move kind author EventType.note State.open_ State.open_
  note_reopens :
      {s : State}
      → author ≡ Author.agent
      → opener kind ≡ Author.agent
      → (s ≡ State.answered) ⊎ (s ≡ State.picked_up)
      → Move kind author EventType.note s State.open_
  closed : author ≡ Author.agent → Move kind author EventType.close State.picked_up State.closed
  withdrawn : Move kind author EventType.withdraw State.open_ State.withdrawn
  ended :
      {s : State}
      → author ≡ Author.human
      → (s ≡ State.sent) ⊎ ((s ≡ State.answered) ⊎ (s ≡ State.picked_up))
      → Move kind author EventType.withdraw s State.withdrawn
  parked :
      author ≡ Author.human
      → kind ≡ Kind.stuck
      → Move kind author EventType.park State.open_ State.parked
  resumed : author ≡ Author.human → Move kind author EventType.resume State.parked State.open_

ruleset moves = (
  amend_waiting, amend_reopens, answered, picked_up, noted, note_reopens, closed, withdrawn, ended,
  parked, resumed,
)

-- What the checks of `take_amend` leave, and the state that it gives.
take_amend_passed :
    (c : Case) (seq : ℕ) (author : Author) (r : Amend)
    → (take_amend seq author r c).0 ≡ ok tt
    → (author ≡ opener c.kind)
      × ((waits c.state || (r.reopen && had c.state && same_author (opener c.kind) Author.agent))
          ≡ true)
      × ((r.reopen && not (had c.state)) ≡ false)
      × ((take_amend seq author r c).1.state ≡ (if r.reopen then State.open_ else c.state))
unfolding take_amend amend_question reopen check_opener
take_amend_passed c seq author r h = (ground arith, ground arith, ground arith, ground arith)

amend_Move :
    (kind : Kind) (author : Author) (s : State) (reopens : Bool)
    → author ≡ opener kind
    → (waits s || (reopens && had s && same_author (opener kind) Author.agent)) ≡ true
    → (reopens && not (had s)) ≡ false
    → Move kind author EventType.amend s (if reopens then State.open_ else s)
amend_Move kind author State.open_ false p q r = grind (arith, moves)
amend_Move kind author State.sent false p q r = grind (arith, moves)
amend_Move kind author State.answered true p q r = grind (arith, moves)
amend_Move kind author State.picked_up true p q r = grind (arith, moves)
amend_Move kind author _ _ p q r = ground arith

module _ (c : Case) where
  take_answer_passed :
      (r : Answer)
      → (take_answer r c).0 ≡ ok tt
      → (c.state ≡ State.open_) × ((take_answer r c).1.state ≡ State.answered)
  unfolding take_answer
  take_answer_passed r h = (ground arith, ground arith)

  take_note_passed :
      (r : Note) (write : Bool)
      → (take_note r write c).0 ≡ ok tt
      → (opener c.kind ≡ Author.agent)
        × ((state_eq c.state State.open_ || had c.state) ≡ true)
        × ((take_note r write c).1.state ≡ State.open_)
  unfolding take_note reopen
  take_note_passed r write h = (ground arith, ground arith, ground arith)

  take_close_passed :
      (r : Close)
      → (take_close r c).0 ≡ ok tt
      → (c.state ≡ State.picked_up) × ((take_close r c).1.state ≡ State.closed)
  unfolding take_close
  take_close_passed r h = (ground arith, ground arith)

  take_park_passed :
      (r : Park)
      → (take_park r c).0 ≡ ok tt
      → (c.state ≡ State.open_) × (c.kind ≡ Kind.stuck) × ((take_park r c).1.state ≡ State.parked)
  unfolding take_park
  take_park_passed r h = (ground arith, ground arith, ground arith)

note_Move :
    (kind : Kind) (author : Author) (s : State)
    → author ≡ Author.agent
    → opener kind ≡ Author.agent
    → (state_eq s State.open_ || had s) ≡ true
    → Move kind author EventType.note s State.open_
note_Move kind author State.open_ w p q = noted w p
note_Move kind author State.answered w p q = grind (arith, note_reopens)
note_Move kind author State.picked_up w p q = grind (arith, note_reopens)
note_Move kind author _ w p q = ground arith

pub same_author-eq : (a b : Author) → same_author a b ≡ true → a ≡ b
same_author-eq Author.agent Author.agent h = refl
same_author-eq Author.human Author.human h = refl
same_author-eq Author.agent Author.human h = absurd (cc h)
same_author-eq Author.human Author.agent h = absurd (cc h)

module _ (c : Case) (seq : ℕ) (author : Author) (write : Bool) where
  take_entry-Move :
      (entry : Record)
      → written_by (event entry) author ≡ true
      → (take_entry seq author entry write c).0 ≡ ok tt
      → Move c.kind author (event entry) c.state (take_entry seq author entry write c).1.state
  unfolding take_entry take_pickup take_withdraw take_resume event written_by
  take_entry-Move (Record.open_ r) w h = ground arith
  take_entry-Move (Record.amend r) w h =
      let p = take_amend_passed c seq author r h in
      rw p.3 (amend_Move c.kind author c.state r.reopen p.0 p.1 p.2)
  take_entry-Move (Record.answer r) w h =
      let p = take_answer_passed c r h in rw (p.1, p.0) (answered (same_author-eq _ _ w))
  take_entry-Move (Record.pickup r) w h =
      let agent = same_author-eq author Author.agent w in grind (arith, picked_up)
  take_entry-Move (Record.note r) w h =
      let p = take_note_passed c r write h in
      rw p.2 (note_Move c.kind author c.state (same_author-eq _ _ w) p.0 p.1)
  take_entry-Move (Record.close r) w h =
      let p = take_close_passed c r h in rw (p.1, p.0) (closed (same_author-eq _ _ w))
  take_entry-Move (Record.withdraw r) w h = grind (arith, withdrawn, ended)
  take_entry-Move (Record.park r) w h =
      let p = take_park_passed c r h in rw (p.2, p.0) (parked (same_author-eq _ _ w) p.1)
  take_entry-Move (Record.resume r) w h =
      let human = same_author-eq author Author.human w in grind (arith, resumed)

  -- An event that its author may write, and that a case takes, moves it along an edge.
  pub take-Move :
      (entry : Record) (text : String)
      → written_by (event entry) author ≡ true
      → (take seq author entry text write c).0 ≡ ok tt
      → Move c.kind author (event entry) c.state (take seq author entry text write c).1.state
  take-Move entry text w h =
      rw (state-take c seq author entry text write h)
        (take_entry-Move entry w (take_passed c seq author entry text write h).0)
