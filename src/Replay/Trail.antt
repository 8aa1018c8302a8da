-- ===== src/Replay/Trail.antt =====
-- crates/core/src/case.rs: the events that the fold lists, as a way through the states.
use cases.Prelude.{
  ℕ, String, Bool, true, false, ◌≡◌, refl, sym, ap, ◌∙◌, none, some, List, [], ◌∷◌, ◌++◌, arith,
  inl, inr,
}
use mathlib.Core.Path.{subst}
use cases.Error.{ok, Result-cases, ok-injective}
use cases.Names.{Author, Kind, Urgency, State, EventType, opener, written_by}
use cases.Record.{Record, Open, event}
use cases.Record.Json.{Serde}
use cases.Record.Through.{json_codec, read_record_passed}
use cases.Case.{Case, Row, Event, Problem}
use cases.Rules.Fields.{check_opener}
use cases.Rules.Opening.{check_open}
use cases.Replay.Taking.{first_state, start, take, push_event, touch}
use cases.Replay.Writing.{read}
use cases.Replay.Folding.{Held, fold_event, fold_read, fold_row, fold_rows, finish, fold}
use cases.Replay.Passed.{taken_event, take_passed}
use cases.Replay.Atomic.{take_refused}
use cases.Replay.Listed.{take_events}
use cases.Replay.Question.{take_entry_question}
use cases.Replay.Stored.{read_passed, read_author-written}
use cases.Replay.Transitions.{Move, take-Move, same_author-eq}

-- The events of a case of a kind lead to a state: an open, by the side that opens the kind, which
-- waits on the other side, and then events that each move the case along an edge, from the state
-- that the events before it led to.
pub data Trail (kind : Kind) : List Event → State → Type 0 where
  asked :
      (e : Event)
      → event e.entry ≡ EventType.open_
      → opener kind ≡ Author.agent
      → e.author ≡ Author.agent
      → Trail kind (e ∷ []) State.open_
  sent :
      (e : Event)
      → event e.entry ≡ EventType.open_
      → opener kind ≡ Author.human
      → e.author ≡ Author.human
      → Trail kind (e ∷ []) State.sent
  moved :
      {events : List Event} {s t : State} (e : Event)
      → Trail kind events s
      → e.from ≡ some s
      → Move kind e.author (event e.entry) s t
      → Trail kind (events ++ e ∷ []) t

abbrev HasTrail : Case → Type 0
HasTrail c = Trail c.kind c.events c.state

check_open-opener :
    (r : Open) (author : Author) (write : Bool) (kind : Kind) (urgency : Urgency)
    → check_open r author write ≡ ok (kind, urgency)
    → author ≡ opener kind
unfolding check_open check_opener
check_open-opener r author write kind urgency h = same_author-eq author (opener kind) (ground arith)

-- The events of a case that starts lead to its state.
started-Trail :
    (kind : Kind) (side : Author) (e : Event)
    → event e.entry ≡ EventType.open_
    → opener kind ≡ side
    → e.author ≡ side
    → Trail kind (e ∷ []) (first_state side)
started-Trail kind Author.agent e opens p q = asked e opens p q
started-Trail kind Author.human e opens p q = sent e opens p q

start-HasTrail :
    (seq : ℕ) (author : Author) (entry : Record) (text : String) (write : Bool) (c : Case)
    → start seq author entry text write ≡ ok c
    → HasTrail c
unfolding start event
start-HasTrail seq author (Record.open_ r) text write c h =
    elim (Result-cases (check_open r author write)) [
      | inl ((kind, urgency), e) ↦ subst HasTrail (ok-injective (rw e at h)) (
          started-Trail kind (opener kind) _ refl refl
            (check_open-opener r author write kind urgency e))
      | inr (x, e) ↦ absurd (ground arith)
    ]
start-HasTrail seq author _ text write c h = absurd (cc h)

kind-take :
    (seq : ℕ) (author : Author) (entry : Record) (text : String) (write : Bool) (c : Case)
    → (take seq author entry text write c).0 ≡ ok tt
    → (take seq author entry text write c).1.kind ≡ c.kind
unfolding push_event touch
kind-take seq author entry text write c h =
    let p = take_passed c seq author entry text write h in
    ap (λ (c : Case). c.kind) p.1 ∙ (take_entry_question c seq author entry write p.0).0

take-HasTrail :
    (seq : ℕ) (author : Author) (entry : Record) (text : String) (write : Bool) (c : Case)
    → written_by (event entry) author ≡ true
    → HasTrail c
    → (take seq author entry text write c).0 ≡ ok tt
    → HasTrail (take seq author entry text write c).1
take-HasTrail seq author entry text write c w trail h =
    let edge = take-Move c seq author write entry text w h in
    rw (kind-take seq author entry text write c h, take_events c seq author entry text write h)
      (moved (taken_event c seq author entry text) trail refl edge)

abbrev HeldTrail : Held → Type 0
HeldTrail none = Unit
HeldTrail (some c) = HasTrail c

module _ (row : Row) where
  fold_event-HeldTrail :
      (author : Author) (entry : Record) (held : Held)
      → written_by (event entry) author ≡ true
      → HeldTrail held
      → HeldTrail (fold_event row author entry held).1
  unfolding fold_event
  fold_event-HeldTrail author entry none w p =
      elim (Result-cases (start row.seq author entry row.text false)) [
        | inl (c, s) ↦ rw s (start-HasTrail row.seq author entry row.text false c s)
        | inr (e, s) ↦ rw s tt
      ]
  fold_event-HeldTrail author entry (some c) w p =
      elim (Result-cases (take row.seq author entry row.text false c).0) [
        | inl (_, s) ↦ take-HasTrail row.seq author entry row.text false c w p s
        | inr (e, s) ↦ subst HasTrail (sym (take_refused c row.seq author entry row.text false s)) p
      ]

module _ (serde : Serde) where
  -- A row that reads is of an event that its author may write.
  read-written_by :
      (row : Row) (author : Author) (entry : Record)
      → read (json_codec serde) row.author row.event row.text ≡ ok (author, entry)
      → written_by (event entry) author ≡ true
  read-written_by row author entry h =
      let q = read_passed (json_codec serde) row.author row.event row.text author entry h in
      subst (λ e. written_by e author ≡ true)
        (sym (read_record_passed serde q.0 row.text {r = entry} q.3).0)
        (read_author-written q.0 row.author author q.2)

  fold_row-HeldTrail :
      (row : Row) (s : Held × List Problem)
      → HeldTrail s.0
      → HeldTrail (fold_row (json_codec serde) row s).0
  unfolding fold_row fold_read
  fold_row-HeldTrail row s p =
      elim (Result-cases (read (json_codec serde) row.author row.event row.text)) [
        | inl ((author, entry), h) ↦
            rw h (fold_event-HeldTrail row author entry s.0 (read-written_by row author entry h) p)
        | inr (e, h) ↦ rw h p
      ]

  fold_rows-HeldTrail :
      (rows : List Row) (s : Held × List Problem)
      → HeldTrail s.0
      → HeldTrail (fold_rows (json_codec serde) rows s).0
  unfolding fold_rows
  fold_rows-HeldTrail [] s p = p
  fold_rows-HeldTrail (row ∷ rows) s p =
      fold_rows-HeldTrail rows (fold_row (json_codec serde) row s) (fold_row-HeldTrail row s p)

  finish-HasTrail :
      (rows : List Row) (held : Held) (problems : List Problem) {c : Case}
      → HeldTrail held
      → finish rows (held, problems) ≡ ok c
      → HasTrail c
  unfolding finish
  finish-HasTrail rows none problems p h = absurd (cc h)
  finish-HasTrail rows (some c') problems p h = subst HasTrail (ok-injective h) p

  -- The events of every case that the fold gives lead to its state: an open, by the side that opens
  -- the kind, and then events that each move the case along an edge of the state machine of its
  -- kind. The edge is one that the event and its author have from the state before it: the human
  -- alone answers, parks and resumes, and the agent alone picks up, notes and closes.
  pub fold-HasTrail :
      (rows : List Row) {c : Case}
      → fold (json_codec serde) rows ≡ ok c
      → Trail c.kind c.events c.state
  unfolding fold
  fold-HasTrail rows h =
      let s = fold_rows (json_codec serde) rows (none, []) in
      finish-HasTrail rows s.0 s.1 (fold_rows-HeldTrail rows (none, []) tt) h
