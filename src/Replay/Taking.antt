-- ===== src/Replay/Taking.antt =====
-- crates/core/src/case.rs: `start`, and `take` with the handler of each event.
use cases.Prelude.{
  ℕ, String, Bool, true, false, not, ◌&&◌, ◌||◌, Option, none, some, List, [], ◌∷◌, ◌++◌, is_empty,
  no_text, contains, if◌then◌else◌,
}
use cases.Prelude.Int.{pos, is_zero, ltb_ℤ}
use cases.Error.{invalid, transition, stale, Result, ok, err, refuse, require}
use cases.Names.{Author, Kind, State, Urgency, opener, same_author, kind_eq, state_eq}
use cases.Time.{Time, later}
use cases.Record.{Record, Open, Amend, Answer, Pickup, Note, Close, Park, at}
use cases.Case.{Case, Event}
use cases.Rules.Fields.{blank, check_opener}
use cases.Rules.Opening.{check_open}
use cases.Rules.Amending.{check_amend, changes_question}
use cases.Rules.Answering.{check_answer}
use cases.Act.{Taken, lift, get, modify, ◌>>=◌, ◌>>◌}

-- A case waits first on the side that did not open it.
abbrev pub first_state : Author → State
first_state Author.human = State.sent
first_state Author.agent = State.open_

abbrev pub started : ℕ → Author → Open → String → Kind × Urgency → Case
started seq author question text (kind, urgency) = record {
  state = first_state (opener kind);
  revision = 0;
  last_seq = 0;
  amend_seq = 0;
  updated_at = question.opened_at;
  kind = kind;
  urgency = urgency;
  question = question;
  answer = none;
  pickup = none;
  park = none;
  close = none;
  events =
      record { seq = seq; author = author; from = none; entry = Record.open_ question; text = text }
      ∷ [];
  problems = [];
}

abbrev pub map_ok {ℓ κ} : {A : Type ℓ} {B : Type κ} → (A → B) → Result A → Result B
map_ok f (ok a) = ok (f a)
map_ok f (err e) = err e

unfoldable pub start : ℕ → Author → Record → String → Bool → Result Case
start seq author (Record.open_ question) text write =
    map_ok (started seq author question text) (check_open question author write)
start seq author _ text write = err transition

-- Refuses an event as a transition unless the state allows it.
abbrev pub allow : Bool → Taken
allow allowed = lift (require allowed transition)

-- `matches!(state, ..)`.
abbrev pub had : State → Bool
had State.answered = true
had State.picked_up = true
had _ = false

abbrev pub waits : State → Bool
waits State.open_ = true
waits State.sent = true
waits _ = false

unfoldable pub reopen : Case → Case
reopen c = record c { answer = none; pickup = none; state = State.open_ }

abbrev pub retain : (String → Bool) → List String → List String
retain p [] = []
retain p (x ∷ xs) = if p x then x ∷ retain p xs else retain p xs

abbrev pub or_given : String → String → String
or_given new old = if no_text new then old else new

abbrev pub unwrap_or {ℓ} : {A : Type ℓ} → Option A → A → A
unwrap_or none b = b
unwrap_or (some a) b = a

unfoldable pub amended : Amend → Open → Open
amended amend question = record question {
  options = question.options ++ amend.options;
  rows = question.rows ++ amend.rows;
  links = retain (λ link. not (contains amend.drop_links link)) question.links ++ amend.links;
  labels = question.labels ++ amend.labels;
  title = or_given amend.title question.title;
  body = or_given amend.body question.body;
  context = or_given amend.context question.context;
  recommend = if is_zero amend.recommend then question.recommend else amend.recommend;
  landed = unwrap_or amend.landed question.landed;
  left_out = if is_empty amend.left_out then question.left_out else amend.left_out;
}

unfoldable pub amend_question : Amend → Case → Case
unfolding amended
amend_question amend c = record c { question = amended amend c.question }

unfoldable pub take_amend : ℕ → Author → Amend → Taken
take_amend seq author amend = do
  c ← get
  lift (check_opener c.kind author)
  let reopens = had c.state
  allow (waits c.state || (amend.reopen && reopens && same_author (opener c.kind) Author.agent))
  lift (refuse (amend.reopen && not reopens) invalid)
  lift (check_amend amend c)
  modify (λ c. if changes_question amend c then record c { amend_seq = seq } else c)
  modify (amend_question amend)
  modify (λ c. if amend.reopen then reopen c else c)

unfoldable pub take_answer : Answer → Taken
take_answer answer = do
  c ← get
  lift (refuse (ltb_ℤ answer.amend_seq (pos c.amend_seq)) stale)
  allow (state_eq c.state State.open_)
  lift (check_answer answer c)
  modify (λ c. record c { answer = some answer; state = State.answered })

unfoldable pub take_pickup : Pickup → Taken
take_pickup pickup = do
  c ← get
  allow (state_eq c.state State.answered || state_eq c.state State.sent)
  modify (λ c. record c { pickup = some pickup; state = State.picked_up })

unfoldable pub take_note : Note → Bool → Taken
take_note note write = do
  c ← get
  allow (state_eq c.state State.open_ || had c.state)
  lift (refuse (same_author (opener c.kind) Author.human) transition)
  let reopens = not (state_eq c.state State.open_)
  lift (refuse (write && reopens && not note.reopen) transition)
  lift (refuse (blank note.body) invalid)
  lift (refuse (note.reopen && not reopens) invalid)
  modify (λ c. if reopens then reopen c else c)

unfoldable pub take_close : Close → Taken
take_close close = do
  c ← get
  allow (state_eq c.state State.picked_up)
  lift (refuse (blank close.outcome) invalid)
  lift (refuse (close.expired && not (kind_eq c.kind Kind.briefing)) invalid)
  modify (λ c. record c { close = some close; state = State.closed })

unfoldable pub take_withdraw : Author → Taken
take_withdraw author = do
  c ← get
  lift (
      require
        (state_eq c.state State.open_
          || (same_author author Author.human && (state_eq c.state State.sent || had c.state)))
        transition)
  modify (λ c. record c { state = State.withdrawn })

unfoldable pub take_park : Park → Taken
take_park park = do
  c ← get
  allow (state_eq c.state State.open_)
  lift (require (kind_eq c.kind Kind.stuck) transition)
  modify (λ c. record c { park = some park; state = State.parked })

unfoldable pub take_resume : Taken
take_resume = do
  c ← get
  allow (state_eq c.state State.parked)
  modify (λ c. record c { park = none; state = State.open_ })

-- The `match` of `take`.
unfoldable pub take_entry : ℕ → Author → Record → Bool → Taken
take_entry seq author (Record.open_ r) write = lift (err transition)
take_entry seq author (Record.amend r) write = take_amend seq author r
take_entry seq author (Record.answer r) write = take_answer r
take_entry seq author (Record.pickup r) write = take_pickup r
take_entry seq author (Record.note r) write = take_note r write
take_entry seq author (Record.close r) write = take_close r
take_entry seq author (Record.withdraw r) write = take_withdraw author
take_entry seq author (Record.park r) write = take_park r
take_entry seq author (Record.resume r) write = take_resume

unfoldable pub touch : Option Time → Case → Case
touch t c = record c { updated_at = if later t c.updated_at then t else c.updated_at }

unfoldable pub push_event : Event → Case → Case
push_event e c = record c { events = c.events ++ e ∷ [] }

unfoldable pub take : ℕ → Author → Record → String → Bool → Taken
take seq author entry text write = do
  c ← get
  take_entry seq author entry write
  modify (touch (at entry))
  modify (
      push_event
        (record { seq = seq; author = author; from = some c.state; entry = entry; text = text }))
