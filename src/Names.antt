-- ===== src/Names.antt =====
-- crates/core/src/names.rs: kinds, urgencies, states, authors and event types. The macro `names!`
-- gives each enum its spelling (`as_str`) and its exact reading (`from_str`); both are written out.
pub mod RoundTrip
use cases.Prelude.{ℕ, String, Bool, true, false, ◌==◌, nat_eq, if◌then◌else◌}
use cases.Error.{Category, Result, ok, err}

pub data Kind : Type 0 where
  decision approval signoff stuck question fyi message briefing : Kind

unfoldable pub kind_as_str : Kind → String
kind_as_str Kind.decision = "decision"
kind_as_str Kind.approval = "approval"
kind_as_str Kind.signoff = "signoff"
kind_as_str Kind.stuck = "stuck"
kind_as_str Kind.question = "question"
kind_as_str Kind.fyi = "fyi"
kind_as_str Kind.message = "message"
kind_as_str Kind.briefing = "briefing"

unfoldable pub kind_from_str : String → Result Kind
kind_from_str s =
    if s == "decision"
    then ok Kind.decision
    else if s == "approval"
    then ok Kind.approval
    else if s == "signoff"
    then ok Kind.signoff
    else if s == "stuck"
    then ok Kind.stuck
    else if s == "question"
    then ok Kind.question
    else if s == "fyi"
    then ok Kind.fyi
    else if s == "message"
    then ok Kind.message
    else if s == "briefing"
    then ok Kind.briefing
    else err Category.unknown

pub data Urgency : Type 0 where
  blocking today whenever : Urgency

unfoldable pub urgency_as_str : Urgency → String
urgency_as_str Urgency.blocking = "blocking"
urgency_as_str Urgency.today = "today"
urgency_as_str Urgency.whenever = "whenever"

unfoldable pub urgency_from_str : String → Result Urgency
urgency_from_str s =
    if s == "blocking"
    then ok Urgency.blocking
    else if s == "today"
    then ok Urgency.today
    else if s == "whenever"
    then ok Urgency.whenever
    else err Category.unknown

pub data State : Type 0 where
  open_ answered picked_up closed withdrawn parked sent : State

unfoldable pub state_as_str : State → String
state_as_str State.open_ = "open"
state_as_str State.answered = "answered"
state_as_str State.picked_up = "pickedup"
state_as_str State.closed = "closed"
state_as_str State.withdrawn = "withdrawn"
state_as_str State.parked = "parked"
state_as_str State.sent = "sent"

unfoldable pub state_from_str : String → Result State
state_from_str s =
    if s == "open"
    then ok State.open_
    else if s == "answered"
    then ok State.answered
    else if s == "pickedup"
    then ok State.picked_up
    else if s == "closed"
    then ok State.closed
    else if s == "withdrawn"
    then ok State.withdrawn
    else if s == "parked"
    then ok State.parked
    else if s == "sent"
    then ok State.sent
    else err Category.unknown

pub data Author : Type 0 where
  agent human : Author

unfoldable pub author_as_str : Author → String
author_as_str Author.agent = "agent"
author_as_str Author.human = "human"

unfoldable pub author_from_str : String → Result Author
author_from_str s =
    if s == "agent"
    then ok Author.agent
    else if s == "human"
    then ok Author.human
    else err Category.author

pub data EventType : Type 0 where
  open_ amend answer pickup note close withdraw park resume : EventType

unfoldable pub event_type_as_str : EventType → String
event_type_as_str EventType.open_ = "open"
event_type_as_str EventType.amend = "amend"
event_type_as_str EventType.answer = "answer"
event_type_as_str EventType.pickup = "pickup"
event_type_as_str EventType.note = "note"
event_type_as_str EventType.close = "close"
event_type_as_str EventType.withdraw = "withdraw"
event_type_as_str EventType.park = "park"
event_type_as_str EventType.resume = "resume"

unfoldable pub event_type_from_str : String → Result EventType
event_type_from_str s =
    if s == "open"
    then ok EventType.open_
    else if s == "amend"
    then ok EventType.amend
    else if s == "answer"
    then ok EventType.answer
    else if s == "pickup"
    then ok EventType.pickup
    else if s == "note"
    then ok EventType.note
    else if s == "close"
    then ok EventType.close
    else if s == "withdraw"
    then ok EventType.withdraw
    else if s == "park"
    then ok EventType.park
    else if s == "resume"
    then ok EventType.resume
    else err Category.unknown

-- The side that opens a case of this kind, and so writes its open and its amends.
unfoldable pub opener : Kind → Author
opener Kind.message = Author.human
opener _ = Author.agent

abbrev pub same_author : Author → Author → Bool
same_author Author.agent Author.agent = true
same_author Author.human Author.human = true
same_author _ _ = false

-- Whether the author may write the event on some case.
unfoldable pub written_by : EventType → Author → Bool
written_by EventType.pickup author = same_author author Author.agent
written_by EventType.note author = same_author author Author.agent
written_by EventType.close author = same_author author Author.agent
written_by EventType.answer author = same_author author Author.human
written_by EventType.park author = same_author author Author.human
written_by EventType.resume author = same_author author Author.human
written_by EventType.open_ author = true
written_by EventType.amend author = true
written_by EventType.withdraw author = true

-- The derived equality of `Kind`, by the place of its constructors.
abbrev pub kind_index : Kind → ℕ
kind_index Kind.decision = 0
kind_index Kind.approval = 1
kind_index Kind.signoff = 2
kind_index Kind.stuck = 3
kind_index Kind.question = 4
kind_index Kind.fyi = 5
kind_index Kind.message = 6
kind_index Kind.briefing = 7

abbrev pub kind_eq : Kind → Kind → Bool
kind_eq a b = nat_eq (kind_index a) (kind_index b)

-- The derived equality of `State`, by the place of its constructors.
abbrev pub state_index : State → ℕ
state_index State.open_ = 0
state_index State.answered = 1
state_index State.picked_up = 2
state_index State.closed = 3
state_index State.withdrawn = 4
state_index State.parked = 5
state_index State.sent = 6

abbrev pub state_eq : State → State → Bool
state_eq a b = nat_eq (state_index a) (state_index b)
