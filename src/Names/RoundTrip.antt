-- ===== src/Names/RoundTrip.antt =====
-- crates/core/src/names.rs: a name reads exactly as the records spell it.
use cases.Prelude.{String, ◌≡◌, refl, ◌↔◌, arith, eq_iff}
use cases.Error.{ok}
use cases.Names.{
  Kind, Urgency, State, Author, EventType, kind_as_str, kind_from_str, urgency_as_str,
  urgency_from_str, state_as_str, state_from_str, author_as_str, author_from_str, event_type_as_str,
  event_type_from_str,
}

pub kind_from_str-as_str : (x : Kind) → kind_from_str (kind_as_str x) ≡ ok x
unfolding kind_from_str kind_as_str
kind_from_str-as_str Kind.decision = refl
kind_from_str-as_str Kind.approval = refl
kind_from_str-as_str Kind.signoff = refl
kind_from_str-as_str Kind.stuck = refl
kind_from_str-as_str Kind.question = refl
kind_from_str-as_str Kind.fyi = refl
kind_from_str-as_str Kind.message = refl
kind_from_str-as_str Kind.briefing = refl

pub kind_as_str-from_str : (s : String) (x : Kind) → kind_from_str s ≡ ok x → kind_as_str x ≡ s
unfolding kind_from_str kind_as_str
kind_as_str-from_str s x h = ground (
  arith,
  eq_iff s "decision",
  eq_iff s "approval",
  eq_iff s "signoff",
  eq_iff s "stuck",
  eq_iff s "question",
  eq_iff s "fyi",
  eq_iff s "message",
  eq_iff s "briefing",
)

pub urgency_from_str-as_str : (x : Urgency) → urgency_from_str (urgency_as_str x) ≡ ok x
unfolding urgency_from_str urgency_as_str
urgency_from_str-as_str Urgency.blocking = refl
urgency_from_str-as_str Urgency.today = refl
urgency_from_str-as_str Urgency.whenever = refl

pub urgency_as_str-from_str :
    (s : String) (x : Urgency) → urgency_from_str s ≡ ok x → urgency_as_str x ≡ s
unfolding urgency_from_str urgency_as_str
urgency_as_str-from_str s x h =
    ground (arith, eq_iff s "blocking", eq_iff s "today", eq_iff s "whenever")

pub state_from_str-as_str : (x : State) → state_from_str (state_as_str x) ≡ ok x
unfolding state_from_str state_as_str
state_from_str-as_str State.open_ = refl
state_from_str-as_str State.answered = refl
state_from_str-as_str State.picked_up = refl
state_from_str-as_str State.closed = refl
state_from_str-as_str State.withdrawn = refl
state_from_str-as_str State.parked = refl
state_from_str-as_str State.sent = refl

pub state_as_str-from_str : (s : String) (x : State) → state_from_str s ≡ ok x → state_as_str x ≡ s
unfolding state_from_str state_as_str
state_as_str-from_str s x h = ground (
  arith,
  eq_iff s "open",
  eq_iff s "answered",
  eq_iff s "pickedup",
  eq_iff s "closed",
  eq_iff s "withdrawn",
  eq_iff s "parked",
  eq_iff s "sent",
)

pub author_from_str-as_str : (x : Author) → author_from_str (author_as_str x) ≡ ok x
unfolding author_from_str author_as_str
author_from_str-as_str Author.agent = refl
author_from_str-as_str Author.human = refl

pub author_as_str-from_str :
    (s : String) (x : Author) → author_from_str s ≡ ok x → author_as_str x ≡ s
unfolding author_from_str author_as_str
author_as_str-from_str s x h = ground (arith, eq_iff s "agent", eq_iff s "human")

pub event_type_from_str-as_str : (x : EventType) → event_type_from_str (event_type_as_str x) ≡ ok x
unfolding event_type_from_str event_type_as_str
event_type_from_str-as_str EventType.open_ = refl
event_type_from_str-as_str EventType.amend = refl
event_type_from_str-as_str EventType.answer = refl
event_type_from_str-as_str EventType.pickup = refl
event_type_from_str-as_str EventType.note = refl
event_type_from_str-as_str EventType.close = refl
event_type_from_str-as_str EventType.withdraw = refl
event_type_from_str-as_str EventType.park = refl
event_type_from_str-as_str EventType.resume = refl

pub event_type_as_str-from_str :
    (s : String) (x : EventType) → event_type_from_str s ≡ ok x → event_type_as_str x ≡ s
unfolding event_type_from_str event_type_as_str
event_type_as_str-from_str s x h = ground (
  arith,
  eq_iff s "open",
  eq_iff s "amend",
  eq_iff s "answer",
  eq_iff s "pickup",
  eq_iff s "note",
  eq_iff s "close",
  eq_iff s "withdraw",
  eq_iff s "park",
  eq_iff s "resume",
)

-- A text reads as a kind, an urgency, a state, an author or an event exactly when it is that
-- name's spelling: reading undoes spelling, and nothing else reads.
pub names_read_exactly :
    ((s : String) (x : Kind) → (kind_from_str s ≡ ok x) ↔ (kind_as_str x ≡ s))
    × ((s : String) (x : Urgency) → (urgency_from_str s ≡ ok x) ↔ (urgency_as_str x ≡ s))
    × ((s : String) (x : State) → (state_from_str s ≡ ok x) ↔ (state_as_str x ≡ s))
    × ((s : String) (x : Author) → (author_from_str s ≡ ok x) ↔ (author_as_str x ≡ s))
    × ((s : String) (x : EventType) → (event_type_from_str s ≡ ok x) ↔ (event_type_as_str x ≡ s))
names_read_exactly = (
  λ s x. (kind_as_str-from_str s x, λ e. rw (← e) (kind_from_str-as_str x)),
  λ s x. (urgency_as_str-from_str s x, λ e. rw (← e) (urgency_from_str-as_str x)),
  λ s x. (state_as_str-from_str s x, λ e. rw (← e) (state_from_str-as_str x)),
  λ s x. (author_as_str-from_str s x, λ e. rw (← e) (author_from_str-as_str x)),
  λ s x. (event_type_as_str-from_str s x, λ e. rw (← e) (event_type_from_str-as_str x)),
)
