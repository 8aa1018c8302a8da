-- ===== src/Record.antt =====
-- crates/core/src/record.rs: what each event says. The structs, and the accessors of `Record`;
-- reading and writing JSON are in the children.
pub mod Codec
pub mod Json
pub mod Signs
pub mod Fields
pub mod Asking
pub mod Reading
pub mod Writing
pub mod Through
mod Slots
mod Values
mod Given
mod Written
mod Asked
mod Moved
mod Held
mod Alike
mod AskedAlike
mod EventAlike
mod AskedRead
mod MovedRead
pub mod RoundTrip
pub mod Same
pub mod Spelling
pub mod Unique
use cases.Prelude.{String, Bool, Option, List}
use cases.Prelude.Int.{ℤ}
use cases.Time.{Time}
use cases.Names.{EventType}

pub record Actor : Type 0 where
  pub id : String

pub record ApprovalRow : Type 0 where
  pub id : String
  pub label : String
  pub script : String
  pub link : String
  pub note : String
  pub by : String

pub record RowVerdict : Type 0 where
  pub id : String
  pub verdict : String
  pub note : String

pub record Open : Type 0 where
  pub kind : String
  pub urgency : String
  pub title : String
  pub body : String
  pub options : List String
  pub recommend : ℤ
  pub rows : List ApprovalRow
  pub landed : Bool
  pub left_out : List String
  pub links : List String
  pub labels : List String
  pub worker : String
  pub brief : String
  pub context : String
  pub for_ : String
  pub re : String
  pub actor : Option Actor
  pub opened_at : Option Time

pub record Amend : Type 0 where
  pub title : String
  pub body : String
  pub options : List String
  pub recommend : ℤ
  pub rows : List ApprovalRow
  pub landed : Option Bool
  pub left_out : List String
  pub links : List String
  pub drop_links : List String
  pub labels : List String
  pub context : String
  pub reopen : Bool
  pub actor : Option Actor
  pub amended_at : Option Time

pub record Answer : Type 0 where
  pub choice : ℤ
  pub other : Bool
  pub rows : List RowVerdict
  pub signoff : String
  pub briefing : String
  pub file : List ℤ
  pub text : String
  pub drop : Bool
  pub ack : Bool
  pub note : String
  pub amend_seq : ℤ
  pub actor : Option Actor
  pub answered_at : Option Time

pub record Pickup : Type 0 where
  pub by : String
  pub actor : Option Actor
  pub picked_up_at : Option Time

pub record Note : Type 0 where
  pub body : String
  pub reopen : Bool
  pub actor : Option Actor
  pub noted_at : Option Time

pub record Close : Type 0 where
  pub outcome : String
  pub links : List String
  pub expired : Bool
  pub actor : Option Actor
  pub closed_at : Option Time

pub record Withdraw : Type 0 where
  pub reason : String
  pub actor : Option Actor
  pub withdrawn_at : Option Time

pub record Park : Type 0 where
  pub note : String
  pub actor : Option Actor
  pub parked_at : Option Time

pub record Resume : Type 0 where
  pub actor : Option Actor
  pub resumed_at : Option Time

pub data Record : Type 0 where
  open_ : Open → Record
  amend : Amend → Record
  answer : Answer → Record
  pickup : Pickup → Record
  note : Note → Record
  close : Close → Record
  withdraw : Withdraw → Record
  park : Park → Record
  resume : Resume → Record

unfoldable pub event : Record → EventType
event (Record.open_ r) = EventType.open_
event (Record.amend r) = EventType.amend
event (Record.answer r) = EventType.answer
event (Record.pickup r) = EventType.pickup
event (Record.note r) = EventType.note
event (Record.close r) = EventType.close
event (Record.withdraw r) = EventType.withdraw
event (Record.park r) = EventType.park
event (Record.resume r) = EventType.resume

unfoldable pub actor : Record → Option Actor
actor (Record.open_ r) = r.actor
actor (Record.amend r) = r.actor
actor (Record.answer r) = r.actor
actor (Record.pickup r) = r.actor
actor (Record.note r) = r.actor
actor (Record.close r) = r.actor
actor (Record.withdraw r) = r.actor
actor (Record.park r) = r.actor
actor (Record.resume r) = r.actor

-- The event's time.
unfoldable pub at : Record → Option Time
at (Record.open_ r) = r.opened_at
at (Record.amend r) = r.amended_at
at (Record.answer r) = r.answered_at
at (Record.pickup r) = r.picked_up_at
at (Record.note r) = r.noted_at
at (Record.close r) = r.closed_at
at (Record.withdraw r) = r.withdrawn_at
at (Record.park r) = r.parked_at
at (Record.resume r) = r.resumed_at

-- A write through `actor_mut`.
unfoldable pub set_actor : Option Actor → Record → Record
set_actor a (Record.open_ r) = Record.open_ (record r { actor = a })
set_actor a (Record.amend r) = Record.amend (record r { actor = a })
set_actor a (Record.answer r) = Record.answer (record r { actor = a })
set_actor a (Record.pickup r) = Record.pickup (record r { actor = a })
set_actor a (Record.note r) = Record.note (record r { actor = a })
set_actor a (Record.close r) = Record.close (record r { actor = a })
set_actor a (Record.withdraw r) = Record.withdraw (record r { actor = a })
set_actor a (Record.park r) = Record.park (record r { actor = a })
set_actor a (Record.resume r) = Record.resume (record r { actor = a })

-- A write through `at_mut`.
unfoldable pub set_at : Option Time → Record → Record
set_at t (Record.open_ r) = Record.open_ (record r { opened_at = t })
set_at t (Record.amend r) = Record.amend (record r { amended_at = t })
set_at t (Record.answer r) = Record.answer (record r { answered_at = t })
set_at t (Record.pickup r) = Record.pickup (record r { picked_up_at = t })
set_at t (Record.note r) = Record.note (record r { noted_at = t })
set_at t (Record.close r) = Record.close (record r { closed_at = t })
set_at t (Record.withdraw r) = Record.withdraw (record r { withdrawn_at = t })
set_at t (Record.park r) = Record.park (record r { parked_at = t })
set_at t (Record.resume r) = Record.resume (record r { resumed_at = t })
