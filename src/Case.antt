-- ===== src/Case.antt =====
-- crates/core/src/case.rs: a stored row, an event for the writer, and the case that the rows fold
-- to. The operations are in Replay; the rules that they check are in Rules.
use cases.Prelude.{ℕ, String, Option, List}
use cases.Error.{Category}
use cases.Names.{Author, Kind, State, Urgency}
use cases.Time.{Time}
use cases.Record.{Record, Open, Answer, Pickup, Park, Close}

-- The row's number is a `u64`.
pub record Row : Type 0 where
  pub seq : ℕ
  pub author : String
  pub event : String
  pub text : String  -- the field `data`

pub record Append : Type 0 where
  pub author : String
  pub event : String
  pub text : String  -- the field `data`

pub record Event : Type 0 where
  pub seq : ℕ
  pub author : Author
  pub from : Option State
  pub entry : Record  -- the field `record`
  pub text : String  -- the field `data`

pub record Problem : Type 0 where
  pub seq : ℕ
  pub author : String
  pub event : String
  pub error : Category

pub record Case : Type 0 where
  pub state : State
  pub revision : ℕ
  pub last_seq : ℕ
  pub amend_seq : ℕ
  pub updated_at : Option Time
  pub kind : Kind
  pub urgency : Urgency
  pub question : Open
  pub answer : Option Answer
  pub pickup : Option Pickup
  pub park : Option Park
  pub close : Option Close
  pub events : List Event
  pub problems : List Problem
