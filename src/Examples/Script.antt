-- ===== src/Examples/Script.antt =====
-- Records, rows and a small reader of rows for the examples.
use cases.Prelude.{String, false, none, List, [], ◌∷◌, ◌==◌, if◌then◌else◌}
use cases.Prelude.Int.{pos}
use cases.Error.{Category, Result, ok, err}
use cases.Names.{EventType}
use cases.Time.{Time}
use cases.Record.{Record, Open, Amend, Answer, Pickup, Note, Close}
use cases.Record.Codec.{Codec}
use cases.Case.{Row, Append}

-- `Open::default()`.
abbrev pub empty_open : Open
empty_open = record {
  kind = "";
  urgency = "";
  title = "";
  body = "";
  options = [];
  recommend = pos 0;
  rows = [];
  landed = false;
  left_out = [];
  links = [];
  labels = [];
  worker = "";
  brief = "";
  context = "";
  for_ = "";
  re = "";
  actor = none;
  opened_at = none;
}

-- `Amend::default()`.
abbrev pub empty_amend : Amend
empty_amend = record {
  title = "";
  body = "";
  options = [];
  recommend = pos 0;
  rows = [];
  landed = none;
  left_out = [];
  links = [];
  drop_links = [];
  labels = [];
  context = "";
  reopen = false;
  actor = none;
  amended_at = none;
}

-- `Answer::default()`.
abbrev pub empty_answer : Answer
empty_answer = record {
  choice = pos 0;
  other = false;
  rows = [];
  signoff = "";
  briefing = "";
  file = [];
  text = "";
  drop = false;
  ack = false;
  note = "";
  amend_seq = pos 0;
  actor = none;
  answered_at = none;
}

-- `Pickup::default()`.
abbrev pub empty_pickup : Pickup
empty_pickup = record { by = ""; actor = none; picked_up_at = none }

-- `Note::default()`.
abbrev pub empty_note : Note
empty_note = record { body = ""; reopen = false; actor = none; noted_at = none }

-- `Close::default()`.
abbrev pub empty_close : Close
empty_close = record { outcome = ""; links = []; expired = false; actor = none; closed_at = none }

abbrev pub now : Time
now = record { secs = pos 1789462860; nanos = 0 }

abbrev pub asked : Open
asked = record empty_open {
  kind = "decision";
  urgency = "today";
  title = "Pin or float?";
  options = "Pin" ∷ "Float" ∷ [];
  recommend = pos 1;
}

abbrev pub chosen : Answer
chosen = record empty_answer { choice = pos 2 }

-- Each text is the record of its event that it names.
scripted_open : String → Result Record
scripted_open s = if s == "asked" then ok (Record.open_ asked) else err Category.malformed

scripted_answer : String → Result Record
scripted_answer s = if s == "chosen" then ok (Record.answer chosen) else err Category.malformed

scripted_read : EventType → String → Result Record
unfolding scripted_open scripted_answer
scripted_read EventType.open_ s = scripted_open s
scripted_read EventType.answer s = scripted_answer s
scripted_read EventType.pickup s = ok (Record.pickup empty_pickup)
scripted_read _ s = err Category.malformed

unfoldable pub scripted : Codec
unfolding scripted_read
scripted = record { read_record = scripted_read; to_json = λ r. "" }

abbrev pub open_row : Row
open_row = record { seq = 1; author = "agent"; event = "open"; text = "asked" }

abbrev pub bad_row : Row
bad_row = record { seq = 2; author = "agent"; event = "answer"; text = "chosen" }

abbrev pub answer_row : Row
answer_row = record { seq = 3; author = "human"; event = "answer"; text = "chosen" }

abbrev pub answer_append : Append
answer_append = record { author = "human"; event = "answer"; text = "chosen" }

abbrev pub stored_rows : List Row
stored_rows = open_row ∷ bad_row ∷ answer_row ∷ []
