-- ===== src/Record/Reading.antt =====
-- crates/core/src/record.rs: `object!` of the other events, and `Record::read`.
use cases.Prelude.{String, false, Option, none, some, []}
use cases.Error.{malformed, Result, ok, err}
use cases.Names.{EventType}
use cases.Record.{Pickup, Note, Close, Withdraw, Park, Resume, Record}
use cases.Record.Json.{Json, Fields, object, Serde, ◌>>=◌, unique}
use cases.Record.Signs.{unsigned_zeros}
use cases.Record.Fields.{read_text, read_bool, read_time_field, read_list, read_some, read_field}
use cases.Record.Asking.{read_actor, read_open, read_amend, read_answer}

unfoldable pub pickup_of : Fields → Option Pickup
pickup_of fields = do
  by' ← read_field fields "by" read_text ""
  actor' ← read_field fields "actor" (read_some read_actor) none
  picked_up_at' ← read_field fields "picked_up_at" (read_some read_time_field) none
  some (record { by = by'; actor = actor'; picked_up_at = picked_up_at' })

unfoldable pub read_pickup : Json → Option Pickup
unfolding pickup_of
read_pickup (object fields) = pickup_of fields
read_pickup _ = none

unfoldable pub note_of : Fields → Option Note
note_of fields = do
  body' ← read_field fields "body" read_text ""
  reopen' ← read_field fields "reopen" read_bool false
  actor' ← read_field fields "actor" (read_some read_actor) none
  noted_at' ← read_field fields "noted_at" (read_some read_time_field) none
  some (record { body = body'; reopen = reopen'; actor = actor'; noted_at = noted_at' })

unfoldable pub read_note : Json → Option Note
unfolding note_of
read_note (object fields) = note_of fields
read_note _ = none

unfoldable pub close_of : Fields → Option Close
close_of fields = do
  outcome' ← read_field fields "outcome" read_text ""
  links' ← read_field fields "links" (read_list read_text) []
  expired' ← read_field fields "expired" read_bool false
  actor' ← read_field fields "actor" (read_some read_actor) none
  closed_at' ← read_field fields "closed_at" (read_some read_time_field) none
  some (record {
    outcome = outcome';
    links = links';
    expired = expired';
    actor = actor';
    closed_at = closed_at';
  })

unfoldable pub read_close : Json → Option Close
unfolding close_of
read_close (object fields) = close_of fields
read_close _ = none

unfoldable pub withdraw_of : Fields → Option Withdraw
withdraw_of fields = do
  reason' ← read_field fields "reason" read_text ""
  actor' ← read_field fields "actor" (read_some read_actor) none
  withdrawn_at' ← read_field fields "withdrawn_at" (read_some read_time_field) none
  some (record { reason = reason'; actor = actor'; withdrawn_at = withdrawn_at' })

unfoldable pub read_withdraw : Json → Option Withdraw
unfolding withdraw_of
read_withdraw (object fields) = withdraw_of fields
read_withdraw _ = none

unfoldable pub park_of : Fields → Option Park
park_of fields = do
  note' ← read_field fields "note" read_text ""
  actor' ← read_field fields "actor" (read_some read_actor) none
  parked_at' ← read_field fields "parked_at" (read_some read_time_field) none
  some (record { note = note'; actor = actor'; parked_at = parked_at' })

unfoldable pub read_park : Json → Option Park
unfolding park_of
read_park (object fields) = park_of fields
read_park _ = none

unfoldable pub resume_of : Fields → Option Resume
resume_of fields = do
  actor' ← read_field fields "actor" (read_some read_actor) none
  resumed_at' ← read_field fields "resumed_at" (read_some read_time_field) none
  some (record { actor = actor'; resumed_at = resumed_at' })

unfoldable pub read_resume : Json → Option Resume
unfolding resume_of
read_resume (object fields) = resume_of fields
read_resume _ = none

abbrev pub map_some {ℓ κ} : {A : Type ℓ} {B : Type κ} → (A → B) → Option A → Option B
map_some f none = none
map_some f (some a) = some (f a)

-- The `match event` of `Record::read`.
unfoldable pub read_event : EventType → Json → Option Record
read_event EventType.open_ value = map_some Record.open_ (read_open value)
read_event EventType.amend value = map_some Record.amend (read_amend value)
read_event EventType.answer value = map_some Record.answer (read_answer value)
read_event EventType.pickup value = map_some Record.pickup (read_pickup value)
read_event EventType.note value = map_some Record.note (read_note value)
read_event EventType.close value = map_some Record.close (read_close value)
read_event EventType.withdraw value = map_some Record.withdraw (read_withdraw value)
read_event EventType.park value = map_some Record.park (read_park value)
read_event EventType.resume value = map_some Record.resume (read_resume value)

abbrev pub or_malformed : Option Record → Result Record
or_malformed (some r) = ok r
or_malformed none = err malformed

unfoldable pub read_record : Serde → EventType → String → Result Record
unfolding read_event
read_record serde e text = or_malformed (do
  spelt ← serde.from_str (unsigned_zeros text)
  value ← unique serde spelt
  read_event e value)
