-- ===== src/Record/RoundTrip.antt =====
-- crates/core/src/record.rs: a record reads from the JSON that it is written as.
use cases.Prelude.{some, ◌≡◌, refl, ap, ◌∙◌}
use cases.Error.{ok}
use cases.Record.{Record, event}
use cases.Record.Json.{Serde, MapLaws}
use cases.Record.Spelling.{Spells, unsigned_zeros-IsSpelt}
use cases.Record.EventAlike.{read_event_alike}
use cases.Record.Reading.{map_some, read_event, read_record}
use cases.Record.Writing.{write_record, to_json}
use cases.Record.Same.{IsUnique}
use cases.Record.Unique.{unique_lem}
use cases.Record.Values.{HasTime}
use cases.Record.Asked.{
  IsOpen, IsAmend, IsAnswer, read_open-write_open, write_open-IsUnique, read_amend-write_amend,
  write_amend-IsUnique, read_answer-write_answer, write_answer-IsUnique,
}
use cases.Record.Moved.{
  read_pickup-write_pickup, write_pickup-IsUnique, read_note-write_note, write_note-IsUnique,
  read_close-write_close, write_close-IsUnique, read_withdraw-write_withdraw,
  write_withdraw-IsUnique, read_park-write_park, write_park-IsUnique, read_resume-write_resume,
  write_resume-IsUnique,
}

-- The integers and the time in a record that its reader takes. The integers are those of their types
-- but one: the reader takes no `amend_seq` below zero of an answer, although that is an `i64`. The
-- time is in the years 0000 to 9999, as its text is.
abbrev pub IsWritable : Record → Type 0
IsWritable (Record.open_ r) = IsOpen r
IsWritable (Record.amend r) = IsAmend r
IsWritable (Record.answer r) = IsAnswer r
IsWritable (Record.pickup r) = HasTime r.picked_up_at
IsWritable (Record.note r) = HasTime r.noted_at
IsWritable (Record.close r) = HasTime r.closed_at
IsWritable (Record.withdraw r) = HasTime r.withdrawn_at
IsWritable (Record.park r) = HasTime r.parked_at
IsWritable (Record.resume r) = HasTime r.resumed_at

read_event-write_record :
    (r : Record) → IsWritable r → read_event (event r) (write_record r) ≡ some r
unfolding event read_event write_record
read_event-write_record (Record.open_ r) w = ap (map_some Record.open_) (read_open-write_open r w)
read_event-write_record (Record.amend r) w = ap (map_some Record.amend) (read_amend-write_amend r w)
read_event-write_record (Record.answer r) w =
    ap (map_some Record.answer) (read_answer-write_answer r w)
read_event-write_record (Record.pickup r) w =
    ap (map_some Record.pickup) (read_pickup-write_pickup r w)
read_event-write_record (Record.note r) w = ap (map_some Record.note) (read_note-write_note r w)
read_event-write_record (Record.close r) w = ap (map_some Record.close) (read_close-write_close r w)
read_event-write_record (Record.withdraw r) w =
    ap (map_some Record.withdraw) (read_withdraw-write_withdraw r w)
read_event-write_record (Record.park r) w = ap (map_some Record.park) (read_park-write_park r w)
read_event-write_record (Record.resume r) w =
    ap (map_some Record.resume) (read_resume-write_resume r w)

write_record-IsUnique : (r : Record) → IsUnique (write_record r)
unfolding write_record
write_record-IsUnique (Record.open_ r) = write_open-IsUnique r
write_record-IsUnique (Record.amend r) = write_amend-IsUnique r
write_record-IsUnique (Record.answer r) = write_answer-IsUnique r
write_record-IsUnique (Record.pickup r) = write_pickup-IsUnique r
write_record-IsUnique (Record.note r) = write_note-IsUnique r
write_record-IsUnique (Record.close r) = write_close-IsUnique r
write_record-IsUnique (Record.withdraw r) = write_withdraw-IsUnique r
write_record-IsUnique (Record.park r) = write_park-IsUnique r
write_record-IsUnique (Record.resume r) = write_resume-IsUnique r

-- A record that can be held reads from its JSON as it is, whatever fields that leaves out.
pub read-written :
    (serde : Serde) (laws : MapLaws serde) (r : Record)
    → Spells serde (write_record r)
    → IsWritable r
    → read_record serde (event r) (to_json serde r) ≡ ok r
unfolding read_record to_json
read-written serde laws r spells h =
    let (spelt, reads) = spells (write_record-IsUnique r) in
    let (v, back, same, once) = reads in
    let (w, accepted) = (unique_lem serde laws v).0.1 once in
    let text = unsigned_zeros-IsSpelt (serde.to_string (write_record r)) spelt in
    let alike =
      read_event_alike (event r) v w ((unique_lem serde laws v).1 w accepted)
      ∙ read_event_alike (event r) (write_record r) v same in
    rw (text, back, accepted, alike, read_event-write_record r h) refl
