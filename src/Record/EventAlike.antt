-- ===== src/Record/EventAlike.antt =====
-- crates/core/src/record.rs: a record of any event reads alike, whatever the order of the fields.
use cases.Prelude.{false, ◌≡◌, refl, ap, none, []}
use cases.Names.{EventType}
use cases.Record.{Record}
use cases.Record.Json.{Json, Fields}
use cases.Record.Fields.{read_text, read_bool, read_time_field, read_list, read_some}
use cases.Record.Asking.{read_actor}
use cases.Record.Reading.{
  map_some, read_event, pickup_of, read_pickup, note_of, read_note, close_of, read_close,
  withdraw_of, read_withdraw, park_of, read_park, resume_of, read_resume,
}
use cases.Record.AskedAlike.{read_actor_alike, read_open_alike, read_amend_alike, read_answer_alike}
use cases.Record.Same.{
  Same, null_same, boolean_same, int_same, float_same, str_same, array_same, object_same,
}
use cases.Record.Alike.{
  HasSame, read_text_alike, read_bool_alike, read_time_field_alike, list_alike, some_alike,
  field_alike,
}

pickup_alike : (f g : Fields) → HasSame f g → pickup_of g ≡ pickup_of f
unfolding pickup_of
pickup_alike f g same =
    rw
      (
        field_alike read_text read_text_alike f g same "by" "",
        field_alike (read_some read_actor) (some_alike read_actor read_actor_alike) f g same "actor"
            none,
        field_alike (read_some read_time_field) (some_alike read_time_field read_time_field_alike) f
            g same "picked_up_at" none,
      )
      refl

pub read_pickup_alike : (v w : Json) → Same v w → read_pickup w ≡ read_pickup v
unfolding read_pickup
read_pickup_alike _ _ (object_same {f} {g} p) = pickup_alike f g p
read_pickup_alike _ _ null_same = refl
read_pickup_alike _ _ (boolean_same b) = refl
read_pickup_alike _ _ (int_same n) = refl
read_pickup_alike _ _ (float_same s) = refl
read_pickup_alike _ _ (str_same s) = refl
read_pickup_alike _ _ (array_same p) = refl

note_alike : (f g : Fields) → HasSame f g → note_of g ≡ note_of f
unfolding note_of
note_alike f g same =
    rw
      (
        field_alike read_text read_text_alike f g same "body" "",
        field_alike read_bool read_bool_alike f g same "reopen" false,
        field_alike (read_some read_actor) (some_alike read_actor read_actor_alike) f g same "actor"
            none,
        field_alike (read_some read_time_field) (some_alike read_time_field read_time_field_alike) f
            g same "noted_at" none,
      )
      refl

pub read_note_alike : (v w : Json) → Same v w → read_note w ≡ read_note v
unfolding read_note
read_note_alike _ _ (object_same {f} {g} p) = note_alike f g p
read_note_alike _ _ null_same = refl
read_note_alike _ _ (boolean_same b) = refl
read_note_alike _ _ (int_same n) = refl
read_note_alike _ _ (float_same s) = refl
read_note_alike _ _ (str_same s) = refl
read_note_alike _ _ (array_same p) = refl

close_alike : (f g : Fields) → HasSame f g → close_of g ≡ close_of f
unfolding close_of
close_alike f g same =
    rw
      (
        field_alike read_text read_text_alike f g same "outcome" "",
        field_alike (read_list read_text) (list_alike read_text read_text_alike) f g same "links"
            [],
        field_alike read_bool read_bool_alike f g same "expired" false,
        field_alike (read_some read_actor) (some_alike read_actor read_actor_alike) f g same "actor"
            none,
        field_alike (read_some read_time_field) (some_alike read_time_field read_time_field_alike) f
            g same "closed_at" none,
      )
      refl

pub read_close_alike : (v w : Json) → Same v w → read_close w ≡ read_close v
unfolding read_close
read_close_alike _ _ (object_same {f} {g} p) = close_alike f g p
read_close_alike _ _ null_same = refl
read_close_alike _ _ (boolean_same b) = refl
read_close_alike _ _ (int_same n) = refl
read_close_alike _ _ (float_same s) = refl
read_close_alike _ _ (str_same s) = refl
read_close_alike _ _ (array_same p) = refl

withdraw_alike : (f g : Fields) → HasSame f g → withdraw_of g ≡ withdraw_of f
unfolding withdraw_of
withdraw_alike f g same =
    rw
      (
        field_alike read_text read_text_alike f g same "reason" "",
        field_alike (read_some read_actor) (some_alike read_actor read_actor_alike) f g same "actor"
            none,
        field_alike (read_some read_time_field) (some_alike read_time_field read_time_field_alike) f
            g same "withdrawn_at" none,
      )
      refl

pub read_withdraw_alike : (v w : Json) → Same v w → read_withdraw w ≡ read_withdraw v
unfolding read_withdraw
read_withdraw_alike _ _ (object_same {f} {g} p) = withdraw_alike f g p
read_withdraw_alike _ _ null_same = refl
read_withdraw_alike _ _ (boolean_same b) = refl
read_withdraw_alike _ _ (int_same n) = refl
read_withdraw_alike _ _ (float_same s) = refl
read_withdraw_alike _ _ (str_same s) = refl
read_withdraw_alike _ _ (array_same p) = refl

park_alike : (f g : Fields) → HasSame f g → park_of g ≡ park_of f
unfolding park_of
park_alike f g same =
    rw
      (
        field_alike read_text read_text_alike f g same "note" "",
        field_alike (read_some read_actor) (some_alike read_actor read_actor_alike) f g same "actor"
            none,
        field_alike (read_some read_time_field) (some_alike read_time_field read_time_field_alike) f
            g same "parked_at" none,
      )
      refl

pub read_park_alike : (v w : Json) → Same v w → read_park w ≡ read_park v
unfolding read_park
read_park_alike _ _ (object_same {f} {g} p) = park_alike f g p
read_park_alike _ _ null_same = refl
read_park_alike _ _ (boolean_same b) = refl
read_park_alike _ _ (int_same n) = refl
read_park_alike _ _ (float_same s) = refl
read_park_alike _ _ (str_same s) = refl
read_park_alike _ _ (array_same p) = refl

resume_alike : (f g : Fields) → HasSame f g → resume_of g ≡ resume_of f
unfolding resume_of
resume_alike f g same =
    rw
      (
        field_alike (read_some read_actor) (some_alike read_actor read_actor_alike) f g same "actor"
            none,
        field_alike (read_some read_time_field) (some_alike read_time_field read_time_field_alike) f
            g same "resumed_at" none,
      )
      refl

pub read_resume_alike : (v w : Json) → Same v w → read_resume w ≡ read_resume v
unfolding read_resume
read_resume_alike _ _ (object_same {f} {g} p) = resume_alike f g p
read_resume_alike _ _ null_same = refl
read_resume_alike _ _ (boolean_same b) = refl
read_resume_alike _ _ (int_same n) = refl
read_resume_alike _ _ (float_same s) = refl
read_resume_alike _ _ (str_same s) = refl
read_resume_alike _ _ (array_same p) = refl

pub read_event_alike : (e : EventType) (v w : Json) → Same v w → read_event e w ≡ read_event e v
unfolding read_event
read_event_alike EventType.open_ v w p = ap (map_some Record.open_) (read_open_alike v w p)
read_event_alike EventType.amend v w p = ap (map_some Record.amend) (read_amend_alike v w p)
read_event_alike EventType.answer v w p = ap (map_some Record.answer) (read_answer_alike v w p)
read_event_alike EventType.pickup v w p = ap (map_some Record.pickup) (read_pickup_alike v w p)
read_event_alike EventType.note v w p = ap (map_some Record.note) (read_note_alike v w p)
read_event_alike EventType.close v w p = ap (map_some Record.close) (read_close_alike v w p)
read_event_alike EventType.withdraw v w p =
    ap (map_some Record.withdraw) (read_withdraw_alike v w p)
read_event_alike EventType.park v w p = ap (map_some Record.park) (read_park_alike v w p)
read_event_alike EventType.resume v w p = ap (map_some Record.resume) (read_resume_alike v w p)
