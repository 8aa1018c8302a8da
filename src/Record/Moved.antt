-- ===== src/Record/Moved.antt =====
-- crates/core/src/record.rs: the other events read from what they are written as.
use cases.Prelude.{some, ◌≡◌, refl}
use cases.Record.{Pickup, Note, Close, Withdraw, Park, Resume}
use cases.Record.Json.{str}
use cases.Record.Fields.{read_text, read_time_field}
use cases.Record.Asking.{read_actor}
use cases.Record.Reading.{
  pickup_of, read_pickup, note_of, read_note, close_of, read_close, withdraw_of, read_withdraw,
  park_of, read_park, resume_of, read_resume,
}
use cases.Record.Writing.{
  write_actor, write_time, pickup_slots, write_pickup, note_slots, write_note, close_slots,
  write_close, withdraw_slots, write_withdraw, park_slots, write_park, resume_slots, write_resume,
}
use cases.Record.Same.{IsUnique}
use cases.Record.Slots.{◌&◌, compact-AreUniqueFields}
use cases.Record.Values.{
  all_back, some_back, read_text-str, time_back, unique-text, unique-flag, unique-list, unique-some,
  str-IsUnique, write_time-IsUnique,
}
use cases.Record.Given.{text_given, flag_given, list_given, some_given}
use cases.Record.Written.{read_actor-write_actor, write_actor-IsUnique}
use cases.Record.Values.{HasTime}

pub read_pickup-write_pickup :
    (r : Pickup) → HasTime r.picked_up_at → read_pickup (write_pickup r) ≡ some r
unfolding read_pickup write_pickup pickup_of pickup_slots
read_pickup-write_pickup r w =
    let slots = pickup_slots r in
    rw
      (
        text_given slots refl "by" r.by refl,
        some_given slots refl "actor" read_actor write_actor r.actor
            (some_back read_actor write_actor read_actor-write_actor r.actor) refl,
        some_given slots refl "picked_up_at" read_time_field write_time r.picked_up_at
            (time_back r.picked_up_at w) refl,
      )
      refl

pub write_pickup-IsUnique : (r : Pickup) → IsUnique (write_pickup r)
unfolding write_pickup pickup_slots IsUnique
write_pickup-IsUnique r = compact-AreUniqueFields (pickup_slots r) refl (
    unique-text r.by
    & unique-some write_actor write_actor-IsUnique r.actor
    & unique-some write_time write_time-IsUnique r.picked_up_at
    & tt)

pub read_note-write_note : (r : Note) → HasTime r.noted_at → read_note (write_note r) ≡ some r
unfolding read_note write_note note_of note_slots
read_note-write_note r w =
    let slots = note_slots r in
    rw
      (
        text_given slots refl "body" r.body refl,
        flag_given slots refl "reopen" r.reopen refl,
        some_given slots refl "actor" read_actor write_actor r.actor
            (some_back read_actor write_actor read_actor-write_actor r.actor) refl,
        some_given slots refl "noted_at" read_time_field write_time r.noted_at
            (time_back r.noted_at w) refl,
      )
      refl

pub write_note-IsUnique : (r : Note) → IsUnique (write_note r)
unfolding write_note note_slots IsUnique
write_note-IsUnique r = compact-AreUniqueFields (note_slots r) refl (
    unique-text r.body
    & unique-flag r.reopen
    & unique-some write_actor write_actor-IsUnique r.actor
    & unique-some write_time write_time-IsUnique r.noted_at
    & tt)

pub read_close-write_close : (r : Close) → HasTime r.closed_at → read_close (write_close r) ≡ some r
unfolding read_close write_close close_of close_slots
read_close-write_close r w =
    let slots = close_slots r in
    rw
      (
        text_given slots refl "outcome" r.outcome refl,
        list_given slots refl "links" read_text str r.links
            (all_back read_text str read_text-str r.links) refl,
        flag_given slots refl "expired" r.expired refl,
        some_given slots refl "actor" read_actor write_actor r.actor
            (some_back read_actor write_actor read_actor-write_actor r.actor) refl,
        some_given slots refl "closed_at" read_time_field write_time r.closed_at
            (time_back r.closed_at w) refl,
      )
      refl

pub write_close-IsUnique : (r : Close) → IsUnique (write_close r)
unfolding write_close close_slots IsUnique
write_close-IsUnique r = compact-AreUniqueFields (close_slots r) refl (
    unique-text r.outcome
    & unique-list str str-IsUnique r.links
    & unique-flag r.expired
    & unique-some write_actor write_actor-IsUnique r.actor
    & unique-some write_time write_time-IsUnique r.closed_at
    & tt)

pub read_withdraw-write_withdraw :
    (r : Withdraw) → HasTime r.withdrawn_at → read_withdraw (write_withdraw r) ≡ some r
unfolding read_withdraw write_withdraw withdraw_of withdraw_slots
read_withdraw-write_withdraw r w =
    let slots = withdraw_slots r in
    rw
      (
        text_given slots refl "reason" r.reason refl,
        some_given slots refl "actor" read_actor write_actor r.actor
            (some_back read_actor write_actor read_actor-write_actor r.actor) refl,
        some_given slots refl "withdrawn_at" read_time_field write_time r.withdrawn_at
            (time_back r.withdrawn_at w) refl,
      )
      refl

pub write_withdraw-IsUnique : (r : Withdraw) → IsUnique (write_withdraw r)
unfolding write_withdraw withdraw_slots IsUnique
write_withdraw-IsUnique r = compact-AreUniqueFields (withdraw_slots r) refl (
    unique-text r.reason
    & unique-some write_actor write_actor-IsUnique r.actor
    & unique-some write_time write_time-IsUnique r.withdrawn_at
    & tt)

pub read_park-write_park : (r : Park) → HasTime r.parked_at → read_park (write_park r) ≡ some r
unfolding read_park write_park park_of park_slots
read_park-write_park r w =
    let slots = park_slots r in
    rw
      (
        text_given slots refl "note" r.note refl,
        some_given slots refl "actor" read_actor write_actor r.actor
            (some_back read_actor write_actor read_actor-write_actor r.actor) refl,
        some_given slots refl "parked_at" read_time_field write_time r.parked_at
            (time_back r.parked_at w) refl,
      )
      refl

pub write_park-IsUnique : (r : Park) → IsUnique (write_park r)
unfolding write_park park_slots IsUnique
write_park-IsUnique r = compact-AreUniqueFields (park_slots r) refl (
    unique-text r.note
    & unique-some write_actor write_actor-IsUnique r.actor
    & unique-some write_time write_time-IsUnique r.parked_at
    & tt)

pub read_resume-write_resume :
    (r : Resume) → HasTime r.resumed_at → read_resume (write_resume r) ≡ some r
unfolding read_resume write_resume resume_of resume_slots
read_resume-write_resume r w =
    let slots = resume_slots r in
    rw
      (
        some_given slots refl "actor" read_actor write_actor r.actor
            (some_back read_actor write_actor read_actor-write_actor r.actor) refl,
        some_given slots refl "resumed_at" read_time_field write_time r.resumed_at
            (time_back r.resumed_at w) refl,
      )
      refl

pub write_resume-IsUnique : (r : Resume) → IsUnique (write_resume r)
unfolding write_resume resume_slots IsUnique
write_resume-IsUnique r = compact-AreUniqueFields (resume_slots r) refl (
    unique-some write_actor write_actor-IsUnique r.actor
    & unique-some write_time write_time-IsUnique r.resumed_at
    & tt)
