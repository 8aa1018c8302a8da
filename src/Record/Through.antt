-- ===== src/Record/Through.antt =====
-- crates/core/src/record.rs: `Record::read` and `Record::to_json` over `serde_json`, as replay uses
-- them, and that they keep the laws it relies on.
use cases.Prelude.{String, Option, none, some, ◌≡◌, refl, ap, some-injective, ◌↔◌}
use mathlib.Core.Path.{subst}
use cases.Error.{ok, ok-injective}
use cases.Names.{EventType}
use cases.Time.{Time}
use cases.Time.Text.Accepted.{IsTime}
use cases.Record.{Actor, Record, event, set_actor, set_at}
use cases.Record.Codec.{Codec, CodecLaws}
use cases.Record.Json.{Json, Serde, MapLaws, unique}
use cases.Record.Spelling.{Spells}
use cases.Record.Signs.{unsigned_zeros}
use cases.Record.Reading.{
  map_some, read_event, or_malformed, read_record, read_pickup, read_note, read_close,
  read_withdraw, read_park, read_resume,
}
use cases.Record.Asking.{read_open, read_amend, read_answer}
use cases.Record.Writing.{write_record, to_json}
use cases.Record.Held.{bind_given}
use cases.Record.AskedRead.{read_open_passed, read_amend_passed, read_answer_passed}
use cases.Record.MovedRead.{
  read_pickup_passed, read_note_passed, read_close_passed, read_withdraw_passed, read_park_passed,
  read_resume_passed,
}
use cases.Record.RoundTrip.{IsWritable, read-written}

abbrev pub json_codec : Serde → Codec
json_codec serde = record { read_record = read_record serde; to_json = to_json serde }

-- What replay relies on of `serde_json`: its map holds what was inserted, and it spells the value of
-- a record that can be read, so that it reads it back.
pub record SerdeLaws (serde : Serde) : Type 0 where
  pub map : MapLaws serde
  pub spells : (r : Record) → IsWritable r → Spells serde (write_record r)

-- A record that was read as one of an event.
abbrev pub IsOf : EventType → Record → Type 0
IsOf e r = (event r ≡ e) × IsWritable r

map_some_passed :
    {A : Type 0} (make : A → Record) (o : Option A) (e : EventType) {r : Record}
    → ((a : A) → o ≡ some a → IsOf e (make a))
    → map_some make o ≡ some r
    → IsOf e r
map_some_passed make none e p h = absurd (cc h)
map_some_passed make (some a) e p h = subst (IsOf e) (some-injective h) (p a refl)

read_event_passed : (e : EventType) (v : Json) {r : Record} → read_event e v ≡ some r → IsOf e r
unfolding read_event event
read_event_passed EventType.open_ v {r = r} h =
    map_some_passed Record.open_ (read_open v) EventType.open_ {r = r}
      (λ a p. (refl, read_open_passed v {r = a} p)) h
read_event_passed EventType.amend v {r = r} h =
    map_some_passed Record.amend (read_amend v) EventType.amend {r = r}
      (λ a p. (refl, read_amend_passed v {r = a} p)) h
read_event_passed EventType.answer v {r = r} h =
    map_some_passed Record.answer (read_answer v) EventType.answer {r = r}
      (λ a p. (refl, read_answer_passed v {r = a} p)) h
read_event_passed EventType.pickup v {r = r} h =
    map_some_passed Record.pickup (read_pickup v) EventType.pickup {r = r}
      (λ a p. (refl, read_pickup_passed v {r = a} p)) h
read_event_passed EventType.note v {r = r} h =
    map_some_passed Record.note (read_note v) EventType.note {r = r}
      (λ a p. (refl, read_note_passed v {r = a} p)) h
read_event_passed EventType.close v {r = r} h =
    map_some_passed Record.close (read_close v) EventType.close {r = r}
      (λ a p. (refl, read_close_passed v {r = a} p)) h
read_event_passed EventType.withdraw v {r = r} h =
    map_some_passed Record.withdraw (read_withdraw v) EventType.withdraw {r = r}
      (λ a p. (refl, read_withdraw_passed v {r = a} p)) h
read_event_passed EventType.park v {r = r} h =
    map_some_passed Record.park (read_park v) EventType.park {r = r}
      (λ a p. (refl, read_park_passed v {r = a} p)) h
read_event_passed EventType.resume v {r = r} h =
    map_some_passed Record.resume (read_resume v) EventType.resume {r = r}
      (λ a p. (refl, read_resume_passed v {r = a} p)) h

or_malformed_ok : (o : Option Record) {r : Record} → or_malformed o ≡ ok r → o ≡ some r
or_malformed_ok none h = absurd (cc h)
or_malformed_ok (some s) h = ap some (ok-injective h)

pub read_record_passed :
    (serde : Serde) (e : EventType) (s : String) {r : Record}
    → read_record serde e s ≡ ok r
    → IsOf e r
unfolding read_record
read_record_passed serde e s {r = r} h =
    let h = or_malformed_ok _ {r = r} h in
    let (spelt, p, h) = bind_given (serde.from_str (unsigned_zeros s)) _ {b = r} h in
    let (value, q, h) = bind_given (unique serde spelt) _ {b = r} h in
    read_event_passed e value {r = r} h

-- A record of whichever event reads from its JSON as it is, whatever fields that leaves out, exactly
-- when its integers are of their types, an answer's `amend_seq` is not below zero, which its `i64`
-- could be, and its time is in the years 0000 to 9999. That is where `serde_json` spells the value of
-- the record so that it reads it back, and its map holds what was inserted.
pub read_record-to_json :
    (serde : Serde) (laws : MapLaws serde) (r : Record)
    → Spells serde (write_record r)
    → (read_record serde (event r) (to_json serde r) ≡ ok r) ↔ IsWritable r
read_record-to_json serde laws r spells = (
  λ h. (read_record_passed serde (event r) (to_json serde r) {r = r} h).1,
  read-written serde laws r spells,
)

set_actor-IsWritable : (a : Option Actor) (r : Record) → IsWritable r → IsWritable (set_actor a r)
unfolding set_actor
set_actor-IsWritable a (Record.open_ r) w = record { recommend = w.recommend; time = w.time }
set_actor-IsWritable a (Record.amend r) w = record { recommend = w.recommend; time = w.time }
set_actor-IsWritable a (Record.answer r) w = record {
  choice = w.choice;
  file = w.file;
  amend_seq = w.amend_seq;
  counted = w.counted;
  time = w.time;
}
set_actor-IsWritable a (Record.pickup r) w = w
set_actor-IsWritable a (Record.note r) w = w
set_actor-IsWritable a (Record.close r) w = w
set_actor-IsWritable a (Record.withdraw r) w = w
set_actor-IsWritable a (Record.park r) w = w
set_actor-IsWritable a (Record.resume r) w = w

set_at-IsWritable :
    (t : Time) (r : Record) → IsTime t → IsWritable r → IsWritable (set_at (some t) r)
unfolding set_at
set_at-IsWritable t (Record.open_ r) p w = record { recommend = w.recommend; time = p }
set_at-IsWritable t (Record.amend r) p w = record { recommend = w.recommend; time = p }
set_at-IsWritable t (Record.answer r) p w = record {
  choice = w.choice;
  file = w.file;
  amend_seq = w.amend_seq;
  counted = w.counted;
  time = p;
}
set_at-IsWritable t (Record.pickup r) p w = p
set_at-IsWritable t (Record.note r) p w = p
set_at-IsWritable t (Record.close r) p w = p
set_at-IsWritable t (Record.withdraw r) p w = p
set_at-IsWritable t (Record.park r) p w = p
set_at-IsWritable t (Record.resume r) p w = p

pub json_codec-CodecLaws : (serde : Serde) → SerdeLaws serde → CodecLaws (json_codec serde) IsTime
json_codec-CodecLaws serde laws = record {
  Writable = IsWritable;
  event-read = λ e s r h. (read_record_passed serde e s {r = r} h).0;
  read-Writable = λ e s r h. (read_record_passed serde e s {r = r} h).1;
  set_actor-Writable = set_actor-IsWritable;
  set_at-Writable = set_at-IsWritable;
  read-to_json = λ r w. read-written serde laws.map r (laws.spells r w) w;
}
