-- ===== src/Record/Codec.antt =====
-- crates/core/src/record.rs: what replay uses of `Record::read` and `Record::to_json`, which read a
-- record from the JSON text of a row and write it there, and what it relies on.
use cases.Prelude.{String, Option, some, ◌≡◌}
use cases.Error.{Result, ok}
use cases.Names.{EventType}
use cases.Time.{Time}
use cases.Record.{Actor, Record, event, set_actor, set_at}

pub record Codec : Type 0 where
  pub read_record : EventType → String → Result Record
  pub to_json : Record → String

-- A record that reads is of the event that it was read as, and a record that reads, with an actor
-- or a time put into it, reads back from the text that it is written as.
pub record CodecLaws (k : Codec) (Now : Time → Type 0) : Type 1 where
  pub Writable : Record → Type 0
  pub event-read :
      (e : EventType) (s : String) (r : Record) → k.read_record e s ≡ ok r → event r ≡ e
  pub read-Writable :
      (e : EventType) (s : String) (r : Record) → k.read_record e s ≡ ok r → Writable r
  pub set_actor-Writable : (a : Option Actor) (r : Record) → Writable r → Writable (set_actor a r)
  pub set_at-Writable : (t : Time) (r : Record) → Now t → Writable r → Writable (set_at (some t) r)
  pub read-to_json : (r : Record) → Writable r → k.read_record (event r) (k.to_json r) ≡ ok r
