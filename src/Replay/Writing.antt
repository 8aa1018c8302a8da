-- ===== src/Replay/Writing.antt =====
-- crates/core/src/case.rs: `read`, `stamp`, `new_row`, `Append::new` and `Case::open`, over
-- the reading and the writing of records.
use cases.Prelude.{ℕ, ◌+◌, ◌^◌, ◌-◌, String, true, Option, none, some, ltb, nat_eq, if◌then◌else◌}
use cases.Error.{Category, transition, stale, Result, ok, err, Checked, ◌>>=◌, ◌>>◌, require}
use cases.Names.{
  Author, EventType, author_as_str, author_from_str, event_type_as_str, event_type_from_str,
  written_by,
}
use cases.Time.{Time}
use cases.Record.{Actor, Record, event, actor, at, set_actor, set_at}
use cases.Record.Codec.{Codec}
use cases.Case.{Case, Row, Append}
use cases.Rules.Fields.{check_actor}
use cases.Replay.Taking.{start}

-- `author.parse().ok().filter(..).ok_or(..)`: whatever fails is an error of the author.
abbrev pub allowed_author : EventType → Result Author → Result Author
allowed_author e (ok author) = if written_by e author then ok author else err Category.author
allowed_author e (err _) = err Category.author

unfoldable pub read_author : EventType → String → Result Author
read_author e text = allowed_author e (author_from_str text)

abbrev pub u64_mod : ℕ
u64_mod = 2 ^ 64

abbrev pub u64_max : ℕ
u64_max = u64_mod - 1

unfoldable pub put_actor : Option Actor → Record → Result Record
put_actor none entry = ok entry
put_actor (some a) entry = do check_actor (some a); ok (set_actor (some a) entry)

-- `record.at_mut().get_or_insert(now)`.
unfoldable pub put_time : Time → Record → Record
put_time now entry = elim (at entry) [ none ↦ set_at (some now) entry | some _ ↦ entry ]

-- `self.last_seq.checked_add(1)`.
unfoldable pub next_seq : ℕ → Result ℕ
next_seq last = if ltb last u64_max then ok (last + 1) else err transition

-- The check of `at_revision`.
unfoldable pub check_revision : Option ℕ → ℕ → Checked
check_revision none revision = ok tt
check_revision (some seen) revision = require (nat_eq seen revision) stale

module _ (k : Codec) where
  unfoldable pub read : String → String → String → Result (Author × Record)
  read author_text event_text text = do
    e ← event_type_from_str event_text
    author ← read_author e author_text
    entry ← k.read_record e text
    check_actor (actor entry)
    ok (author, entry)

  unfoldable pub stamp : Append → Time → Option Actor → Result (Author × Record)
  stamp append now writer = do
    p ← read append.author append.event append.text
    entry ← put_actor writer p.1
    ok (p.0, put_time now entry)

  unfoldable pub new_row : ℕ → Author → Record → Row
  new_row seq author entry = record {
    seq = seq;
    author = author_as_str author;
    event = event_type_as_str (event entry);
    text = k.to_json entry;
  }

  unfoldable pub new_append : Author → Record → Append
  new_append author entry = record {
    author = author_as_str author;
    event = event_type_as_str (event entry);
    text = k.to_json entry;
  }

  unfoldable pub open_case : Append → Time → Option Actor → Result (Case × Row)
  open_case append now writer = do
    p ← stamp append now writer
    let row = new_row 1 p.0 p.1
    c ← start 1 p.0 p.1 row.text true
    ok (record c { revision = 1; last_seq = 1 }, row)
