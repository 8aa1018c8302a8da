-- ===== src/Replay/Stored.antt =====
-- crates/core/src/case.rs: a row that the writer stamps reads back as the event that it stamped.
use cases.Prelude.{String, true, ◌≡◌, refl, Option, none, some, ℕ, arith, inl, inr, Option-cases}
use mathlib.Core.Path.{subst}
use cases.Error.{ok, Result-cases, ok-injective}
use cases.Names.{Author, EventType, author_as_str, event_type_from_str, written_by}
use cases.Names.RoundTrip.{author_from_str-as_str, event_type_from_str-as_str}
use cases.Time.{Time}
use cases.Record.{Actor, Record, event, actor, at, set_actor, set_at}
use cases.Record.Codec.{Codec, CodecLaws}
use cases.Case.{Append}
use cases.Rules.Fields.{check_actor}
use cases.Replay.Writing.{read_author, put_actor, put_time, read, stamp, new_row}

module _ where
  event-set_actor : (a : Option Actor) (r : Record) → event (set_actor a r) ≡ event r
  unfolding event set_actor
  event-set_actor a (Record.open_ r) = refl
  event-set_actor a _ = refl

  event-set_at : (t : Option Time) (r : Record) → event (set_at t r) ≡ event r
  unfolding event set_at
  event-set_at t (Record.open_ r) = refl
  event-set_at t _ = refl

  actor-set_actor : (a : Option Actor) (r : Record) → actor (set_actor a r) ≡ a
  unfolding actor set_actor
  actor-set_actor a (Record.open_ r) = refl
  actor-set_actor a _ = refl

  actor-set_at : (t : Option Time) (r : Record) → actor (set_at t r) ≡ actor r
  unfolding actor set_at
  actor-set_at t (Record.open_ r) = refl
  actor-set_at t _ = refl

-- A record that the writer may store: by an author who may write its event, with a well-formed
-- actor, and of a text that reads back.
record IsStorable (W : Record → Type 0) (author : Author) (entry : Record) : Type 0 where
  allowed : written_by (event entry) author ≡ true
  named : check_actor (actor entry) ≡ ok tt
  writable : W entry

pub read_author-written :
    (e : EventType) (s : String) (a : Author) → read_author e s ≡ ok a → written_by e a ≡ true
unfolding read_author
read_author-written e s a h = ground arith

read_author-as_str :
    (e : EventType) (a : Author) → written_by e a ≡ true → read_author e (author_as_str a) ≡ ok a
unfolding read_author
read_author-as_str e a h = ground (arith, author_from_str-as_str a)

module _ (k : Codec) where
  -- What a text that reads went through.
  pub read_passed :
      (author_text event_text text : String) (author : Author) (entry : Record)
      → read k author_text event_text text ≡ ok (author, entry)
      → (e : EventType) × (event_type_from_str event_text ≡ ok e)
        × (read_author e author_text ≡ ok author)
        × (k.read_record e text ≡ ok entry)
        × (check_actor (actor entry) ≡ ok tt)
  unfolding read
  read_passed author_text event_text text author entry h =
      elim (Result-cases (event_type_from_str event_text)) [
        | inl (e, p) ↦ (e, p, ground arith, ground arith, ground arith)
        | inr (x, p) ↦ absurd (ground arith)
      ]

module _ (k : Codec) {Now : Time → Type 0} (laws : CodecLaws k Now) where
  read-IsStorable :
      (author_text event_text text : String) (author : Author) (entry : Record)
      → read k author_text event_text text ≡ ok (author, entry)
      → IsStorable laws.Writable author entry
  read-IsStorable author_text event_text text author entry h =
      let q = read_passed k author_text event_text text author entry h in
      let same = laws.event-read q.0 text entry q.3 in
      record {
        allowed = rw same (read_author-written q.0 author_text author q.2);
        named = q.4;
        writable = laws.read-Writable q.0 text entry q.3;
      }

  put_actor-IsStorable :
      (a : Option Actor) (author : Author) (entry r : Record)
      → IsStorable laws.Writable author entry
      → put_actor a entry ≡ ok r
      → IsStorable laws.Writable author r
  unfolding put_actor
  put_actor-IsStorable none author entry r s h =
      subst (IsStorable laws.Writable author) (ok-injective h) s
  put_actor-IsStorable (some a) author entry r s h = elim (Result-cases (check_actor (some a))) [
    | inl (_, fits) ↦
        subst (IsStorable laws.Writable author) (ok-injective (rw fits at h)) (record {
          allowed = rw event-set_actor s.allowed;
          named = rw actor-set_actor fits;
          writable = laws.set_actor-Writable (some a) entry s.writable;
        })
    | inr (x, misfit) ↦ absurd (ground arith)
  ]

  put_time-IsStorable :
      (now : Time) (author : Author) (entry : Record)
      → Now now
      → IsStorable laws.Writable author entry
      → IsStorable laws.Writable author (put_time now entry)
  unfolding put_time
  put_time-IsStorable now author entry n s = elim (Option-cases (at entry)) [
    | inl e ↦
        rw (e, put_time)
          (record {
            allowed = rw event-set_at s.allowed;
            named = rw actor-set_at s.named;
            writable = laws.set_at-Writable now entry n s.writable;
          })
    | inr (t, e) ↦ rw (e, put_time) s
  ]

  stamp_passed :
      (append : Append) (now : Time) (writer : Option Actor) (author : Author) (entry : Record)
      → stamp k append now writer ≡ ok (author, entry)
      → (r r' : Record) × (read k append.author append.event append.text ≡ ok (author, r))
        × (put_actor writer r ≡ ok r')
        × (put_time now r' ≡ entry)
  unfolding stamp
  stamp_passed append now writer author entry h =
      elim (Result-cases (read k append.author append.event append.text)) [
        | inl (p, e) ↦ elim (Result-cases (put_actor writer p.1)) [
          | inl (r', f) ↦ (p.1, r', ground arith, f, ground arith)
          | inr (x, f) ↦ absurd (ground arith)
        ]
        | inr (x, e) ↦ absurd (ground arith)
      ]

  read-IsStored :
      (seq : ℕ) (author : Author) (entry : Record)
      → IsStorable laws.Writable author entry
      → let row = new_row k seq author entry in
        read k row.author row.event row.text ≡ ok (author, entry)
  unfolding read new_row
  read-IsStored seq author entry s = ground (
    arith,
    event_type_from_str-as_str (event entry),
    read_author-as_str (event entry) author s.allowed,
    laws.read-to_json entry s.writable,
    s.named,
  )

  -- The row of an event that the writer stamps reads back as that event.
  pub stamp-IsStored :
      (append : Append) (now : Time) (writer : Option Actor) (seq : ℕ) (author : Author)
      (entry : Record)
      → Now now
      → stamp k append now writer ≡ ok (author, entry)
      → let row = new_row k seq author entry in
        read k row.author row.event row.text ≡ ok (author, entry)
  stamp-IsStored append now writer seq author entry n h =
      let q = stamp_passed append now writer author entry h in
      read-IsStored seq author entry (
        subst (IsStorable laws.Writable author) q.4 (
          put_time-IsStorable now author q.1 n (
            put_actor-IsStorable writer author q.0 q.1
              (read-IsStorable append.author append.event append.text author q.0 q.2) q.3)))
