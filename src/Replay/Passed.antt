-- ===== src/Replay/Passed.antt =====
-- crates/core/src/case.rs: `take` in terms of the handler that it dispatches to.
use cases.Prelude.{ℕ, String, Bool, true, ◌≡◌, arith, Option, some, inl, inr}
use cases.Error.{ok, Result-cases}
use cases.Names.{Author}
use cases.Time.{Time}
use cases.Record.{Actor, Record, at}
use cases.Record.Codec.{Codec}
use cases.Case.{Case, Event, Row, Append}
use cases.Replay.Writing.{next_seq, check_revision, stamp, new_row, open_case}
use cases.Replay.Appending.{append_event, count_row}
use cases.Replay.Taking.{start, take_entry, touch, push_event, take}

-- The event that a case lists for a record it takes.
abbrev pub taken_event : Case → ℕ → Author → Record → String → Event
taken_event c seq author entry text = record {
  seq = seq;
  author = author;
  from = some c.state;
  entry = entry;
  text = text;
}

module _ (c : Case) (seq : ℕ) (author : Author) (entry : Record) (text : String)
    (write : Bool) where
  pub take_passed :
      (take seq author entry text write c).0 ≡ ok tt
      → ((take_entry seq author entry write c).0 ≡ ok tt)
        × ((take seq author entry text write c).1
            ≡ push_event
                (taken_event c seq author entry text)
                (touch (at entry) (take_entry seq author entry write c).1))
  unfolding take
  take_passed h = (ground arith, ground arith)

  pub take_passes :
      (take_entry seq author entry write c).0 ≡ ok tt
      → (take seq author entry text write c).0 ≡ ok tt
  unfolding take
  take_passes h = ground arith

  -- What an event changes beside its handler: the events and the time.
  pub state-take :
      (take seq author entry text write c).0 ≡ ok tt
      → (take seq author entry text write c).1.state ≡ (take_entry seq author entry write c).1.state
  unfolding take touch push_event
  state-take h = ground arith

module _ (k : Codec) (append : Append) (now : Time) (writer : Option Actor) where
  -- What an accepted append went through: the event as stamped, the new seq, and the row.
  pub append_event_passed :
      (at_revision : Option ℕ) (c : Case) {row : Row}
      → (append_event k append now writer at_revision c).0 ≡ ok row
      → (author : Author) × (entry : Record) × (seq : ℕ) × (stamp k append now writer
          ≡ ok (author, entry))
        × (next_seq c.last_seq ≡ ok seq)
        × ((take seq author entry (new_row k seq author entry).text true c).0 ≡ ok tt)
        × ((append_event k append now writer at_revision c).1
            ≡ (count_row seq (take seq author entry (new_row k seq author entry).text true c).1).1)
        × (row ≡ new_row k seq author entry)
        × (check_revision at_revision c.revision ≡ ok tt)
  unfolding append_event
  append_event_passed at_revision c {row = row} h =
      elim (Result-cases (stamp k append now writer)) [
        | inl (p, stamped) ↦ elim (Result-cases (next_seq c.last_seq)) [
          | inl (seq, room) ↦
              (p.0, p.1, seq, stamped, room, ground arith, ground arith, ground arith, ground arith)
          | inr (e, full) ↦ absurd (ground arith)
        ]
        | inr (e, failed) ↦ absurd (ground arith)
      ]

  pub open_case_passed :
      {c : Case} {row : Row}
      → open_case k append now writer ≡ ok (c, row)
      → (author : Author) × (entry : Record) × (c' : Case) × (stamp k append now writer
          ≡ ok (author, entry))
        × (start 1 author entry (new_row k 1 author entry).text true ≡ ok c')
        × (record c' { revision = 1; last_seq = 1 } ≡ c)
        × (row ≡ new_row k 1 author entry)
  unfolding open_case
  open_case_passed h = elim (Result-cases (stamp k append now writer)) [
    | inl (p, stamped) ↦ elim (Result-cases (start 1 p.0 p.1 (new_row k 1 p.0 p.1).text true)) [
      | inl (c', s) ↦ (p.0, p.1, c', stamped, s, ground arith, ground arith)
      | inr (e, s) ↦ absurd (ground arith)
    ]
    | inr (e, failed) ↦ absurd (ground arith)
  ]
