-- ===== src/Replay/Atomic.antt =====
-- crates/core/src/case.rs: a refused event leaves the case as it was.
use cases.Prelude.{ℕ, String, Bool, ◌≡◌, arith}
use cases.Error.{Category, err}
use cases.Names.{Author}
use cases.Record.{Record, Amend, Answer, Note, Close}
use cases.Case.{Case}
use cases.Time.{Time}
use cases.Record.{Actor}
use cases.Record.Codec.{Codec}
use cases.Case.{Append}
use cases.Prelude.{Option, inl, inr, true}
use cases.Error.{Result-cases}
use cases.Replay.Writing.{stamp, next_seq, new_row}
use cases.Replay.Appending.{append_event}
use cases.Replay.Taking.{
  take_amend, take_answer, take_pickup, take_note, take_close, take_withdraw, take_park,
  take_resume, take_entry, take,
}

module _ (c : Case) {e : Category} where
  take_amend_refused :
      (seq : ℕ) (author : Author) (r : Amend)
      → (take_amend seq author r c).0 ≡ err e
      → (take_amend seq author r c).1 ≡ c
  unfolding take_amend
  take_amend_refused seq author r h = ground arith

  take_answer_refused : (r : Answer) → (take_answer r c).0 ≡ err e → (take_answer r c).1 ≡ c
  unfolding take_answer
  take_answer_refused r h = ground arith

  take_note_refused :
      (r : Note) (write : Bool) → (take_note r write c).0 ≡ err e → (take_note r write c).1 ≡ c
  unfolding take_note
  take_note_refused r write h = ground arith

  take_close_refused : (r : Close) → (take_close r c).0 ≡ err e → (take_close r c).1 ≡ c
  unfolding take_close
  take_close_refused r h = ground arith

  take_entry_refused :
      (seq : ℕ) (author : Author) (entry : Record) (write : Bool)
      → (take_entry seq author entry write c).0 ≡ err e
      → (take_entry seq author entry write c).1 ≡ c
  unfolding take_entry take_pickup take_withdraw take_park take_resume
  take_entry_refused seq author (Record.amend r) write h = take_amend_refused seq author r h
  take_entry_refused seq author (Record.answer r) write h = take_answer_refused r h
  take_entry_refused seq author (Record.note r) write h = take_note_refused r write h
  take_entry_refused seq author (Record.close r) write h = take_close_refused r h
  take_entry_refused seq author _ write h = ground arith

  pub take_refused :
      (seq : ℕ) (author : Author) (entry : Record) (text : String) (write : Bool)
      → (take seq author entry text write c).0 ≡ err e
      → (take seq author entry text write c).1 ≡ c
  unfolding take
  take_refused seq author entry text write h =
      ground (arith, take_entry_refused seq author entry write)

module _ (k : Codec) where
  -- An append that is refused, whatever the reason, leaves the case as it was.
  pub append_event_refused :
      (append : Append) (now : Time) (writer : Option Actor) (at_revision : Option ℕ) (c : Case)
      {e : Category}
      → (append_event k append now writer at_revision c).0 ≡ err e
      → (append_event k append now writer at_revision c).1 ≡ c
  unfolding append_event
  append_event_refused append now writer at_revision c {e = e} h =
      elim (Result-cases (stamp k append now writer)) [
        | inl (p, stamped) ↦ elim (Result-cases (next_seq c.last_seq)) [
          | inl (seq, room) ↦
              ground (arith, take_refused c {e = e} seq p.0 p.1 (new_row k seq p.0 p.1).text true)
          | inr (e', full) ↦ ground arith
        ]
        | inr (e', failed) ↦ ground arith
      ]
