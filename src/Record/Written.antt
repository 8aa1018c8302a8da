-- ===== src/Record/Written.antt =====
-- crates/core/src/record.rs: the records that a question and its answer are made of read from what
-- they are written as.
use cases.Prelude.{some, ◌≡◌, refl}
use cases.Record.{Actor, ApprovalRow, RowVerdict}
use cases.Record.Asking.{
  actor_of, read_actor, approval_row_of, read_approval_row, row_verdict_of, read_row_verdict,
}
use cases.Record.Writing.{
  actor_slots, write_actor, approval_row_slots, write_approval_row, row_verdict_slots,
  write_row_verdict,
}
use cases.Record.Same.{IsUnique}
use cases.Record.Slots.{◌&◌, compact-AreUniqueFields}
use cases.Record.Values.{unique-text}
use cases.Record.Given.{text_given}

pub read_actor-write_actor : (r : Actor) → read_actor (write_actor r) ≡ some r
unfolding read_actor write_actor actor_of actor_slots
read_actor-write_actor r =
    let slots = actor_slots r in rw (text_given slots refl "id" r.id refl) refl

pub write_actor-IsUnique : (r : Actor) → IsUnique (write_actor r)
unfolding write_actor actor_slots IsUnique
write_actor-IsUnique r = compact-AreUniqueFields (actor_slots r) refl (unique-text r.id & tt)

pub read-write_approval_row : (r : ApprovalRow) → read_approval_row (write_approval_row r) ≡ some r
unfolding read_approval_row write_approval_row approval_row_of approval_row_slots
read-write_approval_row r =
    let slots = approval_row_slots r in
    rw
      (
        text_given slots refl "id" r.id refl,
        text_given slots refl "label" r.label refl,
        text_given slots refl "script" r.script refl,
        text_given slots refl "link" r.link refl,
        text_given slots refl "note" r.note refl,
        text_given slots refl "by" r.by refl,
      )
      refl

pub write_approval_row-IsUnique : (r : ApprovalRow) → IsUnique (write_approval_row r)
unfolding write_approval_row approval_row_slots IsUnique
write_approval_row-IsUnique r = compact-AreUniqueFields (approval_row_slots r) refl (
    unique-text r.id
    & unique-text r.label
    & unique-text r.script
    & unique-text r.link
    & unique-text r.note
    & unique-text r.by
    & tt)

pub read-write_row_verdict : (r : RowVerdict) → read_row_verdict (write_row_verdict r) ≡ some r
unfolding read_row_verdict write_row_verdict row_verdict_of row_verdict_slots
read-write_row_verdict r =
    let slots = row_verdict_slots r in
    rw
      (
        text_given slots refl "id" r.id refl,
        text_given slots refl "verdict" r.verdict refl,
        text_given slots refl "note" r.note refl,
      )
      refl

pub write_row_verdict-IsUnique : (r : RowVerdict) → IsUnique (write_row_verdict r)
unfolding write_row_verdict row_verdict_slots IsUnique
write_row_verdict-IsUnique r =
    compact-AreUniqueFields (row_verdict_slots r) refl
      (unique-text r.id & unique-text r.verdict & unique-text r.note & tt)
