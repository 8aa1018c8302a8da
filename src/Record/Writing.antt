-- ===== src/Record/Writing.antt =====
-- crates/core/src/record.rs: the derived `Serialize` of each record, which leaves out a field at its
-- zero value, and `Record::to_json`.
use cases.Prelude.{
  String, Bool, true, false, Option, none, some, List, [], ◌∷◌, no_text, if◌then◌else◌,
}
use cases.Prelude.Int.{ℤ, is_zero}
use cases.Time.{Time}
use cases.Time.Text.{time_to_string}
use cases.Record.{
  Actor, ApprovalRow, RowVerdict, Open, Amend, Answer, Pickup, Note, Close, Withdraw, Park, Resume,
  Record,
}
use cases.Record.Json.{
  Json, Items, Fields, boolean, int, str, array, object, nil, cons, end, field, Serde,
}

-- A field and its value, or `none` where `skip_serializing_if` leaves it out.
abbrev pub Slot : Type 0
Slot = String × Option Json

abbrev pub compact : List Slot → Fields
compact [] = end
compact ((key, none) ∷ rest) = compact rest
compact ((key, some value) ∷ rest) = field key value (compact rest)

unfoldable pub put_text : String → Option Json
put_text s = if no_text s then none else some (str s)

unfoldable pub put_flag : Bool → Option Json
put_flag true = some (boolean true)
put_flag false = none

unfoldable pub put_int : ℤ → Option Json
put_int n = if is_zero n then none else some (int n)

module _ {A : Type 0} (write : A → Json) where
  unfoldable pub write_items : List A → Items
  write_items [] = nil
  write_items (x ∷ xs) = cons (write x) (write_items xs)

  unfoldable pub put_list : List A → Option Json
  unfolding write_items
  put_list [] = none
  put_list (x ∷ xs) = some (array (write_items (x ∷ xs)))

  unfoldable pub put_some : Option A → Option Json
  put_some none = none
  put_some (some a) = some (write a)

unfoldable pub write_time : Time → Json
write_time t = str (time_to_string t)

unfoldable pub actor_slots : Actor → List Slot
actor_slots r = ("id", put_text r.id) ∷ []

unfoldable pub write_actor : Actor → Json
unfolding actor_slots
write_actor r = object (compact (actor_slots r))

unfoldable pub approval_row_slots : ApprovalRow → List Slot
approval_row_slots r =
    ("id", put_text r.id)
    ∷ ("label", put_text r.label)
    ∷ ("script", put_text r.script)
    ∷ ("link", put_text r.link)
    ∷ ("note", put_text r.note)
    ∷ ("by", put_text r.by)
    ∷ []

unfoldable pub write_approval_row : ApprovalRow → Json
unfolding approval_row_slots
write_approval_row r = object (compact (approval_row_slots r))

unfoldable pub row_verdict_slots : RowVerdict → List Slot
row_verdict_slots r =
    ("id", put_text r.id) ∷ ("verdict", put_text r.verdict) ∷ ("note", put_text r.note) ∷ []

unfoldable pub write_row_verdict : RowVerdict → Json
unfolding row_verdict_slots
write_row_verdict r = object (compact (row_verdict_slots r))

unfoldable pub open_slots : Open → List Slot
open_slots r =
    ("kind", put_text r.kind)
    ∷ ("urgency", put_text r.urgency)
    ∷ ("title", put_text r.title)
    ∷ ("body", put_text r.body)
    ∷ ("options", put_list str r.options)
    ∷ ("recommend", put_int r.recommend)
    ∷ ("rows", put_list write_approval_row r.rows)
    ∷ ("landed", put_flag r.landed)
    ∷ ("left_out", put_list str r.left_out)
    ∷ ("links", put_list str r.links)
    ∷ ("labels", put_list str r.labels)
    ∷ ("worker", put_text r.worker)
    ∷ ("brief", put_text r.brief)
    ∷ ("context", put_text r.context)
    ∷ ("for", put_text r.for_)
    ∷ ("re", put_text r.re)
    ∷ ("actor", put_some write_actor r.actor)
    ∷ ("opened_at", put_some write_time r.opened_at)
    ∷ []

unfoldable pub write_open : Open → Json
unfolding open_slots
write_open r = object (compact (open_slots r))

unfoldable pub amend_slots : Amend → List Slot
amend_slots r =
    ("title", put_text r.title)
    ∷ ("body", put_text r.body)
    ∷ ("options", put_list str r.options)
    ∷ ("recommend", put_int r.recommend)
    ∷ ("rows", put_list write_approval_row r.rows)
    ∷ ("landed", put_some boolean r.landed)
    ∷ ("left_out", put_list str r.left_out)
    ∷ ("links", put_list str r.links)
    ∷ ("drop_links", put_list str r.drop_links)
    ∷ ("labels", put_list str r.labels)
    ∷ ("context", put_text r.context)
    ∷ ("reopen", put_flag r.reopen)
    ∷ ("actor", put_some write_actor r.actor)
    ∷ ("amended_at", put_some write_time r.amended_at)
    ∷ []

unfoldable pub write_amend : Amend → Json
unfolding amend_slots
write_amend r = object (compact (amend_slots r))

unfoldable pub answer_slots : Answer → List Slot
answer_slots r =
    ("choice", put_int r.choice)
    ∷ ("other", put_flag r.other)
    ∷ ("rows", put_list write_row_verdict r.rows)
    ∷ ("signoff", put_text r.signoff)
    ∷ ("briefing", put_text r.briefing)
    ∷ ("file", put_list int r.file)
    ∷ ("text", put_text r.text)
    ∷ ("drop", put_flag r.drop)
    ∷ ("ack", put_flag r.ack)
    ∷ ("note", put_text r.note)
    ∷ ("amend_seq", put_int r.amend_seq)
    ∷ ("actor", put_some write_actor r.actor)
    ∷ ("answered_at", put_some write_time r.answered_at)
    ∷ []

unfoldable pub write_answer : Answer → Json
unfolding answer_slots
write_answer r = object (compact (answer_slots r))

unfoldable pub pickup_slots : Pickup → List Slot
pickup_slots r =
    ("by", put_text r.by)
    ∷ ("actor", put_some write_actor r.actor)
    ∷ ("picked_up_at", put_some write_time r.picked_up_at)
    ∷ []

unfoldable pub write_pickup : Pickup → Json
unfolding pickup_slots
write_pickup r = object (compact (pickup_slots r))

unfoldable pub note_slots : Note → List Slot
note_slots r =
    ("body", put_text r.body)
    ∷ ("reopen", put_flag r.reopen)
    ∷ ("actor", put_some write_actor r.actor)
    ∷ ("noted_at", put_some write_time r.noted_at)
    ∷ []

unfoldable pub write_note : Note → Json
unfolding note_slots
write_note r = object (compact (note_slots r))

unfoldable pub close_slots : Close → List Slot
close_slots r =
    ("outcome", put_text r.outcome)
    ∷ ("links", put_list str r.links)
    ∷ ("expired", put_flag r.expired)
    ∷ ("actor", put_some write_actor r.actor)
    ∷ ("closed_at", put_some write_time r.closed_at)
    ∷ []

unfoldable pub write_close : Close → Json
unfolding close_slots
write_close r = object (compact (close_slots r))

unfoldable pub withdraw_slots : Withdraw → List Slot
withdraw_slots r =
    ("reason", put_text r.reason)
    ∷ ("actor", put_some write_actor r.actor)
    ∷ ("withdrawn_at", put_some write_time r.withdrawn_at)
    ∷ []

unfoldable pub write_withdraw : Withdraw → Json
unfolding withdraw_slots
write_withdraw r = object (compact (withdraw_slots r))

unfoldable pub park_slots : Park → List Slot
park_slots r =
    ("note", put_text r.note)
    ∷ ("actor", put_some write_actor r.actor)
    ∷ ("parked_at", put_some write_time r.parked_at)
    ∷ []

unfoldable pub write_park : Park → Json
unfolding park_slots
write_park r = object (compact (park_slots r))

unfoldable pub resume_slots : Resume → List Slot
resume_slots r =
    ("actor", put_some write_actor r.actor) ∷ ("resumed_at", put_some write_time r.resumed_at) ∷ []

unfoldable pub write_resume : Resume → Json
unfolding resume_slots
write_resume r = object (compact (resume_slots r))

unfoldable pub write_record : Record → Json
write_record (Record.open_ r) = write_open r
write_record (Record.amend r) = write_amend r
write_record (Record.answer r) = write_answer r
write_record (Record.pickup r) = write_pickup r
write_record (Record.note r) = write_note r
write_record (Record.close r) = write_close r
write_record (Record.withdraw r) = write_withdraw r
write_record (Record.park r) = write_park r
write_record (Record.resume r) = write_resume r

unfoldable pub to_json : Serde → Record → String
unfolding write_record
to_json serde r = serde.to_string (write_record r)
