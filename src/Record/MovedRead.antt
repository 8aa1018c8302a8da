-- ===== src/Record/MovedRead.antt =====
-- crates/core/src/record.rs: the other events that read have a time that can be written.
use cases.Prelude.{false, ◌≡◌, some-injective, none, some, []}
use mathlib.Core.Path.{subst}
use cases.Record.{Pickup, Note, Close, Withdraw, Park, Resume}
use cases.Record.Json.{Json, Fields, object, lookup}
use cases.Record.Fields.{read_text, read_bool, read_time_field, read_list, read_some, read_field}
use cases.Record.Asking.{read_actor}
use cases.Record.Reading.{
  pickup_of, read_pickup, note_of, read_note, close_of, read_close, withdraw_of, read_withdraw,
  park_of, read_park, resume_of, read_resume,
}
use cases.Record.Values.{HasTime}
use cases.Record.Held.{bind_given, time_passed}

pickup_of_passed :
    (fields : Fields) {r : Pickup} → pickup_of fields ≡ some r → HasTime r.picked_up_at
unfolding pickup_of
pickup_of_passed fields {r = r} h =
    let (by', by_read, e) = bind_given (read_field fields "by" read_text "") _ {b = r} h in
    let (actor', actor_read, e) =
      bind_given (read_field fields "actor" (read_some read_actor) none) _ {b = r} e in
    let (picked_up_at', picked_up_at_read, e) =
      bind_given (read_field fields "picked_up_at" (read_some read_time_field) none) _ {b = r} e in
    subst (λ (r : Pickup). HasTime r.picked_up_at) (some-injective e)
      (time_passed (lookup "picked_up_at" fields) {t = picked_up_at'} picked_up_at_read)

note_of_passed : (fields : Fields) {r : Note} → note_of fields ≡ some r → HasTime r.noted_at
unfolding note_of
note_of_passed fields {r = r} h =
    let (body', body_read, e) = bind_given (read_field fields "body" read_text "") _ {b = r} h in
    let (reopen', reopen_read, e) =
      bind_given (read_field fields "reopen" read_bool false) _ {b = r} e in
    let (actor', actor_read, e) =
      bind_given (read_field fields "actor" (read_some read_actor) none) _ {b = r} e in
    let (noted_at', noted_at_read, e) =
      bind_given (read_field fields "noted_at" (read_some read_time_field) none) _ {b = r} e in
    subst (λ (r : Note). HasTime r.noted_at) (some-injective e)
      (time_passed (lookup "noted_at" fields) {t = noted_at'} noted_at_read)

close_of_passed : (fields : Fields) {r : Close} → close_of fields ≡ some r → HasTime r.closed_at
unfolding close_of
close_of_passed fields {r = r} h =
    let (outcome', outcome_read, e) =
      bind_given (read_field fields "outcome" read_text "") _ {b = r} h in
    let (links', links_read, e) =
      bind_given (read_field fields "links" (read_list read_text) []) _ {b = r} e in
    let (expired', expired_read, e) =
      bind_given (read_field fields "expired" read_bool false) _ {b = r} e in
    let (actor', actor_read, e) =
      bind_given (read_field fields "actor" (read_some read_actor) none) _ {b = r} e in
    let (closed_at', closed_at_read, e) =
      bind_given (read_field fields "closed_at" (read_some read_time_field) none) _ {b = r} e in
    subst (λ (r : Close). HasTime r.closed_at) (some-injective e)
      (time_passed (lookup "closed_at" fields) {t = closed_at'} closed_at_read)

withdraw_of_passed :
    (fields : Fields) {r : Withdraw} → withdraw_of fields ≡ some r → HasTime r.withdrawn_at
unfolding withdraw_of
withdraw_of_passed fields {r = r} h =
    let (reason', reason_read, e) =
      bind_given (read_field fields "reason" read_text "") _ {b = r} h in
    let (actor', actor_read, e) =
      bind_given (read_field fields "actor" (read_some read_actor) none) _ {b = r} e in
    let (withdrawn_at', withdrawn_at_read, e) =
      bind_given (read_field fields "withdrawn_at" (read_some read_time_field) none) _ {b = r} e in
    subst (λ (r : Withdraw). HasTime r.withdrawn_at) (some-injective e)
      (time_passed (lookup "withdrawn_at" fields) {t = withdrawn_at'} withdrawn_at_read)

park_of_passed : (fields : Fields) {r : Park} → park_of fields ≡ some r → HasTime r.parked_at
unfolding park_of
park_of_passed fields {r = r} h =
    let (note', note_read, e) = bind_given (read_field fields "note" read_text "") _ {b = r} h in
    let (actor', actor_read, e) =
      bind_given (read_field fields "actor" (read_some read_actor) none) _ {b = r} e in
    let (parked_at', parked_at_read, e) =
      bind_given (read_field fields "parked_at" (read_some read_time_field) none) _ {b = r} e in
    subst (λ (r : Park). HasTime r.parked_at) (some-injective e)
      (time_passed (lookup "parked_at" fields) {t = parked_at'} parked_at_read)

resume_of_passed : (fields : Fields) {r : Resume} → resume_of fields ≡ some r → HasTime r.resumed_at
unfolding resume_of
resume_of_passed fields {r = r} h =
    let (actor', actor_read, e) =
      bind_given (read_field fields "actor" (read_some read_actor) none) _ {b = r} h in
    let (resumed_at', resumed_at_read, e) =
      bind_given (read_field fields "resumed_at" (read_some read_time_field) none) _ {b = r} e in
    subst (λ (r : Resume). HasTime r.resumed_at) (some-injective e)
      (time_passed (lookup "resumed_at" fields) {t = resumed_at'} resumed_at_read)

pub read_pickup_passed : (v : Json) {r : Pickup} → read_pickup v ≡ some r → HasTime r.picked_up_at
unfolding read_pickup
read_pickup_passed (object fields) {r = r} h = pickup_of_passed fields {r = r} h
read_pickup_passed _ h = absurd (cc h)

pub read_note_passed : (v : Json) {r : Note} → read_note v ≡ some r → HasTime r.noted_at
unfolding read_note
read_note_passed (object fields) {r = r} h = note_of_passed fields {r = r} h
read_note_passed _ h = absurd (cc h)

pub read_close_passed : (v : Json) {r : Close} → read_close v ≡ some r → HasTime r.closed_at
unfolding read_close
read_close_passed (object fields) {r = r} h = close_of_passed fields {r = r} h
read_close_passed _ h = absurd (cc h)

pub read_withdraw_passed :
    (v : Json) {r : Withdraw} → read_withdraw v ≡ some r → HasTime r.withdrawn_at
unfolding read_withdraw
read_withdraw_passed (object fields) {r = r} h = withdraw_of_passed fields {r = r} h
read_withdraw_passed _ h = absurd (cc h)

pub read_park_passed : (v : Json) {r : Park} → read_park v ≡ some r → HasTime r.parked_at
unfolding read_park
read_park_passed (object fields) {r = r} h = park_of_passed fields {r = r} h
read_park_passed _ h = absurd (cc h)

pub read_resume_passed : (v : Json) {r : Resume} → read_resume v ≡ some r → HasTime r.resumed_at
unfolding read_resume
read_resume_passed (object fields) {r = r} h = resume_of_passed fields {r = r} h
read_resume_passed _ h = absurd (cc h)
