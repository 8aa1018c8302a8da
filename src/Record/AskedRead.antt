-- ===== src/Record/AskedRead.antt =====
-- crates/core/src/record.rs: an open, an amend and an answer that read have integers of their types,
-- and a time that can be written.
use cases.Prelude.{false, ◌≡◌, some-injective, none, some, []}
use cases.Prelude.Int.{pos}
use mathlib.Core.Path.{subst}
use cases.Record.{Open, Amend, Answer}
use cases.Record.Json.{Json, Fields, object, lookup}
use cases.Record.Fields.{
  read_text, read_bool, read_int, read_count, read_time_field, read_list, read_some, read_field,
}
use cases.Record.Asking.{
  read_actor, read_approval_row, read_row_verdict, open_of, read_open, amend_of, read_amend,
  answer_of, read_answer,
}
use cases.Record.Asked.{IsOpen, IsAmend, IsAnswer}
use cases.Record.Held.{bind_given, int_passed, count_passed, ints_passed, time_passed}

open_of_passed : (fields : Fields) {r : Open} → open_of fields ≡ some r → IsOpen r
unfolding open_of
open_of_passed fields {r = r} h =
    let (kind', kind_read, e) = bind_given (read_field fields "kind" read_text "") _ {b = r} h in
    let (urgency', urgency_read, e) =
      bind_given (read_field fields "urgency" read_text "") _ {b = r} e in
    let (title', title_read, e) = bind_given (read_field fields "title" read_text "") _ {b = r} e in
    let (body', body_read, e) = bind_given (read_field fields "body" read_text "") _ {b = r} e in
    let (options', options_read, e) =
      bind_given (read_field fields "options" (read_list read_text) []) _ {b = r} e in
    let (recommend', recommend_read, e) =
      bind_given (read_field fields "recommend" read_int (pos 0)) _ {b = r} e in
    let (rows', rows_read, e) =
      bind_given (read_field fields "rows" (read_list read_approval_row) []) _ {b = r} e in
    let (landed', landed_read, e) =
      bind_given (read_field fields "landed" read_bool false) _ {b = r} e in
    let (left_out', left_out_read, e) =
      bind_given (read_field fields "left_out" (read_list read_text) []) _ {b = r} e in
    let (links', links_read, e) =
      bind_given (read_field fields "links" (read_list read_text) []) _ {b = r} e in
    let (labels', labels_read, e) =
      bind_given (read_field fields "labels" (read_list read_text) []) _ {b = r} e in
    let (worker', worker_read, e) =
      bind_given (read_field fields "worker" read_text "") _ {b = r} e in
    let (brief', brief_read, e) = bind_given (read_field fields "brief" read_text "") _ {b = r} e in
    let (context', context_read, e) =
      bind_given (read_field fields "context" read_text "") _ {b = r} e in
    let (for_', for__read, e) = bind_given (read_field fields "for" read_text "") _ {b = r} e in
    let (re', re_read, e) = bind_given (read_field fields "re" read_text "") _ {b = r} e in
    let (actor', actor_read, e) =
      bind_given (read_field fields "actor" (read_some read_actor) none) _ {b = r} e in
    let (opened_at', opened_at_read, e) =
      bind_given (read_field fields "opened_at" (read_some read_time_field) none) _ {b = r} e in
    subst IsOpen (some-injective e) (record {
      recommend = int_passed (lookup "recommend" fields) {n = recommend'} recommend_read;
      time = time_passed (lookup "opened_at" fields) {t = opened_at'} opened_at_read;
    })

amend_of_passed : (fields : Fields) {r : Amend} → amend_of fields ≡ some r → IsAmend r
unfolding amend_of
amend_of_passed fields {r = r} h =
    let (title', title_read, e) = bind_given (read_field fields "title" read_text "") _ {b = r} h in
    let (body', body_read, e) = bind_given (read_field fields "body" read_text "") _ {b = r} e in
    let (options', options_read, e) =
      bind_given (read_field fields "options" (read_list read_text) []) _ {b = r} e in
    let (recommend', recommend_read, e) =
      bind_given (read_field fields "recommend" read_int (pos 0)) _ {b = r} e in
    let (rows', rows_read, e) =
      bind_given (read_field fields "rows" (read_list read_approval_row) []) _ {b = r} e in
    let (landed', landed_read, e) =
      bind_given (read_field fields "landed" (read_some read_bool) none) _ {b = r} e in
    let (left_out', left_out_read, e) =
      bind_given (read_field fields "left_out" (read_list read_text) []) _ {b = r} e in
    let (links', links_read, e) =
      bind_given (read_field fields "links" (read_list read_text) []) _ {b = r} e in
    let (drop_links', drop_links_read, e) =
      bind_given (read_field fields "drop_links" (read_list read_text) []) _ {b = r} e in
    let (labels', labels_read, e) =
      bind_given (read_field fields "labels" (read_list read_text) []) _ {b = r} e in
    let (context', context_read, e) =
      bind_given (read_field fields "context" read_text "") _ {b = r} e in
    let (reopen', reopen_read, e) =
      bind_given (read_field fields "reopen" read_bool false) _ {b = r} e in
    let (actor', actor_read, e) =
      bind_given (read_field fields "actor" (read_some read_actor) none) _ {b = r} e in
    let (amended_at', amended_at_read, e) =
      bind_given (read_field fields "amended_at" (read_some read_time_field) none) _ {b = r} e in
    subst IsAmend (some-injective e) (record {
      recommend = int_passed (lookup "recommend" fields) {n = recommend'} recommend_read;
      time = time_passed (lookup "amended_at" fields) {t = amended_at'} amended_at_read;
    })

answer_of_passed : (fields : Fields) {r : Answer} → answer_of fields ≡ some r → IsAnswer r
unfolding answer_of
answer_of_passed fields {r = r} h =
    let (choice', choice_read, e) =
      bind_given (read_field fields "choice" read_int (pos 0)) _ {b = r} h in
    let (other', other_read, e) =
      bind_given (read_field fields "other" read_bool false) _ {b = r} e in
    let (rows', rows_read, e) =
      bind_given (read_field fields "rows" (read_list read_row_verdict) []) _ {b = r} e in
    let (signoff', signoff_read, e) =
      bind_given (read_field fields "signoff" read_text "") _ {b = r} e in
    let (briefing', briefing_read, e) =
      bind_given (read_field fields "briefing" read_text "") _ {b = r} e in
    let (file', file_read, e) =
      bind_given (read_field fields "file" (read_list read_int) []) _ {b = r} e in
    let (text', text_read, e) = bind_given (read_field fields "text" read_text "") _ {b = r} e in
    let (drop', drop_read, e) = bind_given (read_field fields "drop" read_bool false) _ {b = r} e in
    let (ack', ack_read, e) = bind_given (read_field fields "ack" read_bool false) _ {b = r} e in
    let (note', note_read, e) = bind_given (read_field fields "note" read_text "") _ {b = r} e in
    let (amend_seq', amend_seq_read, e) =
      bind_given (read_field fields "amend_seq" read_count (pos 0)) _ {b = r} e in
    let (actor', actor_read, e) =
      bind_given (read_field fields "actor" (read_some read_actor) none) _ {b = r} e in
    let (answered_at', answered_at_read, e) =
      bind_given (read_field fields "answered_at" (read_some read_time_field) none) _ {b = r} e in
    let (fits, counted) =
      count_passed (lookup "amend_seq" fields) {n = amend_seq'} amend_seq_read in
    subst IsAnswer (some-injective e) (record {
      choice = int_passed (lookup "choice" fields) {n = choice'} choice_read;
      file = ints_passed (lookup "file" fields) {ns = file'} file_read;
      amend_seq = fits;
      counted = counted;
      time = time_passed (lookup "answered_at" fields) {t = answered_at'} answered_at_read;
    })

pub read_open_passed : (v : Json) {r : Open} → read_open v ≡ some r → IsOpen r
unfolding read_open
read_open_passed (object fields) {r = r} h = open_of_passed fields {r = r} h
read_open_passed _ h = absurd (cc h)

pub read_amend_passed : (v : Json) {r : Amend} → read_amend v ≡ some r → IsAmend r
unfolding read_amend
read_amend_passed (object fields) {r = r} h = amend_of_passed fields {r = r} h
read_amend_passed _ h = absurd (cc h)

pub read_answer_passed : (v : Json) {r : Answer} → read_answer v ≡ some r → IsAnswer r
unfolding read_answer
read_answer_passed (object fields) {r = r} h = answer_of_passed fields {r = r} h
read_answer_passed _ h = absurd (cc h)
