-- ===== src/Record/Asking.antt =====
-- crates/core/src/record.rs: `object!` of the structs that a question and its answer are made of.
use cases.Prelude.{false, Option, none, some, []}
use cases.Prelude.Int.{pos}
use cases.Record.{Actor, ApprovalRow, RowVerdict, Open, Amend, Answer}
use cases.Record.Json.{Json, Fields, object, ◌>>=◌}
use cases.Record.Fields.{
  read_text, read_bool, read_int, read_count, read_time_field, read_list, read_some, read_field,
}

unfoldable pub actor_of : Fields → Option Actor
actor_of fields = do id' ← read_field fields "id" read_text ""; some (record { id = id' })

unfoldable pub read_actor : Json → Option Actor
unfolding actor_of
read_actor (object fields) = actor_of fields
read_actor _ = none

unfoldable pub approval_row_of : Fields → Option ApprovalRow
approval_row_of fields = do
  id' ← read_field fields "id" read_text ""
  label' ← read_field fields "label" read_text ""
  script' ← read_field fields "script" read_text ""
  link' ← read_field fields "link" read_text ""
  note' ← read_field fields "note" read_text ""
  by' ← read_field fields "by" read_text ""
  some (record { id = id'; label = label'; script = script'; link = link'; note = note'; by = by' })

unfoldable pub read_approval_row : Json → Option ApprovalRow
unfolding approval_row_of
read_approval_row (object fields) = approval_row_of fields
read_approval_row _ = none

unfoldable pub row_verdict_of : Fields → Option RowVerdict
row_verdict_of fields = do
  id' ← read_field fields "id" read_text ""
  verdict' ← read_field fields "verdict" read_text ""
  note' ← read_field fields "note" read_text ""
  some (record { id = id'; verdict = verdict'; note = note' })

unfoldable pub read_row_verdict : Json → Option RowVerdict
unfolding row_verdict_of
read_row_verdict (object fields) = row_verdict_of fields
read_row_verdict _ = none

unfoldable pub open_of : Fields → Option Open
open_of fields = do
  kind' ← read_field fields "kind" read_text ""
  urgency' ← read_field fields "urgency" read_text ""
  title' ← read_field fields "title" read_text ""
  body' ← read_field fields "body" read_text ""
  options' ← read_field fields "options" (read_list read_text) []
  recommend' ← read_field fields "recommend" read_int (pos 0)
  rows' ← read_field fields "rows" (read_list read_approval_row) []
  landed' ← read_field fields "landed" read_bool false
  left_out' ← read_field fields "left_out" (read_list read_text) []
  links' ← read_field fields "links" (read_list read_text) []
  labels' ← read_field fields "labels" (read_list read_text) []
  worker' ← read_field fields "worker" read_text ""
  brief' ← read_field fields "brief" read_text ""
  context' ← read_field fields "context" read_text ""
  for_' ← read_field fields "for" read_text ""
  re' ← read_field fields "re" read_text ""
  actor' ← read_field fields "actor" (read_some read_actor) none
  opened_at' ← read_field fields "opened_at" (read_some read_time_field) none
  some (record {
    kind = kind';
    urgency = urgency';
    title = title';
    body = body';
    options = options';
    recommend = recommend';
    rows = rows';
    landed = landed';
    left_out = left_out';
    links = links';
    labels = labels';
    worker = worker';
    brief = brief';
    context = context';
    for_ = for_';
    re = re';
    actor = actor';
    opened_at = opened_at';
  })

unfoldable pub read_open : Json → Option Open
unfolding open_of
read_open (object fields) = open_of fields
read_open _ = none

unfoldable pub amend_of : Fields → Option Amend
amend_of fields = do
  title' ← read_field fields "title" read_text ""
  body' ← read_field fields "body" read_text ""
  options' ← read_field fields "options" (read_list read_text) []
  recommend' ← read_field fields "recommend" read_int (pos 0)
  rows' ← read_field fields "rows" (read_list read_approval_row) []
  landed' ← read_field fields "landed" (read_some read_bool) none
  left_out' ← read_field fields "left_out" (read_list read_text) []
  links' ← read_field fields "links" (read_list read_text) []
  drop_links' ← read_field fields "drop_links" (read_list read_text) []
  labels' ← read_field fields "labels" (read_list read_text) []
  context' ← read_field fields "context" read_text ""
  reopen' ← read_field fields "reopen" read_bool false
  actor' ← read_field fields "actor" (read_some read_actor) none
  amended_at' ← read_field fields "amended_at" (read_some read_time_field) none
  some (record {
    title = title';
    body = body';
    options = options';
    recommend = recommend';
    rows = rows';
    landed = landed';
    left_out = left_out';
    links = links';
    drop_links = drop_links';
    labels = labels';
    context = context';
    reopen = reopen';
    actor = actor';
    amended_at = amended_at';
  })

unfoldable pub read_amend : Json → Option Amend
unfolding amend_of
read_amend (object fields) = amend_of fields
read_amend _ = none

unfoldable pub answer_of : Fields → Option Answer
answer_of fields = do
  choice' ← read_field fields "choice" read_int (pos 0)
  other' ← read_field fields "other" read_bool false
  rows' ← read_field fields "rows" (read_list read_row_verdict) []
  signoff' ← read_field fields "signoff" read_text ""
  briefing' ← read_field fields "briefing" read_text ""
  file' ← read_field fields "file" (read_list read_int) []
  text' ← read_field fields "text" read_text ""
  drop' ← read_field fields "drop" read_bool false
  ack' ← read_field fields "ack" read_bool false
  note' ← read_field fields "note" read_text ""
  amend_seq' ← read_field fields "amend_seq" read_count (pos 0)
  actor' ← read_field fields "actor" (read_some read_actor) none
  answered_at' ← read_field fields "answered_at" (read_some read_time_field) none
  some (record {
    choice = choice';
    other = other';
    rows = rows';
    signoff = signoff';
    briefing = briefing';
    file = file';
    text = text';
    drop = drop';
    ack = ack';
    note = note';
    amend_seq = amend_seq';
    actor = actor';
    answered_at = answered_at';
  })

unfoldable pub read_answer : Json → Option Answer
unfolding answer_of
read_answer (object fields) = answer_of fields
read_answer _ = none
