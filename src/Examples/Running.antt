-- ===== src/Examples/Running.antt =====
-- Everything that a replay computes with, for tests: a test that names `running` opens all of it.
use cases.Names.{
  kind_as_str, kind_from_str, urgency_as_str, urgency_from_str, state_as_str, state_from_str,
  author_as_str, author_from_str, event_type_as_str, event_type_from_str, opener, written_by,
}
use cases.Time.{from_unix, time_lt, later}
use cases.Record.{event, actor, at, set_actor, set_at}
use cases.Rules.Fields.{
  blank, set_blank, is_actor_id, check_actor, check_opener, known, names_option, check_blank,
  check_new_from, check_new, check_labels, check_kind_fields, over_chars, check_briefing_fields,
  check_recommend, row_id_fits, check_row, check_rows_from, check_rows,
}
use cases.Rules.Opening.{
  check_open_text, check_open_needs, check_open_shape, check_open_fields, check_open_write,
  check_open,
}
use cases.Rules.Amending.{
  check_amend_text, check_amend_fields, check_dropped_from, check_dropped_links,
  check_amend_against, changes_lists, changes_rest, changes_question, check_amend,
}
use cases.Rules.Answering.{
  takes, responses, given, check_responses, check_choice, check_verdicts_from, check_verdicts,
  check_signoff, check_file_from, check_briefing, check_response, check_answer,
}
use cases.Replay.Taking.{
  start, reopen, amended, amend_question, take_amend, take_answer, take_pickup, take_note,
  take_close, take_withdraw, take_park, take_resume, take_entry, touch, push_event, take,
}
use cases.Replay.Writing.{
  read_author, put_actor, put_time, next_seq, check_revision, read, stamp, new_row, new_append,
  open_case,
}
use cases.Replay.Appending.{count_row, append_event}
use cases.Replay.Folding.{fold_event, max_seq, finish, fold_read, fold_row, fold_rows, fold}

unfoldable pub running : Unit {0}
unfolding kind_as_str kind_from_str urgency_as_str urgency_from_str state_as_str state_from_str
    author_as_str author_from_str event_type_as_str event_type_from_str opener written_by from_unix
    time_lt later event actor at set_actor set_at blank set_blank is_actor_id check_actor
    check_opener known names_option check_blank check_new_from check_new check_labels
    check_kind_fields over_chars check_briefing_fields check_recommend row_id_fits check_row
    check_rows_from check_rows check_open_text check_open_needs check_open_shape check_open_fields
    check_open_write check_open check_amend_text check_amend_fields check_dropped_from
    check_dropped_links check_amend_against changes_lists changes_rest changes_question check_amend
    takes responses given check_responses check_choice check_verdicts_from check_verdicts
    check_signoff check_file_from check_briefing check_response check_answer start reopen amended
    amend_question take_amend take_answer take_pickup take_note take_close take_withdraw take_park
    take_resume take_entry touch push_event take read_author put_actor put_time next_seq
    check_revision read stamp new_row new_append open_case count_row append_event fold_event max_seq
    finish fold_read fold_row fold_rows fold
running = tt
