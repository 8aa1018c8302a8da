-- ===== src/Record/AskedAlike.antt =====
-- crates/core/src/record.rs: an open, an amend and an answer read alike, whatever the order of the
-- fields.
use cases.Prelude.{false, ◌≡◌, refl, none, []}
use cases.Prelude.Int.{pos}
use cases.Record.Json.{Json, Fields}
use cases.Record.Fields.{
  read_text, read_bool, read_int, read_count, read_time_field, read_list, read_some,
}
use cases.Record.Asking.{
  actor_of, read_actor, approval_row_of, read_approval_row, row_verdict_of, read_row_verdict,
  open_of, read_open, amend_of, read_amend, answer_of, read_answer,
}
use cases.Record.Same.{
  Same, null_same, boolean_same, int_same, float_same, str_same, array_same, object_same,
}
use cases.Record.Alike.{
  HasSame, read_text_alike, read_bool_alike, read_int_alike, read_count_alike,
  read_time_field_alike, list_alike, some_alike, field_alike,
}

actor_alike : (f g : Fields) → HasSame f g → actor_of g ≡ actor_of f
unfolding actor_of
actor_alike f g same = rw (field_alike read_text read_text_alike f g same "id" "") refl

pub read_actor_alike : (v w : Json) → Same v w → read_actor w ≡ read_actor v
unfolding read_actor
read_actor_alike _ _ (object_same {f} {g} p) = actor_alike f g p
read_actor_alike _ _ null_same = refl
read_actor_alike _ _ (boolean_same b) = refl
read_actor_alike _ _ (int_same n) = refl
read_actor_alike _ _ (float_same s) = refl
read_actor_alike _ _ (str_same s) = refl
read_actor_alike _ _ (array_same p) = refl

approval_row_alike : (f g : Fields) → HasSame f g → approval_row_of g ≡ approval_row_of f
unfolding approval_row_of
approval_row_alike f g same =
    rw
      (
        field_alike read_text read_text_alike f g same "id" "",
        field_alike read_text read_text_alike f g same "label" "",
        field_alike read_text read_text_alike f g same "script" "",
        field_alike read_text read_text_alike f g same "link" "",
        field_alike read_text read_text_alike f g same "note" "",
        field_alike read_text read_text_alike f g same "by" "",
      )
      refl

pub read_approval_row_alike : (v w : Json) → Same v w → read_approval_row w ≡ read_approval_row v
unfolding read_approval_row
read_approval_row_alike _ _ (object_same {f} {g} p) = approval_row_alike f g p
read_approval_row_alike _ _ null_same = refl
read_approval_row_alike _ _ (boolean_same b) = refl
read_approval_row_alike _ _ (int_same n) = refl
read_approval_row_alike _ _ (float_same s) = refl
read_approval_row_alike _ _ (str_same s) = refl
read_approval_row_alike _ _ (array_same p) = refl

row_verdict_alike : (f g : Fields) → HasSame f g → row_verdict_of g ≡ row_verdict_of f
unfolding row_verdict_of
row_verdict_alike f g same =
    rw
      (
        field_alike read_text read_text_alike f g same "id" "",
        field_alike read_text read_text_alike f g same "verdict" "",
        field_alike read_text read_text_alike f g same "note" "",
      )
      refl

pub read_row_verdict_alike : (v w : Json) → Same v w → read_row_verdict w ≡ read_row_verdict v
unfolding read_row_verdict
read_row_verdict_alike _ _ (object_same {f} {g} p) = row_verdict_alike f g p
read_row_verdict_alike _ _ null_same = refl
read_row_verdict_alike _ _ (boolean_same b) = refl
read_row_verdict_alike _ _ (int_same n) = refl
read_row_verdict_alike _ _ (float_same s) = refl
read_row_verdict_alike _ _ (str_same s) = refl
read_row_verdict_alike _ _ (array_same p) = refl

open_alike : (f g : Fields) → HasSame f g → open_of g ≡ open_of f
unfolding open_of
open_alike f g same =
    rw
      (
        field_alike read_text read_text_alike f g same "kind" "",
        field_alike read_text read_text_alike f g same "urgency" "",
        field_alike read_text read_text_alike f g same "title" "",
        field_alike read_text read_text_alike f g same "body" "",
        field_alike (read_list read_text) (list_alike read_text read_text_alike) f g same "options"
            [],
        field_alike read_int read_int_alike f g same "recommend" (pos 0),
        field_alike (read_list read_approval_row)
            (list_alike read_approval_row read_approval_row_alike) f g same "rows" [],
        field_alike read_bool read_bool_alike f g same "landed" false,
        field_alike (read_list read_text) (list_alike read_text read_text_alike) f g same "left_out"
            [],
        field_alike (read_list read_text) (list_alike read_text read_text_alike) f g same "links"
            [],
        field_alike (read_list read_text) (list_alike read_text read_text_alike) f g same "labels"
            [],
        field_alike read_text read_text_alike f g same "worker" "",
        field_alike read_text read_text_alike f g same "brief" "",
        field_alike read_text read_text_alike f g same "context" "",
        field_alike read_text read_text_alike f g same "for" "",
        field_alike read_text read_text_alike f g same "re" "",
        field_alike (read_some read_actor) (some_alike read_actor read_actor_alike) f g same "actor"
            none,
        field_alike (read_some read_time_field) (some_alike read_time_field read_time_field_alike) f
            g same "opened_at" none,
      )
      refl

pub read_open_alike : (v w : Json) → Same v w → read_open w ≡ read_open v
unfolding read_open
read_open_alike _ _ (object_same {f} {g} p) = open_alike f g p
read_open_alike _ _ null_same = refl
read_open_alike _ _ (boolean_same b) = refl
read_open_alike _ _ (int_same n) = refl
read_open_alike _ _ (float_same s) = refl
read_open_alike _ _ (str_same s) = refl
read_open_alike _ _ (array_same p) = refl

amend_alike : (f g : Fields) → HasSame f g → amend_of g ≡ amend_of f
unfolding amend_of
amend_alike f g same =
    rw
      (
        field_alike read_text read_text_alike f g same "title" "",
        field_alike read_text read_text_alike f g same "body" "",
        field_alike (read_list read_text) (list_alike read_text read_text_alike) f g same "options"
            [],
        field_alike read_int read_int_alike f g same "recommend" (pos 0),
        field_alike (read_list read_approval_row)
            (list_alike read_approval_row read_approval_row_alike) f g same "rows" [],
        field_alike (read_some read_bool) (some_alike read_bool read_bool_alike) f g same "landed"
            none,
        field_alike (read_list read_text) (list_alike read_text read_text_alike) f g same "left_out"
            [],
        field_alike (read_list read_text) (list_alike read_text read_text_alike) f g same "links"
            [],
        field_alike (read_list read_text) (list_alike read_text read_text_alike) f g same
            "drop_links" [],
        field_alike (read_list read_text) (list_alike read_text read_text_alike) f g same "labels"
            [],
        field_alike read_text read_text_alike f g same "context" "",
        field_alike read_bool read_bool_alike f g same "reopen" false,
        field_alike (read_some read_actor) (some_alike read_actor read_actor_alike) f g same "actor"
            none,
        field_alike (read_some read_time_field) (some_alike read_time_field read_time_field_alike) f
            g same "amended_at" none,
      )
      refl

pub read_amend_alike : (v w : Json) → Same v w → read_amend w ≡ read_amend v
unfolding read_amend
read_amend_alike _ _ (object_same {f} {g} p) = amend_alike f g p
read_amend_alike _ _ null_same = refl
read_amend_alike _ _ (boolean_same b) = refl
read_amend_alike _ _ (int_same n) = refl
read_amend_alike _ _ (float_same s) = refl
read_amend_alike _ _ (str_same s) = refl
read_amend_alike _ _ (array_same p) = refl

answer_alike : (f g : Fields) → HasSame f g → answer_of g ≡ answer_of f
unfolding answer_of
answer_alike f g same =
    rw
      (
        field_alike read_int read_int_alike f g same "choice" (pos 0),
        field_alike read_bool read_bool_alike f g same "other" false,
        field_alike (read_list read_row_verdict)
            (list_alike read_row_verdict read_row_verdict_alike) f g same "rows" [],
        field_alike read_text read_text_alike f g same "signoff" "",
        field_alike read_text read_text_alike f g same "briefing" "",
        field_alike (read_list read_int) (list_alike read_int read_int_alike) f g same "file" [],
        field_alike read_text read_text_alike f g same "text" "",
        field_alike read_bool read_bool_alike f g same "drop" false,
        field_alike read_bool read_bool_alike f g same "ack" false,
        field_alike read_text read_text_alike f g same "note" "",
        field_alike read_count read_count_alike f g same "amend_seq" (pos 0),
        field_alike (read_some read_actor) (some_alike read_actor read_actor_alike) f g same "actor"
            none,
        field_alike (read_some read_time_field) (some_alike read_time_field read_time_field_alike) f
            g same "answered_at" none,
      )
      refl

pub read_answer_alike : (v w : Json) → Same v w → read_answer w ≡ read_answer v
unfolding read_answer
read_answer_alike _ _ (object_same {f} {g} p) = answer_alike f g p
read_answer_alike _ _ null_same = refl
read_answer_alike _ _ (boolean_same b) = refl
read_answer_alike _ _ (int_same n) = refl
read_answer_alike _ _ (float_same s) = refl
read_answer_alike _ _ (str_same s) = refl
read_answer_alike _ _ (array_same p) = refl
