-- ===== src/Record/Asked.antt =====
-- crates/core/src/record.rs: an open, an amend and an answer read from what they are written as.
use cases.Prelude.{some, ◌≡◌, refl, true, false, All}
use cases.Prelude.Int.{pos, ltb_ℤ}
use cases.Record.{Open, Amend, Answer}
use cases.Record.Json.{str, int, boolean}
use cases.Record.Fields.{fits_i64, read_text, read_bool, read_int, read_time_field}
use cases.Record.Asking.{
  read_actor, read_approval_row, read_row_verdict, open_of, read_open, amend_of, read_amend,
  answer_of, read_answer,
}
use cases.Record.Writing.{
  write_actor, write_approval_row, write_row_verdict, write_time, open_slots, write_open,
  amend_slots, write_amend, answer_slots, write_answer,
}
use cases.Record.Same.{IsUnique}
use cases.Record.Slots.{◌&◌, compact-AreUniqueFields}
use cases.Record.Values.{
  read-put_list, all_back, some_back, read_text-str, read_bool-boolean, time_back, ints_back,
  unique-text, unique-flag, unique-int, unique-list, unique-some, str-IsUnique, int-IsUnique,
  boolean-IsUnique, write_time-IsUnique,
}
use cases.Record.Given.{text_given, flag_given, int_given, count_given, list_given, some_given}
use cases.Record.Written.{
  read_actor-write_actor, write_actor-IsUnique, read-write_approval_row,
  write_approval_row-IsUnique, read-write_row_verdict, write_row_verdict-IsUnique,
}
use cases.Record.Values.{HasTime}

-- The numbers of a record are of the type `i64`, or `u64` up to the largest `i64`, and its time is
-- in the years 0000 to 9999.
pub record IsOpen (r : Open) : Type 0 where
  pub recommend : fits_i64 r.recommend ≡ true
  pub time : HasTime r.opened_at

pub record IsAmend (r : Amend) : Type 0 where
  pub recommend : fits_i64 r.recommend ≡ true
  pub time : HasTime r.amended_at

-- `counted` is the reader's: it takes no `amend_seq` below zero, which the `i64` could be.
pub record IsAnswer (r : Answer) : Type 0 where
  pub choice : fits_i64 r.choice ≡ true
  pub file : All (λ n. fits_i64 n ≡ true) r.file
  pub amend_seq : fits_i64 r.amend_seq ≡ true
  pub counted : ltb_ℤ r.amend_seq (pos 0) ≡ false
  pub time : HasTime r.answered_at

pub read_open-write_open : (r : Open) → IsOpen r → read_open (write_open r) ≡ some r
unfolding read_open write_open open_of open_slots
read_open-write_open r w =
    let slots = open_slots r in
    rw
      (
        text_given slots refl "kind" r.kind refl,
        text_given slots refl "urgency" r.urgency refl,
        text_given slots refl "title" r.title refl,
        text_given slots refl "body" r.body refl,
        list_given slots refl "options" read_text str r.options
            (all_back read_text str read_text-str r.options) refl,
        int_given slots refl "recommend" r.recommend w.recommend refl,
        list_given slots refl "rows" read_approval_row write_approval_row r.rows
            (all_back read_approval_row write_approval_row read-write_approval_row r.rows) refl,
        flag_given slots refl "landed" r.landed refl,
        list_given slots refl "left_out" read_text str r.left_out
            (all_back read_text str read_text-str r.left_out) refl,
        list_given slots refl "links" read_text str r.links
            (all_back read_text str read_text-str r.links) refl,
        list_given slots refl "labels" read_text str r.labels
            (all_back read_text str read_text-str r.labels) refl,
        text_given slots refl "worker" r.worker refl,
        text_given slots refl "brief" r.brief refl,
        text_given slots refl "context" r.context refl,
        text_given slots refl "for" r.for_ refl,
        text_given slots refl "re" r.re refl,
        some_given slots refl "actor" read_actor write_actor r.actor
            (some_back read_actor write_actor read_actor-write_actor r.actor) refl,
        some_given slots refl "opened_at" read_time_field write_time r.opened_at
            (time_back r.opened_at w.time) refl,
      )
      refl

pub write_open-IsUnique : (r : Open) → IsUnique (write_open r)
unfolding write_open open_slots IsUnique
write_open-IsUnique r = compact-AreUniqueFields (open_slots r) refl (
    unique-text r.kind
    & unique-text r.urgency
    & unique-text r.title
    & unique-text r.body
    & unique-list str str-IsUnique r.options
    & unique-int r.recommend
    & unique-list write_approval_row write_approval_row-IsUnique r.rows
    & unique-flag r.landed
    & unique-list str str-IsUnique r.left_out
    & unique-list str str-IsUnique r.links
    & unique-list str str-IsUnique r.labels
    & unique-text r.worker
    & unique-text r.brief
    & unique-text r.context
    & unique-text r.for_
    & unique-text r.re
    & unique-some write_actor write_actor-IsUnique r.actor
    & unique-some write_time write_time-IsUnique r.opened_at
    & tt)

pub read_amend-write_amend : (r : Amend) → IsAmend r → read_amend (write_amend r) ≡ some r
unfolding read_amend write_amend amend_of amend_slots
read_amend-write_amend r w =
    let slots = amend_slots r in
    rw
      (
        text_given slots refl "title" r.title refl,
        text_given slots refl "body" r.body refl,
        list_given slots refl "options" read_text str r.options
            (all_back read_text str read_text-str r.options) refl,
        int_given slots refl "recommend" r.recommend w.recommend refl,
        list_given slots refl "rows" read_approval_row write_approval_row r.rows
            (all_back read_approval_row write_approval_row read-write_approval_row r.rows) refl,
        some_given slots refl "landed" read_bool boolean r.landed
            (some_back read_bool boolean read_bool-boolean r.landed) refl,
        list_given slots refl "left_out" read_text str r.left_out
            (all_back read_text str read_text-str r.left_out) refl,
        list_given slots refl "links" read_text str r.links
            (all_back read_text str read_text-str r.links) refl,
        list_given slots refl "drop_links" read_text str r.drop_links
            (all_back read_text str read_text-str r.drop_links) refl,
        list_given slots refl "labels" read_text str r.labels
            (all_back read_text str read_text-str r.labels) refl,
        text_given slots refl "context" r.context refl,
        flag_given slots refl "reopen" r.reopen refl,
        some_given slots refl "actor" read_actor write_actor r.actor
            (some_back read_actor write_actor read_actor-write_actor r.actor) refl,
        some_given slots refl "amended_at" read_time_field write_time r.amended_at
            (time_back r.amended_at w.time) refl,
      )
      refl

pub write_amend-IsUnique : (r : Amend) → IsUnique (write_amend r)
unfolding write_amend amend_slots IsUnique
write_amend-IsUnique r = compact-AreUniqueFields (amend_slots r) refl (
    unique-text r.title
    & unique-text r.body
    & unique-list str str-IsUnique r.options
    & unique-int r.recommend
    & unique-list write_approval_row write_approval_row-IsUnique r.rows
    & unique-some boolean boolean-IsUnique r.landed
    & unique-list str str-IsUnique r.left_out
    & unique-list str str-IsUnique r.links
    & unique-list str str-IsUnique r.drop_links
    & unique-list str str-IsUnique r.labels
    & unique-text r.context
    & unique-flag r.reopen
    & unique-some write_actor write_actor-IsUnique r.actor
    & unique-some write_time write_time-IsUnique r.amended_at
    & tt)

pub read_answer-write_answer : (r : Answer) → IsAnswer r → read_answer (write_answer r) ≡ some r
unfolding read_answer write_answer answer_of answer_slots
read_answer-write_answer r w =
    let slots = answer_slots r in
    rw
      (
        int_given slots refl "choice" r.choice w.choice refl,
        flag_given slots refl "other" r.other refl,
        list_given slots refl "rows" read_row_verdict write_row_verdict r.rows
            (all_back read_row_verdict write_row_verdict read-write_row_verdict r.rows) refl,
        text_given slots refl "signoff" r.signoff refl,
        text_given slots refl "briefing" r.briefing refl,
        list_given slots refl "file" read_int int r.file
            (read-put_list read_int int r.file (ints_back r.file w.file)) refl,
        text_given slots refl "text" r.text refl,
        flag_given slots refl "drop" r.drop refl,
        flag_given slots refl "ack" r.ack refl,
        text_given slots refl "note" r.note refl,
        count_given slots refl "amend_seq" r.amend_seq w.amend_seq w.counted refl,
        some_given slots refl "actor" read_actor write_actor r.actor
            (some_back read_actor write_actor read_actor-write_actor r.actor) refl,
        some_given slots refl "answered_at" read_time_field write_time r.answered_at
            (time_back r.answered_at w.time) refl,
      )
      refl

pub write_answer-IsUnique : (r : Answer) → IsUnique (write_answer r)
unfolding write_answer answer_slots IsUnique
write_answer-IsUnique r = compact-AreUniqueFields (answer_slots r) refl (
    unique-int r.choice
    & unique-flag r.other
    & unique-list write_row_verdict write_row_verdict-IsUnique r.rows
    & unique-text r.signoff
    & unique-text r.briefing
    & unique-list int int-IsUnique r.file
    & unique-text r.text
    & unique-flag r.drop
    & unique-flag r.ack
    & unique-text r.note
    & unique-int r.amend_seq
    & unique-some write_actor write_actor-IsUnique r.actor
    & unique-some write_time write_time-IsUnique r.answered_at
    & tt)
