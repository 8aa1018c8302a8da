-- ===== src/Examples/Kept.antt =====
-- A case opened and answered with its records as JSON, through a library that spells every value.
use cases.Prelude.{true, ◌≡◌, refl, Option, none, some, [], ◌∷◌, arith}
use cases.Error.{ok}
use cases.Names.{Author, Kind, Urgency}
use cases.Record.{Actor, Record}
use cases.Record.Writing.{
  write_record, to_json, write_open, write_answer, put_text, put_list, put_int, put_flag, put_some,
  write_time, write_actor, write_approval_row, write_row_verdict,
}
use cases.Record.Json.{unique, contains_key, lookup}
use cases.Record.Signs.{unsigned_zeros}
use cases.Record.Fields.{
  read_text, read_bool, read_int, read_count, read_time_field, read_list, read_some,
}
use cases.Record.Asking.{read_open, read_answer, read_actor, read_approval_row, read_row_verdict}
use cases.Record.Reading.{read_record}
use cases.Time.Text.{time_from_str, time_to_string}
use cases.Record.Through.{json_codec, SerdeLaws}
use cases.Case.{Case, Row, Append}
use cases.Replay.Taking.{started}
use cases.Replay.Writing.{open_case}
use cases.Replay.Folding.{fold}
use cases.Replay.Appending.{append_event}
use cases.Replay.Trail.{Trail, fold-HasTrail}
use cases.Replay.Spelt.{appended-fold, opened-fold}
use cases.Examples.Running.{running}
use cases.Examples.Script.{asked, chosen, now}
use cases.Examples.Lawful.{asked_by, chosen_by}
use cases.Examples.Spelt.{spelling, top, run, spell}
use cases.Examples.Spelt.Clean.{spelling-MapLaws, spelling-Spells}

unfoldable spelled : Unit {0}
unfolding unique contains_key lookup unsigned_zeros read_text read_bool read_int read_count
    read_time_field read_list read_some read_open read_answer read_actor read_approval_row
    read_row_verdict write_record to_json write_open write_answer put_text put_list put_int put_flag
    put_some write_time write_actor write_approval_row write_row_verdict read_record time_from_str
    time_to_string top run spell
spelled = tt

spelling-SerdeLaws : SerdeLaws spelling
spelling-SerdeLaws = record {
  map = spelling-MapLaws;
  spells = λ r w. spelling-Spells (write_record r);
}

abbrev human : Option Actor
human = some (record { id = "abcdefghijklmnopqrstuv" })

abbrev opening : Append
opening = record { author = "agent"; event = "open"; text = to_json spelling (Record.open_ asked) }

abbrev opening_row : Row
opening_row = record {
  seq = 1;
  author = "agent";
  event = "open";
  text = to_json spelling (Record.open_ (asked_by (none, true)));
}

abbrev opened : Case
opened =
    record (started 1 Author.agent (asked_by (none, true)) opening_row.text
      (Kind.decision, Urgency.today)) { revision = 1; last_seq = 1 }

abbrev answering : Append
answering = record {
  author = "human";
  event = "answer";
  text = to_json spelling (Record.answer chosen);
}

abbrev answering_row : Row
answering_row = record {
  seq = 2;
  author = "human";
  event = "answer";
  text = to_json spelling (Record.answer (chosen_by (human, true)));
}

opening_given : open_case (json_codec spelling) opening now none ≡ ok (opened, opening_row)
unfolding running spelled
opening_given = refl

fold_opening : fold (json_codec spelling) (opening_row ∷ []) ≡ ok opened
fold_opening =
    opened-fold spelling spelling-SerdeLaws opening now none (refl, refl, omega arith) opening_given

opened-fold_example : fold (json_codec spelling) (opening_row ∷ []) ≡ ok opened
opened-fold_example =
    opened-fold spelling spelling-SerdeLaws opening now none (refl, refl, omega arith) opening_given

answering_given :
    (append_event (json_codec spelling) answering now human (some 1) opened).0 ≡ ok answering_row
unfolding running spelled
answering_given = refl

abbrev answered : Case
answered = (append_event (json_codec spelling) answering now human (some 1) opened).1

fold_answering : fold (json_codec spelling) (opening_row ∷ answering_row ∷ []) ≡ ok answered
fold_answering =
    appended-fold spelling spelling-SerdeLaws (opening_row ∷ []) answering now human (some 1)
      fold_opening (omega arith) (refl, refl, omega arith) answering_given

appended-fold_example : fold (json_codec spelling) (opening_row ∷ answering_row ∷ []) ≡ ok answered
appended-fold_example =
    appended-fold spelling spelling-SerdeLaws (opening_row ∷ []) answering now human (some 1)
      fold_opening (omega arith) (refl, refl, omega arith) answering_given

fold-HasTrail_example : Trail answered.kind answered.events answered.state
fold-HasTrail_example =
    fold-HasTrail spelling (opening_row ∷ answering_row ∷ []) {c = answered} fold_answering
