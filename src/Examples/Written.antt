-- ===== src/Examples/Written.antt =====
-- A record as JSON, through a library that spells every value.
use cases.Prelude.{true, none, some, ◌≡◌, ◌↔◌}
use cases.Prelude.Int.{pos}
use cases.Error.{ok}
use cases.Record.{Record, event}
use cases.Record.Reading.{read_record}
use cases.Record.Writing.{write_record, to_json}
use cases.Record.Through.{read_record-to_json}
use cases.Record.RoundTrip.{IsWritable}
use cases.Examples.Spelt.{spelling}
use cases.Examples.Spelt.Clean.{spelling-MapLaws, spelling-Spells}

abbrev noted : Record
noted = Record.note (record {
  body = "-0 is kept";
  reopen = true;
  actor = none;
  noted_at = some (record { secs = pos 1789462920; nanos = 0 });
})

read_record-to_json_example :
    (read_record spelling (event noted) (to_json spelling noted) ≡ ok noted) ↔ IsWritable noted
read_record-to_json_example =
    read_record-to_json spelling spelling-MapLaws noted (spelling-Spells (write_record noted))
