-- ===== src/Replay/Spelt.antt =====
-- crates/core/src/case.rs over crates/core/src/record.rs: appending and opening against the fold, with
-- the records as JSON.
use cases.Prelude.{ℕ, ◌+◌, ◌<◌, ◌≡◌, Option, List, [], ◌∷◌, ◌++◌, length}
use cases.Error.{ok}
use cases.Time.{Time}
use cases.Time.Text.Accepted.{IsTime}
use cases.Record.{Actor}
use cases.Record.Json.{Serde}
use cases.Record.Through.{json_codec, SerdeLaws, json_codec-CodecLaws}
use cases.Case.{Case, Row, Append}
use cases.Replay.Writing.{u64_mod, open_case}
use cases.Replay.Folding.{fold}
use cases.Replay.Appending.{append_event}
use cases.Replay.Refinement.{append_event-fold, open_case-fold}

module _ (serde : Serde) (laws : SerdeLaws serde) where
  -- The rows of a case, with the row that an append to it gives after them, fold to the case that the
  -- append leaves: the same state, question, events, problems, revision and last seq. The records
  -- are JSON, whose text `serde_json` writes without a sign before a zero and reads back, each key
  -- once, its map holding what was inserted; the time is in the years 0000 to 9999, and the case has
  -- fewer rows than a `u64` counts.
  pub appended-fold :
      (rows : List Row) (append : Append) (now : Time) (writer : Option Actor)
      (at_revision : Option ℕ) {c : Case} {row : Row}
      → fold (json_codec serde) rows ≡ ok c
      → length rows + 1 < u64_mod
      → IsTime now
      → (append_event (json_codec serde) append now writer at_revision c).0 ≡ ok row
      → fold (json_codec serde) (rows ++ row ∷ [])
        ≡ ok (append_event (json_codec serde) append now writer at_revision c).1
  appended-fold rows append now writer at_revision =
      append_event-fold (json_codec serde) (json_codec-CodecLaws serde laws) rows append now writer
        at_revision

  -- The row that an open gives folds to the case that it gives, with the record as JSON, whose
  -- text `serde_json` writes without a sign before a zero and reads back, each key once, its map
  -- holding what was inserted, at a time in the years 0000 to 9999.
  pub opened-fold :
      (append : Append) (now : Time) (writer : Option Actor) {c : Case} {row : Row}
      → IsTime now
      → open_case (json_codec serde) append now writer ≡ ok (c, row)
      → fold (json_codec serde) (row ∷ []) ≡ ok c
  opened-fold append now writer =
      open_case-fold (json_codec serde) (json_codec-CodecLaws serde laws) append now writer
