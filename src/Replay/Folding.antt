-- ===== src/Replay/Folding.antt =====
-- crates/core/src/case.rs: `Case::fold`.
use Prim.Native.Nat.{max}
use cases.Prelude.{ℕ, false, Option, none, some, List, [], ◌∷◌, ◌++◌, length}
use cases.Error.{no_open, Result, ok, err, Checked}
use cases.Names.{Author}
use cases.Record.{Record}
use cases.Record.Codec.{Codec}
use cases.Case.{Case, Row, Problem}
use cases.Replay.Taking.{start, take}
use cases.Replay.Writing.{read}

abbrev pub Held : Type 0
Held = Option Case

-- `case = Some(Case::start(..)?)`.
abbrev pub hold_started : Result Case → Checked × Held
hold_started (ok c) = (ok tt, some c)
hold_started (err e) = (err e, none)

-- What the closure of the loop does with an event that reads: the case, once there is one, takes
-- it, and before that it must start one.
unfoldable pub fold_event : Row → Author → Record → Held → Checked × Held
fold_event row author entry none = hold_started (start row.seq author entry row.text false)
fold_event row author entry (some c) =
    let (r, c') = take row.seq author entry row.text false c in (r, some c')

-- The closure: an event that does not read changes nothing.
abbrev pub fold_taken : Row → Held → Result (Author × Record) → Checked × Held
fold_taken row held (ok (author, entry)) = fold_event row author entry held
fold_taken row held (err e) = (err e, held)

-- `if let Err(error) = taken { problems.push(..) }`.
abbrev pub note_problem : Row → Checked → List Problem → List Problem
note_problem row (ok _) problems = problems
note_problem row (err e) problems =
    problems ++ record { seq = row.seq; author = row.author; event = row.event; error = e } ∷ []

unfoldable pub max_seq : List Row → ℕ
max_seq [] = 0
max_seq (row ∷ rows) = max row.seq (max_seq rows)

-- The end of the fold.
unfoldable pub finish : List Row → Held × List Problem → Result Case
unfolding max_seq
finish rows (none, problems) = err no_open
finish rows (some c, problems) =
    ok (record c { problems = problems; revision = length rows; last_seq = max_seq rows })

module _ (k : Codec) where
  unfoldable pub fold_read : Row → Held → Checked × Held
  fold_read row held = fold_taken row held (read k row.author row.event row.text)

  unfoldable pub fold_row : Row → Held × List Problem → Held × List Problem
  unfolding fold_read
  fold_row row (held, problems) =
      let (taken, held') = fold_read row held in (held', note_problem row taken problems)

  unfoldable pub fold_rows : List Row → Held × List Problem → Held × List Problem
  unfolding fold_row
  fold_rows [] s = s
  fold_rows (row ∷ rows) s = fold_rows rows (fold_row row s)

  unfoldable pub fold : List Row → Result Case
  unfolding fold_rows finish
  fold rows = finish rows (fold_rows rows (none, []))
