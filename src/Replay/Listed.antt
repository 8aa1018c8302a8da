-- ===== src/Replay/Listed.antt =====
-- crates/core/src/case.rs: what the fold makes of each row.
use cases.Prelude.{
  ℕ, String, Bool, false, ◌≡◌, refl, sym, ap, length, none, some, List, [], ◌∷◌, ◌++◌, arith, inl,
  inr,
}
use mathlib.Core.Path.{subst}
use mathlib.Core.List.{append_assoc, append-nil}
use cases.Error.{Result, ok, err, Result-cases, ok-injective}
use cases.Names.{Author}
use cases.Record.{Record}
use cases.Record.Codec.{Codec}
use cases.Case.{Case, Row, Event, Problem}
use cases.Rules.Opening.{check_open}
use cases.Replay.Taking.{
  start, take_amend, take_answer, take_pickup, take_note, take_close, take_withdraw, take_park,
  take_resume, take_entry, take, amend_question, reopen, touch, push_event,
}
use cases.Replay.Writing.{read}
use cases.Replay.Folding.{
  Held, fold_event, fold_taken, fold_read, note_problem, max_seq, fold_row, fold_rows, finish, fold,
}
use cases.Replay.Passed.{take_passed, taken_event}
use cases.Replay.Atomic.{take_refused}

-- The event is what the row says.
abbrev pub Tells : Codec → Row → Event → Type 0
Tells k row e =
    (e.seq ≡ row.seq)
    × (e.text ≡ row.text)
    × (read k row.author row.event row.text ≡ ok (e.author, e.entry))

-- The problem names the row.
abbrev pub Faults : Row → Problem → Type 0
Faults row p = (p.seq ≡ row.seq) × (p.author ≡ row.author) × (p.event ≡ row.event)

-- Each row is one of the events or one of the problems, and both are in the order of the rows.
pub data Listed (k : Codec) : List Row → List Event → List Problem → Type 0 where
  no_rows : Listed k [] [] []
  taken :
      {rows : List Row} {events : List Event} {problems : List Problem} (row : Row) (e : Event)
      → Tells k row e
      → Listed k rows events problems
      → Listed k (rows ++ row ∷ []) (events ++ e ∷ []) problems
  skipped :
      {rows : List Row} {events : List Event} {problems : List Problem} (row : Row) (p : Problem)
      → Faults row p
      → Listed k rows events problems
      → Listed k (rows ++ row ∷ []) events (problems ++ p ∷ [])

abbrev held_events : Held → List Event
held_events none = []
held_events (some c) = c.events

-- A handler lists no event.
take_entry_events :
    (c : Case) (seq : ℕ) (author : Author) (entry : Record) (write : Bool)
    → (take_entry seq author entry write c).0 ≡ ok tt
    → (take_entry seq author entry write c).1.events ≡ c.events
unfolding take_entry take_amend amend_question take_answer take_pickup take_note take_close
    take_withdraw take_park take_resume reopen
take_entry_events c seq author (Record.amend r) write h = ground arith
take_entry_events c seq author _ write h = ground arith

pub take_events :
    (c : Case) (seq : ℕ) (author : Author) (entry : Record) (text : String) (write : Bool)
    → (take seq author entry text write c).0 ≡ ok tt
    → (take seq author entry text write c).1.events
      ≡ c.events ++ taken_event c seq author entry text ∷ []
unfolding push_event touch
take_events c seq author entry text write h =
    let p = take_passed c seq author entry text write h in
    let q = take_entry_events c seq author entry write p.0 in rw p.1 (rw q)

pub start_events :
    (seq : ℕ) (author : Author) (entry : Record) (text : String) (write : Bool) (c : Case)
    → start seq author entry text write ≡ ok c
    → c.events ≡ record { seq = seq; author = author; from = none; entry = entry; text = text } ∷ []
unfolding start
start_events seq author (Record.open_ r) text write c h =
    elim (Result-cases (check_open r author write)) [
      | inl ((kind, urgency), e) ↦ sym (ap (λ (c : Case). c.events) (ok-injective (rw e at h)))
      | inr (x, e) ↦ absurd (ground arith)
    ]
start_events seq author _ text write c h = absurd (cc h)

module _ (k : Codec) (rows : List Row) (problems : List Problem) (row : Row) where
  fold_event-Listed :
      (author : Author) (entry : Record) (held : Held)
      → read k row.author row.event row.text ≡ ok (author, entry)
      → Listed k rows (held_events held) problems
      → Listed k
          (rows ++ row ∷ [])
          (held_events (fold_event row author entry held).1)
          (note_problem row (fold_event row author entry held).0 problems)
  unfolding fold_event
  fold_event-Listed author entry none h l =
      elim (Result-cases (start row.seq author entry row.text false)) [
        | inl (c, s) ↦ rw s (
            rw (start_events row.seq author entry row.text false c s)
              (taken row _ (refl, refl, h) l))
        | inr (e, s) ↦ rw s (skipped row _ (refl, refl, refl) l)
      ]
  fold_event-Listed author entry (some c) h l =
      elim (Result-cases (take row.seq author entry row.text false c).0) [
        | inl (_, s) ↦ rw s (
            rw (take_events c row.seq author entry row.text false s)
              (taken row _ (refl, refl, h) l))
        | inr (e, s) ↦ rw s (
            rw (take_refused c row.seq author entry row.text false s)
              (skipped row _ (refl, refl, refl) l))
      ]

  fold_taken-Listed :
      (held : Held) (r : Result (Author × Record))
      → read k row.author row.event row.text ≡ r
      → Listed k rows (held_events held) problems
      → Listed k
          (rows ++ row ∷ [])
          (held_events (fold_taken row held r).1)
          (note_problem row (fold_taken row held r).0 problems)
  fold_taken-Listed held (ok (author, entry)) h l = fold_event-Listed author entry held h l
  fold_taken-Listed held (err e) h l = skipped row _ (refl, refl, refl) l

module _ (k : Codec) where
  fold_rows-Listed :
      (before rows : List Row) (s : Held × List Problem)
      → Listed k before (held_events s.0) s.1
      → let s' = fold_rows k rows s in Listed k (before ++ rows) (held_events s'.0) s'.1
  unfolding fold_rows fold_row fold_read
  fold_rows-Listed before [] s l =
      subst (λ b. Listed k b (held_events s.0) s.1) (sym (append-nil before)) l
  fold_rows-Listed before (row ∷ rows) s l =
      subst
        (λ b.
          Listed k b (held_events (fold_rows k (row ∷ rows) s).0) (fold_rows k (row ∷ rows) s).1)
        (append_assoc before (row ∷ []) rows)
        (fold_rows-Listed (before ++ row ∷ []) rows (fold_row k row s)
          (fold_taken-Listed k before s.1 row s.0 _ refl l))

  finish-Listed :
      (rows : List Row) (held : Held) (problems : List Problem) {c : Case}
      → Listed k rows (held_events held) problems
      → finish rows (held, problems) ≡ ok c
      → Listed k rows c.events c.problems × (c.revision ≡ length rows) × (c.last_seq ≡ max_seq rows)
  unfolding finish
  finish-Listed rows none problems l h = absurd (cc h)
  finish-Listed rows (some c') problems l h =
      subst
        (λ (c : Case).
          Listed k rows c.events c.problems
          × (c.revision ≡ length rows)
          × (c.last_seq ≡ max_seq rows))
        (ok-injective h) (l, refl, refl)

  -- The fold loses no row: each row is told by one event, which is what the row reads as and has
  -- the row's seq and text, or is one of the problems, which names the row; the events and the
  -- problems are in the order of the rows. The revision is the number of rows, and the last seq
  -- the largest of the rows.
  pub fold-Listed :
      (rows : List Row) {c : Case}
      → fold k rows ≡ ok c
      → Listed k rows c.events c.problems × (c.revision ≡ length rows) × (c.last_seq ≡ max_seq rows)
  unfolding fold
  fold-Listed rows h = finish-Listed rows _ _ (fold_rows-Listed [] rows (none, []) no_rows) h
