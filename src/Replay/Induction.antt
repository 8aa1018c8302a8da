-- ===== src/Replay/Induction.antt =====
-- crates/core/src/case.rs: what every start gives and every taken event keeps holds of each case
-- that the fold, an open or a run of appends gives.
use cases.Prelude.{
  ℕ, String, Bool, true, false, ◌≡◌, sym, refl, length, Option, none, some, List, [], ◌∷◌, inl, inr,
}
use mathlib.Core.Path.{subst}
use cases.Error.{Result, ok, err, Result-cases, ok-injective}
use cases.Names.{Author}
use cases.Time.{Time}
use cases.Record.{Actor, Record}
use cases.Record.Codec.{Codec}
use cases.Case.{Case, Row, Append, Problem}
use cases.Replay.Taking.{start, take}
use cases.Replay.Writing.{open_case}
use cases.Replay.Appending.{append_event, count_row}
use cases.Replay.Folding.{
  Held, fold_event, hold_started, fold_taken, fold_read, max_seq, fold_row, fold_rows, finish, fold,
}
use cases.Replay.Passed.{append_event_passed, open_case_passed}
use cases.Replay.Atomic.{take_refused, append_event_refused}

-- A property of the case itself, and not of its place in the store.
pub record IsKept (P : Case → Type 0) : Type 0 where
  pub starts :
      (seq : ℕ) (author : Author) (entry : Record) (text : String) (write : Bool) (c : Case)
      → start seq author entry text write ≡ ok c
      → P c
  pub takes :
      (seq : ℕ) (author : Author) (entry : Record) (text : String) (write : Bool) (c : Case)
      → P c
      → (take seq author entry text write c).0 ≡ ok tt
      → P (take seq author entry text write c).1
  pub counts :
      (c : Case) (problems : List Problem) (revision last_seq : ℕ)
      → P c
      → P (record c { problems = problems; revision = revision; last_seq = last_seq })

abbrev HeldHas : (Case → Type 0) → Held → Type 0
HeldHas P none = Unit
HeldHas P (some c) = P c

module _ {P : Case → Type 0} (kept : IsKept P) where
  take_kept :
      (seq : ℕ) (author : Author) (entry : Record) (text : String) (write : Bool) (c : Case)
      → P c
      → P (take seq author entry text write c).1
  take_kept seq author entry text write c p =
      elim (Result-cases (take seq author entry text write c).0) [
        | inl (_, h) ↦ kept.takes seq author entry text write c p h
        | inr (e, h) ↦ subst P (sym (take_refused c seq author entry text write h)) p
      ]

  started_kept :
      (row : Row) (author : Author) (entry : Record) (r : Result Case)
      → start row.seq author entry row.text false ≡ r
      → HeldHas P (hold_started r).1
  started_kept row author entry (ok c) h = kept.starts row.seq author entry row.text false c h
  started_kept row author entry (err e) h = tt

  fold_event_kept :
      (row : Row) (author : Author) (entry : Record) (held : Held)
      → HeldHas P held
      → HeldHas P (fold_event row author entry held).1
  unfolding fold_event
  fold_event_kept row author entry none p = started_kept row author entry _ refl
  fold_event_kept row author entry (some c) p = take_kept row.seq author entry row.text false c p

  fold_taken_kept :
      (row : Row) (held : Held) (r : Result (Author × Record))
      → HeldHas P held
      → HeldHas P (fold_taken row held r).1
  fold_taken_kept row held (ok (author, entry)) p = fold_event_kept row author entry held p
  fold_taken_kept row held (err e) p = p

  finish_kept :
      (rows : List Row) (held : Held) (problems : List Problem) {c : Case}
      → HeldHas P held
      → finish rows (held, problems) ≡ ok c
      → P c
  unfolding finish
  finish_kept rows none problems p h = absurd (cc h)
  finish_kept rows (some c') problems p h =
      subst P (ok-injective h) (kept.counts c' problems (length rows) (max_seq rows) p)

  module _ (k : Codec) where
    fold_rows_kept :
        (rows : List Row) (s : Held × List Problem)
        → HeldHas P s.0
        → HeldHas P (fold_rows k rows s).0
    unfolding fold_rows fold_row fold_read
    fold_rows_kept [] s p = p
    fold_rows_kept (row ∷ rows) s p =
        fold_rows_kept rows (fold_row k row s) (fold_taken_kept row s.0 _ p)

    -- Every case that the fold gives has the property.
    pub fold_kept : (rows : List Row) {c : Case} → fold k rows ≡ ok c → P c
    unfolding fold
    fold_kept rows h = finish_kept rows _ _ (fold_rows_kept rows (none, []) tt) h

    -- An open gives a case that has it.
    pub open_case_kept :
        (append : Append) (now : Time) (writer : Option Actor) {c : Case} {row : Row}
        → open_case k append now writer ≡ ok (c, row)
        → P c
    open_case_kept append now writer h =
        let q = open_case_passed k append now writer h in
        subst P q.5 (kept.counts q.2 q.2.problems 1 1 (kept.starts 1 q.0 q.1 _ true q.2 q.4))

    -- An append, accepted or refused, to a case that has it leaves one that has it.
    pub append_kept :
        (append : Append) (now : Time) (writer : Option Actor) (at_revision : Option ℕ) (c : Case)
        → P c
        → P (append_event k append now writer at_revision c).1
    unfolding count_row
    append_kept append now writer at_revision c p =
        elim (Result-cases (append_event k append now writer at_revision c).0) [
          | inl (row, h) ↦
              let q = append_event_passed k append now writer at_revision c h in
              subst P (sym q.6) (kept.counts _ _ _ _ (kept.takes q.2 q.0 q.1 _ true c p q.5))
          | inr (e, h) ↦ subst P (sym (append_event_refused k append now writer at_revision c h)) p
        ]
