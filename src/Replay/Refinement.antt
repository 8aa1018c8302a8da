-- ===== src/Replay/Refinement.antt =====
-- crates/core/src/case.rs: the writer refines the fold. The case that an open or an append leaves is
-- the one that the rows fold to with the new row stored after them.
use Prim.Native.Nat.{max}
use mathlib.Core.Path.{subst}
use cases.Prelude.{
  ℕ, Bool, ◌+◌, ◌%◌, ◌<◌, String, true, false, ◌≡◌, refl, sym, ◌∙◌, ap, Option, none, some, List,
  [], ◌∷◌, ◌++◌, length, length-append, arith,
}
use cases.Error.{Result, ok, ok-injective}
use cases.Names.{Author}
use cases.Time.{Time}
use cases.Record.{Actor, Record}
use cases.Record.Codec.{Codec, CodecLaws}
use cases.Case.{Case, Row, Append, Problem}
use cases.Replay.Taking.{take, start}
use cases.Replay.Writing.{u64_mod, next_seq, read, new_row, open_case}
use cases.Replay.Appending.{append_event, count_row}
use cases.Replay.Folding.{Held, fold_event, fold_read, fold_row, fold_rows, max_seq, finish, fold}
use cases.Replay.Passed.{append_event_passed, open_case_passed}
use cases.Replay.Recount.{recount, take-recount, take-write, start-write}
use cases.Replay.Stored.{stamp-IsStored}

max_seq-append :
    (rows : List Row) (row : Row) → max_seq (rows ++ row ∷ []) ≡ max (max_seq rows) row.seq
unfolding max_seq
max_seq-append [] row = omega arith
max_seq-append (r ∷ rows) row = omega (arith, max_seq-append rows row)

next_seq_passed : (last seq : ℕ) → next_seq last ≡ ok seq → seq ≡ last + 1
unfolding next_seq
next_seq_passed last seq h = ground arith

problems-start :
    (seq : ℕ) (author : Author) (entry : Record) (text : String) (write : Bool) {c : Case}
    → start seq author entry text write ≡ ok c
    → c.problems ≡ []
unfolding start
problems-start seq author (Record.open_ r) text write h = ground arith
problems-start seq author _ text write h = ground arith

module _ (k : Codec) where
  fold_rows-append :
      (rows : List Row) (row : Row) (s : Held × List Problem)
      → fold_rows k (rows ++ row ∷ []) s ≡ fold_row k row (fold_rows k rows s)
  unfolding fold_rows
  fold_rows-append [] row s = refl
  fold_rows-append (r ∷ rows) row s = fold_rows-append rows row (fold_row k r s)

  -- A fold that gives a case held it, with the problems, after the last row.
  finish_passed :
      (rows : List Row) (s : Held × List Problem) {c : Case}
      → finish rows s ≡ ok c
      → (c0 : Case) × (problems : List Problem) × (s ≡ (some c0, problems))
        × (recount problems (length rows) (max_seq rows) c0 ≡ c)
  unfolding finish
  finish_passed rows (none, problems) h = absurd (cc h)
  finish_passed rows (some c0, problems) h = (c0, problems, refl, ok-injective h)

  fold_row_taken :
      (row : Row) (author : Author) (entry : Record) (c0 : Case) (problems : List Problem)
      → read k row.author row.event row.text ≡ ok (author, entry)
      → (take row.seq author entry row.text false c0).0 ≡ ok tt
      → fold_row k row (some c0, problems)
        ≡ (some (take row.seq author entry row.text false c0).1, problems)
  unfolding fold_row fold_read fold_event
  fold_row_taken row author entry c0 problems r h = ground arith

  -- One more row, which reads as an event that the writer's case takes.
  refold :
      (rows : List Row) (row : Row) (author : Author) (entry : Record) (c0 : Case)
      (problems : List Problem)
      → let c = recount problems (length rows) (max_seq rows) c0 in
        fold_rows k rows (none, []) ≡ (some c0, problems)
        → read k row.author row.event row.text ≡ ok (author, entry)
        → (take row.seq author entry row.text true c).0 ≡ ok tt
        → row.seq ≡ max_seq rows + 1
        → length rows + 1 < u64_mod
        → fold k (rows ++ row ∷ [])
          ≡ ok (count_row row.seq (take row.seq author entry row.text true c).1).1
  unfolding fold finish count_row
  refold rows row author entry c0 problems held r h next small =
      let c = recount problems (length rows) (max_seq rows) c0 in
      let again = take-write c row.seq author entry row.text h in
      let same =
        take-recount problems (length rows) (max_seq rows) c0 row.seq author entry row.text false in
      let h0 : (take row.seq author entry row.text false c0).0 ≡ ok tt =
        sym same.0 ∙ (ap (λ (p : Result (Unit {0}) × Case). p.0) again ∙ h) in
      let size : length (rows ++ row ∷ []) ≡ (length rows + 1) % u64_mod =
        omega (arith, length-append rows (row ∷ [])) in
      let last : max_seq (rows ++ row ∷ []) ≡ row.seq = omega (arith, max_seq-append rows row) in
      rw (fold_rows-append, held, fold_row_taken row author entry c0 problems r h0)
        (rw (← again) (rw (same.1, size, last)))

  module _ {Now : Time → Type 0} (laws : CodecLaws k Now) where
    append_event-refold :
        (rows : List Row) (append : Append) (now : Time) (writer : Option Actor)
        (at_revision : Option ℕ) (c0 : Case) (problems : List Problem) {row : Row}
        → let c = recount problems (length rows) (max_seq rows) c0 in
          fold_rows k rows (none, []) ≡ (some c0, problems)
          → length rows + 1 < u64_mod
          → Now now
          → (append_event k append now writer at_revision c).0 ≡ ok row
          → fold k (rows ++ row ∷ []) ≡ ok (append_event k append now writer at_revision c).1
    unfolding new_row
    append_event-refold rows append now writer at_revision c0 problems held small n h =
        let c = recount problems (length rows) (max_seq rows) c0 in
        let a = append_event_passed k append now writer at_revision c h in
        rw (a.6, a.7)
          (refold rows (new_row k a.2 a.0 a.1) a.0 a.1 c0 problems held
            (stamp-IsStored k laws append now writer a.2 a.0 a.1 n a.3) a.5
            (next_seq_passed (max_seq rows) a.2 a.4) small)

    -- The rows of a case, with the row that an append to it gives after them, fold to the case
    -- that the append leaves: the same state, question, events, problems, revision and last seq.
    -- The records are read and written by a codec that keeps its laws, the time is one that it
    -- writes, and the case has fewer rows than a `u64` counts.
    pub append_event-fold :
        (rows : List Row) (append : Append) (now : Time) (writer : Option Actor)
        (at_revision : Option ℕ) {c : Case} {row : Row}
        → fold k rows ≡ ok c
        → length rows + 1 < u64_mod
        → Now now
        → (append_event k append now writer at_revision c).0 ≡ ok row
        → fold k (rows ++ row ∷ []) ≡ ok (append_event k append now writer at_revision c).1
    unfolding fold
    append_event-fold rows append now writer at_revision {c = c} {row = row} folded small n h =
        let q = finish_passed rows _ folded in
        subst
          (λ c.
            (append_event k append now writer at_revision c).0 ≡ ok row
            → finish (rows ++ row ∷ []) (fold_rows k (rows ++ row ∷ []) (none, []))
              ≡ ok (append_event k append now writer at_revision c).1)
          q.3 (append_event-refold rows append now writer at_revision q.0 q.1 q.2 small n) h

    -- The row that an open gives folds to the case that it gives, where records are read and
    -- written by a codec that keeps its laws and the time is one that it writes.
    pub open_case-fold :
        (append : Append) (now : Time) (writer : Option Actor) {c : Case} {row : Row}
        → Now now
        → open_case k append now writer ≡ ok (c, row)
        → fold k (row ∷ []) ≡ ok c
    unfolding fold fold_rows fold_row fold_read fold_event finish max_seq new_row
    open_case-fold append now writer n h =
        let q = open_case_passed k append now writer h in
        let r = stamp-IsStored k laws append now writer 1 q.0 q.1 n q.3 in
        let s = start-write 1 q.0 q.1 (new_row k 1 q.0 q.1).text q.4 in
        let none_skipped = problems-start 1 q.0 q.1 (new_row k 1 q.0 q.1).text true q.4 in
        rw q.6 (ground (arith, r, s, q.5, none_skipped))
