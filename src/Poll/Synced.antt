-- ===== src/Poll/Synced.antt =====
-- crates/core/src/poll.rs: what a poller gives is every case of the store, folded.
use cases.Prelude.{
  ℕ, true, false, ◌≡◌, refl, ◌⊎◌, inl, inr, Option, none, some, List, [], ◌∷◌, ◌++◌, if◌then◌else◌,
  arith, All,
}
use mathlib.Core.Path.{subst}
use cases.Record.Codec.{Codec}
use cases.Case.{Row}
use cases.Store.{Version, Changes, Cases, lookup}
use cases.Poll.{Read, Poller, new_poller, remove_all, insert_all, take_changes, take_answer, poll}
use cases.Replay.Folding.{fold}
use cases.Poll.Lookups.{
  is_key, given, IsKeyed, or_else, map_option, lookup-absent, lookup-remove_all, lookup-insert_all,
  All-append_split,
}

-- What `Store::rows_since` promises of its answer, where `rows_at` gives the cases of the store at
-- each version: nothing changed, only where the version asked about is the one now; or what
-- changed since it, each case with its rows, and the keys that went, none of them a case that is
-- given; or every case, the only other answer, and the only one where no version is asked about.
abbrev pub Answers : (Version → List (ℕ × List Row)) → Option Version → Changes → Type 0
Answers rows_at asked (Changes.unchanged now) = asked ≡ some now
Answers rows_at none (Changes.since now cases removed) = ⊥
Answers rows_at (some old) (Changes.since now cases removed) =
    IsKeyed cases
    × ((j : ℕ) → is_key j removed ≡ true → given j cases ≡ false)
    × ((j : ℕ)
        → lookup j (rows_at now)
          ≡ (if is_key j removed then none else or_else (lookup j cases) (lookup j (rows_at old))))
Answers rows_at asked (Changes.all now cases) = IsKeyed cases × (cases ≡ rows_at now)

abbrev pub IsLawful :
    {E : Type 0} → (Version → List (ℕ × List Row)) → Option Version → E ⊎ Changes → Type 0
IsLawful rows_at asked (inl error) = Unit
IsLawful rows_at asked (inr changes) = Answers rows_at asked changes

module _ (k : Codec) (rows_at : Version → List (ℕ × List Row)) where
  abbrev pub HoldsAt : Option Version → Cases → Type 0
  HoldsAt none cases = cases ≡ []
  HoldsAt (some v) cases = (j : ℕ) → lookup j cases ≡ map_option (fold k) (lookup j (rows_at v))

  -- The poller holds every case of the store at its version, folded, or nothing without one.
  abbrev pub IsSynced : Poller → Type 0
  IsSynced p = HoldsAt p.version p.cases

  take_changes-IsSynced :
      (p : Poller) (changes : Changes)
      → IsSynced p
      → Answers rows_at p.version changes
      → IsSynced (take_changes k changes p)
  unfolding take_changes
  take_changes-IsSynced p (Changes.unchanged now) h a = subst (λ v. HoldsAt v p.cases) a h
  take_changes-IsSynced p (Changes.since now cases removed) h a = since_synced p.version p.cases h a
    where
      since_synced :
          (asked : Option Version) (held : Cases)
          → HoldsAt asked held
          → Answers rows_at asked (Changes.since now cases removed)
          → HoldsAt (some now) (insert_all k cases (remove_all removed held))
      since_synced none held h a = absurd a
      since_synced (some old) held h a = λ j. ground (
        arith,
        lookup-insert_all k cases j (remove_all removed held) a.0,
        lookup-remove_all removed j held,
        h j,
        a.1 j,
        a.2 j,
        lookup-absent j cases,
      )
  take_changes-IsSynced p (Changes.all now cases) h a =
      λ j. ground (arith, lookup-insert_all k cases j [] a.0, a.1)

  take_answer-IsSynced :
      {E : Type 0} (answer : E ⊎ Changes) (p : Poller)
      → IsSynced p
      → IsLawful rows_at p.version answer
      → IsSynced (take_answer k answer p).1
  unfolding take_answer
  take_answer-IsSynced (inl error) p h a = refl
  take_answer-IsSynced (inr changes) p h a = take_changes-IsSynced p changes h a

  take_answer_given :
      {E : Type 0} (answer : E ⊎ Changes) (p : Poller) {cases : Cases}
      → (take_answer k answer p).0 ≡ inr cases
      → (v : Version) × ((take_answer k answer p).1.version ≡ some v)
        × ((take_answer k answer p).1.cases ≡ cases)
  unfolding take_answer take_changes
  take_answer_given (inl error) p h = absurd (ground arith)
  take_answer_given (inr (Changes.unchanged v)) p h = (v, refl, ground arith)
  take_answer_given (inr (Changes.since v cases removed)) p h = (v, refl, ground arith)
  take_answer_given (inr (Changes.all v cases)) p h = (v, refl, ground arith)

  module _ {E : Type 0} where
    -- One poll after another, each of the store as it is then.
    unfoldable pub polls : List (Read E) → Poller → Poller
    polls [] p = p
    polls (read ∷ reads) p = polls reads (poll k read p).1

    abbrev pub AreLawful : List (Read E) → Type 0
    AreLawful reads =
        All (λ (read : Read E). (asked : Option Version) → IsLawful rows_at asked (read asked))
          reads

    polls-IsSynced :
        (reads : List (Read E)) (p : Poller)
        → IsSynced p
        → AreLawful reads
        → IsSynced (polls reads p)
    unfolding polls poll
    polls-IsSynced [] p h lawful = h
    polls-IsSynced (read ∷ reads) p h lawful =
        polls-IsSynced reads (take_answer k (read p.version) p).1
          (take_answer-IsSynced (read p.version) p h (lawful.0 p.version)) lawful.1

    -- Whatever polls a poller has made of a store that answers as it promises, those that failed
    -- included, a poll that succeeds gives each case of the store at the version that the poller
    -- then has, folded, and no other case.
    pub poll-polls :
        (reads : List (Read E)) (read : Read E) {cases : Cases}
        → AreLawful (reads ++ read ∷ [])
        → (poll k read (polls reads new_poller)).0 ≡ inr cases
        → (v : Version) × ((poll k read (polls reads new_poller)).1.version ≡ some v)
          × ((j : ℕ) → lookup j cases ≡ map_option (fold k) (lookup j (rows_at v)))
    unfolding poll new_poller
    poll-polls reads read {cases = cases} lawful h =
        let both = All-append_split _ reads (read ∷ []) lawful in
        let p = polls reads new_poller in
        let synced = polls-IsSynced reads new_poller refl both.0 in
        let after = take_answer-IsSynced (read p.version) p synced (both.1.0 p.version) in
        let (v, at, same) = take_answer_given (read p.version) p h in
        (
          v,
          at,
          subst (λ cases. HoldsAt (some v) cases) same
              (subst (λ o. HoldsAt o (take_answer k (read p.version) p).1.cases) at after),
        )
