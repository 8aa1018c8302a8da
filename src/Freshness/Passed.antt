-- ===== src/Freshness/Passed.antt =====
-- crates/core/src/freshness.rs: what `Case::since` says.
use cases.Prelude.{
  ℕ, ◌+◌, ◌≤◌, ◌<◌, ◌≡◌, ◌⊎◌, none, some, List, [], ◌∷◌, ◌++◌, length, arith, inl, inr,
  Option-cases,
}
use cases.Names.{State, Author, opener}
use cases.Case.{Case}
use cases.Freshness.{Since, walk, since, events_since, froms}
use cases.Freshness.Walk.{walk_first, walk_first_moved, all_given, NoReturn}

-- Whatever the case, the revision and the seq, `Case::since` says one of the three: the array of the states
-- left has room for all of them.
pub since_ends : (c : Case) (revision seq : ℕ) → (s : Since) × (since c revision seq ≡ some s)
unfolding since
since_ends c revision seq =
    let p = walk_first (froms (events_since seq c.events) ++ some c.state ∷ []) in
    elim (Option-cases (since c revision seq)) [ inl e ↦ absurd (ground (arith, p.1)) | inr q ↦ q ]

-- Where `Case::since` says that the case moved, the form is of an earlier revision, the events
-- since are as many as the rows since, each with a state before it, no amend since has changed the
-- question unless the case is the human's, and in the states passed, from the one before the first
-- event to the one now, none comes back once it is left.
pub since_moved :
    (c : Case) (revision seq : ℕ)
    → since c revision seq ≡ some Since.moved
    → (revision + length (events_since seq c.events) ≡ c.revision)
      × (revision < c.revision)
      × ((c.amend_seq ≤ seq) ⊎ (opener c.kind ≡ Author.human))
      × ((ss : List State) × (froms (events_since seq c.events) ++ some c.state ∷ [] ≡ all_given ss)
          × NoReturn ss)
unfolding since
since_moved c revision seq h =
    let walked : walk [] none (froms (events_since seq c.events) ++ some c.state ∷ [])
        ≡ some Since.moved =
      ground arith in
    (ground arith, ground arith, ground arith, walk_first_moved _ walked)
