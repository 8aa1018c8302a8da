-- ===== src/Examples/Fresh.antt =====
-- Forms drawn from a case, and what it says of them later.
use cases.Prelude.{true, ◌+◌, ◌≤◌, ◌<◌, ◌≡◌, ◌⊎◌, refl, some, List, [], ◌∷◌, ◌++◌, length}
use cases.Names.{State, Author, opener}
use cases.Freshness.{Since, walk, since, events_since, stays, froms, unchanged_since}
use cases.Freshness.Walk.{all_given, NoReturn}
use cases.Freshness.Passed.{since_ends, since_moved}
use cases.Examples.Running.{running}
use cases.Examples.Replayed.{answered}

-- The answer, drawn before it.
since-answered : since answered 2 2 ≡ some Since.moved
unfolding running since walk stays events_since
since-answered = refl

-- The rows of `answered` from the one that its fold skipped.
since-skipped : since answered 1 1 ≡ some Since.changed
unfolding running since walk stays events_since
since-skipped = refl

unchanged_since-answered : unchanged_since answered 3 3 ≡ some true
unfolding unchanged_since since
unchanged_since-answered = refl

since_moved_example :
    (2 + length (events_since 2 answered.events) ≡ answered.revision)
    × (2 < answered.revision)
    × ((answered.amend_seq ≤ 2) ⊎ (opener answered.kind ≡ Author.human))
    × ((ss : List State) × (froms (events_since 2 answered.events) ++ some answered.state ∷ []
          ≡ all_given ss)
        × NoReturn ss)
since_moved_example = since_moved answered 2 2 since-answered

since_ends_example : (s : Since) × (since answered 2 2 ≡ some s)
since_ends_example = since_ends answered 2 2
