-- ===== src/Poll.antt =====
-- crates/core/src/poll.rs: the poller, which keeps every case of a store folded.
pub mod Lookups
pub mod Synced
use cases.Prelude.{ℕ, Option, none, some, List, [], ◌∷◌, ◌⊎◌, inl, inr}
use cases.Record.Codec.{Codec}
use cases.Case.{Case, Row}
use cases.Store.{Version, Changes, Cases, insert, remove}
use cases.Replay.Folding.{fold}

-- A read of what changed since a version: the store at one moment, as a poll meets it, or the
-- store's error.
abbrev pub Read : Type 0 → Type 0
Read E = Option Version → E ⊎ Changes

pub record Poller : Type 0 where
  pub version : Option Version
  pub cases : Cases

-- `Poller::with_read`.
unfoldable pub new_poller : Poller
new_poller = record { version = none; cases = [] }

unfoldable pub remove_all : List ℕ → Cases → Cases
remove_all [] cases = cases
remove_all (key ∷ removed) cases = remove_all removed (remove key cases)

module _ (k : Codec) where
  -- `for (key, rows) in changed`.
  unfoldable pub insert_all : List (ℕ × List Row) → Cases → Cases
  insert_all [] cases = cases
  insert_all ((key, rows) ∷ changed) cases = insert_all changed (insert key (fold k rows) cases)

  -- What a read that did not fail makes of the poller.
  unfoldable pub take_changes : Changes → Poller → Poller
  take_changes (Changes.unchanged v) p = record p { version = some v }
  take_changes (Changes.since v cases removed) p = record {
    version = some v;
    cases = insert_all cases (remove_all removed p.cases);
  }
  take_changes (Changes.all v cases) p = record { version = some v; cases = insert_all cases [] }

  unfoldable pub take_answer : {E : Type 0} → E ⊎ Changes → Poller → (E ⊎ Cases) × Poller
  take_answer (inl error) p = (inl error, record { version = none; cases = [] })
  take_answer (inr changes) p = (inr (take_changes changes p).cases, take_changes changes p)

  -- `Poller::poll`.
  unfoldable pub poll : {E : Type 0} → Read E → Poller → (E ⊎ Cases) × Poller
  poll read p = take_answer (read p.version) p
