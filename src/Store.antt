-- ===== src/Store.antt =====
-- crates/core/src/store.rs: what a store gives a reader that polls it.
use cases.Prelude.{
  ℕ, String, Option, none, some, List, [], ◌∷◌, ltb, nat_eq, if◌then◌else◌, no_text,
}
use cases.Error.{Category, Result}
use cases.Case.{Case, Row}

-- A store's version is opaque text, and a key is its number.
abbrev pub Version : Type 0
Version = String

pub data Changes : Type 0 where
  unchanged : Version → Changes
  since : Version → List (ℕ × List Row) → List ℕ → Changes
  all : Version → List (ℕ × List Row) → Changes

-- `Changes::version` and `Changes::cases`.
unfoldable pub changes_version : Changes → Version
changes_version (Changes.unchanged v) = v
changes_version (Changes.since v cases removed) = v
changes_version (Changes.all v cases) = v

unfoldable pub changes_cases : Changes → List (ℕ × List Row)
changes_cases (Changes.unchanged v) = []
changes_cases (Changes.since v cases removed) = cases
changes_cases (Changes.all v cases) = cases

-- `Cases`, a `BTreeMap`: by key, in ascending order.
abbrev pub Cases : Type 0
Cases = List (ℕ × Result Case)

module _ {V : Type 0} where
  abbrev pub lookup : ℕ → List (ℕ × V) → Option V
  lookup k [] = none
  lookup k ((j, v) ∷ m) = if nat_eq j k then some v else lookup k m

  unfoldable pub insert : ℕ → V → List (ℕ × V) → List (ℕ × V)
  insert k v [] = (k, v) ∷ []
  insert k v ((j, w) ∷ m) =
      if nat_eq j k
      then (k, v) ∷ m
      else if ltb k j
      then (k, v) ∷ (j, w) ∷ m
      else (j, w) ∷ insert k v m

  unfoldable pub remove : ℕ → List (ℕ × V) → List (ℕ × V)
  remove k [] = []
  remove k ((j, w) ∷ m) = if nat_eq j k then remove k m else (j, w) ∷ remove k m

-- `Writer::new`.
unfoldable pub new_writer : Option String → Option String
new_writer none = none
new_writer (some name) = if no_text name then none else some name

-- `StoreError`, of a store's own errors `E`.
pub data StoreError (E : Type 0) : Type 0 where
  refused : Category → StoreError E
  no_case : StoreError E
  failed : E → StoreError E
