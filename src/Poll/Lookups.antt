-- ===== src/Poll/Lookups.antt =====
-- crates/core/src/poll.rs: what is looked up in the map of cases after each of its loops.
use cases.Prelude.{
  ℕ, Bool, false, ◌≡◌, refl, Option, none, some, List, [], ◌∷◌, ◌++◌, nat_eq, if◌then◌else◌, arith,
  ◌||◌, All,
}
use cases.Record.Codec.{Codec}
use cases.Case.{Row}
use cases.Store.{Cases, lookup, insert, remove}
use cases.Poll.{remove_all, insert_all}
use cases.Replay.Folding.{fold}

module _ {V : Type 0} where
  lookup-insert :
      (k j : ℕ) (v : V) (m : List (ℕ × V))
      → lookup j (insert k v m) ≡ (if nat_eq k j then some v else lookup j m)
  unfolding insert
  lookup-insert k j v [] = refl
  lookup-insert k j v ((i, w) ∷ m) = ground (arith, lookup-insert k j v m)

  lookup-remove :
      (k j : ℕ) (m : List (ℕ × V))
      → lookup j (remove k m) ≡ (if nat_eq k j then none else lookup j m)
  unfolding remove
  lookup-remove k j [] = ground arith
  lookup-remove k j ((i, w) ∷ m) = ground (arith, lookup-remove k j m)

abbrev pub is_key : ℕ → List ℕ → Bool
is_key k [] = false
is_key k (j ∷ js) = nat_eq j k || is_key k js

pub lookup-remove_all :
    (removed : List ℕ) (j : ℕ) (m : Cases)
    → lookup j (remove_all removed m) ≡ (if is_key j removed then none else lookup j m)
unfolding remove_all
lookup-remove_all [] j m = refl
lookup-remove_all (k ∷ removed) j m =
    ground (arith, lookup-remove_all removed j (remove k m), lookup-remove k j m)

abbrev pub given : {V : Type 0} → ℕ → List (ℕ × V) → Bool
given k [] = false
given k ((j, v) ∷ m) = nat_eq j k || given k m

-- No key is given twice.
abbrev pub IsKeyed : {V : Type 0} → List (ℕ × V) → Type 0
IsKeyed [] = Unit
IsKeyed ((k, v) ∷ m) = (given k m ≡ false) × IsKeyed m

abbrev pub or_else : {V : Type 0} → Option V → Option V → Option V
or_else none b = b
or_else (some a) b = some a

abbrev pub map_option : {A B : Type 0} → (A → B) → Option A → Option B
map_option f none = none
map_option f (some a) = some (f a)

pub lookup-absent : {V : Type 0} (k : ℕ) (m : List (ℕ × V)) → given k m ≡ false → lookup k m ≡ none
lookup-absent k [] h = refl
lookup-absent k ((j, v) ∷ m) h = ground (arith, lookup-absent k m)

pub lookup-insert_all :
    (k : Codec) (changed : List (ℕ × List Row)) (j : ℕ) (m : Cases)
    → IsKeyed changed
    → lookup j (insert_all k changed m)
      ≡ or_else (map_option (fold k) (lookup j changed)) (lookup j m)
unfolding insert_all
lookup-insert_all k [] j m d = refl
lookup-insert_all k ((i, rows) ∷ changed) j m d = ground (
  arith,
  lookup-insert_all k changed j (insert i (fold k rows) m) d.1,
  lookup-insert i j (fold k rows) m,
  lookup-absent j changed,
)

pub All-append_split :
    {A : Type 0} (P : A → Type 0) (xs ys : List A) → All P (xs ++ ys) → All P xs × All P ys
All-append_split P [] ys p = (tt, p)
All-append_split P (x ∷ xs) ys p = let q = All-append_split P xs ys p.1 in ((p.0, q.0), q.1)
