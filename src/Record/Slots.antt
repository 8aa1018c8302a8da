-- ===== src/Record/Slots.antt =====
-- crates/core/src/record.rs: the object of a record's fields, of which it leaves some out.
use cases.Prelude.{
  String, Bool, true, false, not, ◌&&◌, ◌≡◌, refl, ap, ◌∙◌, Option, none, some, List, [], ◌∷◌, ◌==◌,
  eq_iff, arith, if◌then◌else◌, Bool-cases, inl, inr,
}
use mathlib.Core.Path.{subst}
use cases.Record.Json.{Json, lookup, contains_key}
use cases.Record.Fields.{read_given, read_field}
use cases.Record.Writing.{Slot, compact}
use cases.Record.Same.{IsUnique, AreUniqueFields}

abbrev has_slot : String → List Slot → Bool
has_slot key [] = false
has_slot key ((k, v) ∷ slots) = if k == key then true else has_slot key slots

abbrev pub distinct : List Slot → Bool
distinct [] = true
distinct ((k, v) ∷ slots) = not (has_slot k slots) && distinct slots

abbrev pub find : String → List Slot → Option Json
find key [] = none
find key ((k, v) ∷ slots) = if k == key then v else find key slots

abbrev pub IsUniqueSlot : Option Json → Type 0
IsUniqueSlot none = Unit
IsUniqueSlot (some v) = IsUnique v

abbrev pub AreUniqueSlots : List Slot → Type 0
AreUniqueSlots [] = Unit
AreUniqueSlots ((k, v) ∷ slots) = IsUniqueSlot v × AreUniqueSlots slots

-- One slot after another.
infixr 15 ◌&◌
abbrev pub ◌&◌ : {A B : Type 0} → A → B → A × B
a & b = (a, b)

compact-absent :
    (key : String) (slots : List Slot)
    → has_slot key slots ≡ false
    → (lookup key (compact slots) ≡ none) × (contains_key key (compact slots) ≡ false)
unfolding lookup contains_key
compact-absent key [] h = (refl, refl)
compact-absent key ((k, none) ∷ slots) h = compact-absent key slots (ground arith)
compact-absent key ((k, some v) ∷ slots) h =
    let p = compact-absent key slots (ground arith) in (ground arith, ground arith)

lookup-compact :
    (key : String) (slots : List Slot)
    → distinct slots ≡ true
    → lookup key (compact slots) ≡ find key slots
unfolding lookup
lookup-compact key [] h = refl
lookup-compact key ((k, some v) ∷ slots) h =
    (let p = lookup-compact key slots (ground arith) in ground arith)
lookup-compact key ((k, none) ∷ slots) h = elim (Bool-cases (k == key)) [
  | inl e ↦
      rw e
        (compact-absent key slots
          (subst (λ k. has_slot k slots ≡ false) ((eq_iff k key).0 e) (ground arith))).0
  | inr e ↦ rw e (lookup-compact key slots (ground arith))
]

pub compact-AreUniqueFields :
    (slots : List Slot)
    → distinct slots ≡ true
    → AreUniqueSlots slots
    → AreUniqueFields (compact slots)
unfolding AreUniqueFields
compact-AreUniqueFields [] h u = tt
compact-AreUniqueFields ((k, none) ∷ slots) h u = compact-AreUniqueFields slots (ground arith) u.1
compact-AreUniqueFields ((k, some v) ∷ slots) h u = (
  (compact-absent k slots (ground arith)).1,
  u.0,
  compact-AreUniqueFields slots (ground arith) u.1,
)

-- A field reads from the value that the record gives it.
pub read_field-compact :
    {A : Type 0} (slots : List Slot) (key : String) (read : Json → Option A) (default : A) {a : A}
    → distinct slots ≡ true
    → read_given read default (find key slots) ≡ some a
    → read_field (compact slots) key read default ≡ some a
read_field-compact slots key read default h e =
    ap (read_given read default) (lookup-compact key slots h) ∙ e
