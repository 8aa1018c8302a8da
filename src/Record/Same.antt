-- ===== src/Record/Same.antt =====
-- crates/core/src/record.rs: JSON values in which no object gives a key twice, and values that
-- differ in the order of the fields of their objects alone.
use cases.Prelude.{String, Bool, false, Option, none, some, ◌≡◌, ◌==◌, Bool-cases, inl, inr}
use cases.Record.Json.{
  Json, Items, Fields, null, boolean, int, float, str, array, object, nil, cons, end, field, lookup,
  contains_key,
}
use cases.Prelude.Int.{ℤ}

-- No object in the value gives a key twice.
unfoldable mutual
  pub IsUnique : Json → Type 0
  IsUnique (array items) = AreUnique items
  IsUnique (object fields) = AreUniqueFields fields
  IsUnique null = Unit
  IsUnique (boolean b) = Unit
  IsUnique (int n) = Unit
  IsUnique (float s) = Unit
  IsUnique (str s) = Unit

  pub AreUnique : Items → Type 0
  AreUnique nil = Unit
  AreUnique (cons x rest) = IsUnique x × AreUnique rest

  pub AreUniqueFields : Fields → Type 0
  AreUniqueFields end = Unit
  AreUniqueFields (field key x rest) =
      (contains_key key rest ≡ false) × IsUnique x × AreUniqueFields rest

-- Two values are the same but for the order of the fields in their objects: items stand in the
-- same order, and each key has a value in both objects or in neither.
mutual
  pub data Same : Json → Json → Type 0 where
    null_same : Same null null
    boolean_same : (b : Bool) → Same (boolean b) (boolean b)
    int_same : (n : ℤ) → Same (int n) (int n)
    float_same : (s : String) → Same (float s) (float s)
    str_same : (s : String) → Same (str s) (str s)
    array_same : {xs ys : Items} → SameItems xs ys → Same (array xs) (array ys)
    object_same :
        {f g : Fields}
        → ((key : String) → SameField (lookup key f) (lookup key g))
        → Same (object f) (object g)

  pub data SameItems : Items → Items → Type 0 where
    nil_same : SameItems nil nil
    cons_same :
        {x y : Json} {xs ys : Items}
        → Same x y
        → SameItems xs ys
        → SameItems (cons x xs) (cons y ys)

  pub data SameField : Option Json → Option Json → Type 0 where
    absent : SameField none none
    present : {x y : Json} → Same x y → SameField (some x) (some y)

mutual
  unfolding lookup

  -- A value is the same as itself.
  pub Same-refl : (v : Json) → Same v v
  Same-refl null = null_same
  Same-refl (boolean b) = boolean_same b
  Same-refl (int n) = int_same n
  Same-refl (float s) = float_same s
  Same-refl (str s) = str_same s
  Same-refl (array items) = array_same (items_self items)
  Same-refl (object fields) = object_same (fields_self fields)

  items_self : (items : Items) → SameItems items items
  items_self nil = nil_same
  items_self (cons x rest) = cons_same (Same-refl x) (items_self rest)

  fields_self : (fields : Fields) (key : String) → SameField (lookup key fields) (lookup key fields)
  fields_self end key = absent
  fields_self (field k x rest) key = elim (Bool-cases (k == key)) [
    | inl e ↦ rw e (present (Same-refl x))
    | inr e ↦ rw e (fields_self rest key)
  ]
