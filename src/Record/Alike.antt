-- ===== src/Record/Alike.antt =====
-- crates/core/src/record.rs: a reader gives the same of two values that differ in the order of the
-- fields of their objects alone.
use cases.Prelude.{String, ◌≡◌, refl, Option}
use cases.Record.Json.{Json, Items, Fields, lookup}
use cases.Record.Fields.{
  read_text, read_bool, read_int, read_count, read_time_field, read_items, read_list, read_some,
  read_given, read_field,
}
use cases.Record.Same.{
  Same, SameItems, SameField, null_same, boolean_same, int_same, float_same, str_same, array_same,
  object_same, nil_same, cons_same, absent, present,
}

abbrev pub HasSame : Fields → Fields → Type 0
HasSame f g = (key : String) → SameField (lookup key f) (lookup key g)

pub read_text_alike : (v w : Json) → Same v w → read_text w ≡ read_text v
unfolding read_text
read_text_alike _ _ null_same = refl
read_text_alike _ _ (boolean_same b) = refl
read_text_alike _ _ (int_same n) = refl
read_text_alike _ _ (float_same s) = refl
read_text_alike _ _ (str_same s) = refl
read_text_alike _ _ (array_same p) = refl
read_text_alike _ _ (object_same p) = refl

pub read_bool_alike : (v w : Json) → Same v w → read_bool w ≡ read_bool v
unfolding read_bool
read_bool_alike _ _ null_same = refl
read_bool_alike _ _ (boolean_same b) = refl
read_bool_alike _ _ (int_same n) = refl
read_bool_alike _ _ (float_same s) = refl
read_bool_alike _ _ (str_same s) = refl
read_bool_alike _ _ (array_same p) = refl
read_bool_alike _ _ (object_same p) = refl

pub read_int_alike : (v w : Json) → Same v w → read_int w ≡ read_int v
unfolding read_int
read_int_alike _ _ null_same = refl
read_int_alike _ _ (boolean_same b) = refl
read_int_alike _ _ (int_same n) = refl
read_int_alike _ _ (float_same s) = refl
read_int_alike _ _ (str_same s) = refl
read_int_alike _ _ (array_same p) = refl
read_int_alike _ _ (object_same p) = refl

pub read_time_field_alike : (v w : Json) → Same v w → read_time_field w ≡ read_time_field v
unfolding read_time_field
read_time_field_alike _ _ null_same = refl
read_time_field_alike _ _ (boolean_same b) = refl
read_time_field_alike _ _ (int_same n) = refl
read_time_field_alike _ _ (float_same s) = refl
read_time_field_alike _ _ (str_same s) = refl
read_time_field_alike _ _ (array_same p) = refl
read_time_field_alike _ _ (object_same p) = refl

pub read_count_alike : (v w : Json) → Same v w → read_count w ≡ read_count v
unfolding read_count
read_count_alike v w p = rw (read_int_alike v w p) refl

module _ {A : Type 0} (read : Json → Option A)
    (alike : (v w : Json) → Same v w → read w ≡ read v) where
  items_alike : (xs ys : Items) → SameItems xs ys → read_items read ys ≡ read_items read xs
  unfolding read_items
  items_alike _ _ nil_same = refl
  items_alike _ _ (cons_same {x} {y} {xs} {ys} p q) = rw (alike x y p, items_alike xs ys q) refl

  pub list_alike : (v w : Json) → Same v w → read_list read w ≡ read_list read v
  unfolding read_list
  list_alike _ _ (array_same {xs} {ys} p) = items_alike xs ys p
  list_alike _ _ null_same = refl
  list_alike _ _ (boolean_same b) = refl
  list_alike _ _ (int_same n) = refl
  list_alike _ _ (float_same s) = refl
  list_alike _ _ (str_same s) = refl
  list_alike _ _ (object_same p) = refl

  pub some_alike : (v w : Json) → Same v w → read_some read w ≡ read_some read v
  unfolding read_some
  some_alike v w p = rw (alike v w p) refl

  given_alike :
      (default : A) (o p : Option Json)
      → SameField o p
      → read_given read default p ≡ read_given read default o
  given_alike default _ _ absent = refl
  given_alike default _ _ (present {x} {y} p) = alike x y p

  pub field_alike :
      (f g : Fields)
      → HasSame f g
      → (key : String) (default : A) → read_field g key read default ≡ read_field f key read default
  field_alike f g same key default = given_alike default (lookup key f) (lookup key g) (same key)
