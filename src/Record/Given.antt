-- ===== src/Record/Given.antt =====
-- crates/core/src/record.rs: the fields of an object as they read, each from the value that its
-- record gives it.
use cases.Prelude.{String, Bool, true, false, ◌≡◌, ap, ◌∙◌, Option, none, some, List, []}
use cases.Prelude.Int.{ℤ, pos, ltb_ℤ}
use cases.Record.Json.{Json}
use cases.Record.Fields.{
  fits_i64, read_text, read_bool, read_int, read_count, read_list, read_some, read_given,
  read_field,
}
use cases.Record.Writing.{Slot, compact, put_text, put_flag, put_int, put_list, put_some}
use cases.Record.Slots.{distinct, find, read_field-compact}
use cases.Record.Values.{read-put_text, read-put_flag, read-put_int, read-put_count}

module _ (slots : List Slot) (once : distinct slots ≡ true) where
  pub given :
      {A : Type 0} (key : String) (read : Json → Option A) (default : A) {a : A}
      (written : Option Json)
      → read_given read default written ≡ some a
      → find key slots ≡ written
      → read_field (compact slots) key read default ≡ some a
  given key read default written back e =
      read_field-compact slots key read default once (ap (read_given read default) e ∙ back)

  pub text_given :
      (key s : String)
      → find key slots ≡ put_text s
      → read_field (compact slots) key read_text "" ≡ some s
  text_given key s = given key read_text "" (put_text s) (read-put_text s)

  pub flag_given :
      (key : String) (b : Bool)
      → find key slots ≡ put_flag b
      → read_field (compact slots) key read_bool false ≡ some b
  flag_given key b = given key read_bool false (put_flag b) (read-put_flag b)

  pub int_given :
      (key : String) (n : ℤ)
      → fits_i64 n ≡ true
      → find key slots ≡ put_int n
      → read_field (compact slots) key read_int (pos 0) ≡ some n
  int_given key n fits = given key read_int (pos 0) (put_int n) (read-put_int n fits)

  pub count_given :
      (key : String) (n : ℤ)
      → fits_i64 n ≡ true
      → ltb_ℤ n (pos 0) ≡ false
      → find key slots ≡ put_int n
      → read_field (compact slots) key read_count (pos 0) ≡ some n
  count_given key n fits low = given key read_count (pos 0) (put_int n) (read-put_count n fits low)

  pub list_given :
      {A : Type 0} (key : String) (read : Json → Option A) (write : A → Json) (xs : List A)
      → read_given (read_list read) [] (put_list write xs) ≡ some xs
      → find key slots ≡ put_list write xs
      → read_field (compact slots) key (read_list read) [] ≡ some xs
  list_given key read write xs = given key (read_list read) [] (put_list write xs)

  pub some_given :
      {A : Type 0} (key : String) (read : Json → Option A) (write : A → Json) (o : Option A)
      → read_given (read_some read) none (put_some write o) ≡ some o
      → find key slots ≡ put_some write o
      → read_field (compact slots) key (read_some read) none ≡ some o
  some_given key read write o = given key (read_some read) none (put_some write o)
