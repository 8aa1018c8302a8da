-- ===== src/Record/Fields.antt =====
-- crates/core/src/record.rs: the trait `Field` of single values, and `read_field!`. A reader gives
-- `none` where the code says what is wrong, which `Record::read` makes malformed.
use cases.Prelude.{◌-◌, ◌^◌, String, Bool, ◌&&◌, Option, none, some, List, [], ◌∷◌, if◌then◌else◌}
use cases.Prelude.Int.{ℤ, pos, negsuc, leb_ℤ, ltb_ℤ}
use cases.Error.{Result, ok, err}
use cases.Time.{Time}
use cases.Time.Text.{time_from_str}
use cases.Record.Json.{Json, Items, Fields, boolean, int, str, array, nil, cons, ◌>>=◌, lookup}

abbrev pub i64_min : ℤ
i64_min = negsuc (2 ^ 63 - 1)

abbrev pub i64_max : ℤ
i64_max = pos (2 ^ 63 - 1)

abbrev pub fits_i64 : ℤ → Bool
fits_i64 n = leb_ℤ i64_min n && leb_ℤ n i64_max

unfoldable pub read_text : Json → Option String
read_text (str s) = some s
read_text _ = none

unfoldable pub read_bool : Json → Option Bool
read_bool (boolean b) = some b
read_bool _ = none

-- `Value::as_i64`.
unfoldable pub read_int : Json → Option ℤ
read_int (int n) = if fits_i64 n then some n else none
read_int _ = none

unfoldable pub read_count : Json → Option ℤ
unfolding read_int
read_count value = do n ← read_int value; if ltb_ℤ n (pos 0) then none else some n

abbrev pub from_ok {ℓ} : {A : Type ℓ} → Result A → Option A
from_ok (ok a) = some a
from_ok (err e) = none

unfoldable pub read_time_field : Json → Option Time
read_time_field (str s) = from_ok (time_from_str s)
read_time_field _ = none

module _ {A : Type 0} (read : Json → Option A) where
  unfoldable pub read_items : Items → Option (List A)
  read_items nil = some []
  read_items (cons x rest) = do a ← read x; list ← read_items rest; some (a ∷ list)

  unfoldable pub read_list : Json → Option (List A)
  unfolding read_items
  read_list (array items) = read_items items
  read_list _ = none

  unfoldable pub read_some : Json → Option (Option A)
  read_some value = do a ← read value; some (some a)

  -- A field of a record: its default where the object does not give it.
  abbrev pub read_given : A → Option Json → Option A
  read_given default none = some default
  read_given default (some value) = read value

-- `if let Some(value) = object.remove(key) { record.field = read(value)? }`
abbrev pub read_field : {A : Type 0} → Fields → String → (Json → Option A) → A → Option A
read_field fields key read default = read_given read default (lookup key fields)
