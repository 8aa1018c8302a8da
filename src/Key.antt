-- ===== src/Key.antt =====
-- crates/core/src/key.rs: the number that a store gives a case, and the id that spells it.
pub mod Slug
use cases.Prelude.{ℕ, ◌-◌, ◌^◌, ◌&&◌, Option, none, some, List, leb, if◌then◌else◌}
use cases.Id.{encode, decode, split}

-- A key is its number.
abbrev pub max_key : ℕ
max_key = 2 ^ 63 - 1

unfoldable pub new_key : ℕ → Option ℕ
new_key n = if leb 1 n && leb n max_key then some n else none

-- How a key displays, or `none` where that would panic.
unfoldable pub key_to_text : ℕ → Option (List ℕ)
key_to_text key = encode key

abbrev pub or_unknown : Option ℕ → Option ℕ
or_unknown none = none
or_unknown (some n) = new_key n

-- `Key::from_str`; `none` is `UnknownId`.
unfoldable pub key_from_str : List ℕ → Option ℕ
key_from_str text = or_unknown (decode (split text).0)
