-- ===== src/Record/Spelling.antt =====
-- crates/core/src/record.rs: JSON text without a sign before a zero, which `unsigned_zeros` leaves
-- as it is, and what the code relies on of the text that `serde_json` writes.
use Prim.Native.Char.{Char}
use cases.Prelude.{String, code, true, false, ◌≡◌, refl, ap, some, nat_eq}
use cases.Record.Json.{Json, Serde}
use cases.Record.Signs.{zero_follows, unsigned_from, unsigned_zeros}
use cases.Record.Same.{IsUnique, Same}

-- No `0` is the first of the text.
abbrev pub HasNoZero : String → Type 0
HasNoZero String.[] = Unit
HasNoZero (String.◌∷◌ c s) = nat_eq (code c) b'0' ≡ false

-- Text of JSON: outside its strings, no sign stands before a zero. A string runs from a quote to
-- the next one that no backslash escapes, with any characters in it.
mutual
  pub data IsSpelt : String → Type 0 where
    ended : IsSpelt String.[]
    quote : {s : String} → IsQuoted s → IsSpelt (String.◌∷◌ "\"" s)
    minus : {s : String} → HasNoZero s → IsSpelt s → IsSpelt (String.◌∷◌ "-" s)
    mark :
        {c : Char} {s : String}
        → nat_eq (code c) b'"' ≡ false
        → nat_eq (code c) b'-' ≡ false
        → IsSpelt s
        → IsSpelt (String.◌∷◌ c s)

  pub data IsQuoted : String → Type 0 where
    close : {s : String} → IsSpelt s → IsQuoted (String.◌∷◌ "\"" s)
    escape : {c : Char} {s : String} → IsQuoted s → IsQuoted (String.◌∷◌ "\\" (String.◌∷◌ c s))
    char :
        {c : Char} {s : String}
        → nat_eq (code c) b'"' ≡ false
        → nat_eq (code c) b'\\' ≡ false
        → IsQuoted s
        → IsQuoted (String.◌∷◌ c s)

zero_follows-HasNoZero : (s : String) → HasNoZero s → zero_follows s ≡ false
unfolding zero_follows
zero_follows-HasNoZero String.[] h = refl
zero_follows-HasNoZero (String.◌∷◌ c s) h = rw h refl

mutual
  unfolding unsigned_from

  unsigned_from-IsSpelt : (s : String) → IsSpelt s → unsigned_from false false s ≡ s
  unsigned_from-IsSpelt _ ended = refl
  unsigned_from-IsSpelt _ (quote {s} h) = ap (String.◌∷◌ "\"") (unsigned_from-IsQuoted s h)
  unsigned_from-IsSpelt _ (minus {s} p h) =
      rw (zero_follows-HasNoZero s p) (ap (String.◌∷◌ "-") (unsigned_from-IsSpelt s h))
  unsigned_from-IsSpelt _ (mark {c} {s} p q h) =
      rw (p, q) (ap (String.◌∷◌ c) (unsigned_from-IsSpelt s h))

  unsigned_from-IsQuoted : (s : String) → IsQuoted s → unsigned_from true false s ≡ s
  unsigned_from-IsQuoted _ (close {s} h) = ap (String.◌∷◌ "\"") (unsigned_from-IsSpelt s h)
  unsigned_from-IsQuoted _ (escape {c} {s} h) =
      ap (λ s. String.◌∷◌ "\\" (String.◌∷◌ c s)) (unsigned_from-IsQuoted s h)
  unsigned_from-IsQuoted _ (char {c} {s} p q h) =
      rw (p, q) (ap (String.◌∷◌ c) (unsigned_from-IsQuoted s h))

pub unsigned_zeros-IsSpelt : (s : String) → IsSpelt s → unsigned_zeros s ≡ s
unfolding unsigned_zeros
unsigned_zeros-IsSpelt = unsigned_from-IsSpelt

-- What the code relies on of the text that `serde_json` writes of a value in which no object gives
-- a key twice: it is JSON without a sign before a zero, and `serde_json` reads it as the value, each
-- key once, but for the order of the fields of an object.
abbrev pub Spells : Serde → Json → Type 0
Spells serde v =
    IsUnique v
    → IsSpelt (serde.to_string v)
      × ((w : Json) × (serde.from_str (serde.to_string v) ≡ some w) × Same v w × IsUnique w)
