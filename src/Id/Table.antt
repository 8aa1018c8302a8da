-- ===== src/Id/Table.antt =====
-- crates/id/src/lib.rs: the characters that an id is written in, for each of the offsets.
use cases.Prelude.{
  every, every_lem, ℕ, ◌<◌, Bool, true, false, ◌&&◌, ◌≡◌, refl, Option, none, some, List, length,
  nat_eq, arith,
}
use mathlib.Core.List.{reverse}
use cases.Id.{alphabet, rotate_left, position, at, size}
use cases.Id.Digits.{is_nodup}

abbrev is_some_of : ℕ → Option ℕ → Bool
is_some_of n none = false
is_some_of n (some m) = nat_eq m n

-- The alphabet of the offset, reversed.
unfoldable pub chars_of : ℕ → List ℕ
unfolding rotate_left
chars_of offset = reverse (rotate_left alphabet offset)

-- The characters are the separator and 61 digits, each given once, and the first of the rotated
-- alphabet stands at the offset.
fits_offset : ℕ → Bool
unfolding chars_of alphabet rotate_left position
fits_offset offset =
    is_nodup (chars_of offset)
    && nat_eq (length (chars_of offset)) size
    && is_some_of offset (position (at (rotate_left alphabet offset) 0) alphabet)

offsets : every fits_offset 62 0 ≡ true
unfolding every fits_offset
offsets = refl

all_three : (a b c : Bool) → (a && b && c) ≡ true → (a ≡ true) × (b ≡ true) × (c ≡ true)
all_three a b c h = (ground arith, ground arith, ground arith)

nat_eq→eq : (m n : ℕ) → nat_eq m n ≡ true → m ≡ n
nat_eq→eq m n h = ground arith

found : (n : ℕ) (o : Option ℕ) → is_some_of n o ≡ true → o ≡ some n
found n none e = absurd (cc e)
found n (some m) e = ground arith

pub chars_of_fits :
    (offset : ℕ)
    → offset < 62
    → (is_nodup (chars_of offset) ≡ true)
      × (length (chars_of offset) ≡ 62)
      × (position (at (rotate_left alphabet offset) 0) alphabet ≡ some offset)
unfolding fits_offset
chars_of_fits offset h =
    let p = all_three _ _ _ (every_lem fits_offset 62 0 offset offsets (omega arith) h) in
    (p.0, nat_eq→eq _ _ p.1, found offset _ p.2)
