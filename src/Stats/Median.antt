-- ===== src/Stats/Median.antt =====
-- crates/core/src/stats.rs: the median lies in the middle of the waits.
use cases.Prelude.{
  ℕ, zero, suc, ◌+◌, ◌-◌, ◌*◌, ◌/◌, ◌%◌, ◌≤◌, ◌<◌, ◌≡◌, refl, none, some, List, [], ◌∷◌, leb,
  nat_eq, length, get_elem?, if◌then◌else◌, arith, Bool-cases, inl, inr,
}
use cases.Stats.{put_in_order, sort, middle, median, second, u64_max}

-- How many of the numbers are at most, or at least, a number.
abbrev pub count_le : ℕ → List ℕ → ℕ
count_le m [] = 0
count_le m (x ∷ xs) = (if leb x m then 1 else 0) + count_le m xs

abbrev pub count_ge : ℕ → List ℕ → ℕ
count_ge m [] = 0
count_ge m (x ∷ xs) = (if leb m x then 1 else 0) + count_ge m xs

count_le-put_in_order :
    (m x : ℕ) (xs : List ℕ)
    → count_le m (put_in_order x xs) ≡ (if leb x m then 1 else 0) + count_le m xs
unfolding put_in_order
count_le-put_in_order m x [] = refl
count_le-put_in_order m x (y ∷ ys) = ground (arith, count_le-put_in_order m x ys)

count_le-sort : (m : ℕ) (xs : List ℕ) → count_le m (sort xs) ≡ count_le m xs
unfolding sort
count_le-sort m [] = refl
count_le-sort m (x ∷ xs) = omega (arith, count_le-put_in_order m x (sort xs), count_le-sort m xs)

count_ge-put_in_order :
    (m x : ℕ) (xs : List ℕ)
    → count_ge m (put_in_order x xs) ≡ (if leb m x then 1 else 0) + count_ge m xs
unfolding put_in_order
count_ge-put_in_order m x [] = refl
count_ge-put_in_order m x (y ∷ ys) = ground (arith, count_ge-put_in_order m x ys)

count_ge-sort : (m : ℕ) (xs : List ℕ) → count_ge m (sort xs) ≡ count_ge m xs
unfolding sort
count_ge-sort m [] = refl
count_ge-sort m (x ∷ xs) = omega (arith, count_ge-put_in_order m x (sort xs), count_ge-sort m xs)

length-put_in_order : (x : ℕ) (xs : List ℕ) → length (put_in_order x xs) ≡ length xs + 1
unfolding put_in_order
length-put_in_order x [] = refl
length-put_in_order x (y ∷ ys) = ground (arith, length-put_in_order x ys)

length-sort : (xs : List ℕ) → length (sort xs) ≡ length xs
unfolding sort
length-sort [] = refl
length-sort (x ∷ xs) = omega (arith, length-put_in_order x (sort xs), length-sort xs)

-- In ascending order.
abbrev IsSorted : List ℕ → Type 0
IsSorted [] = Unit
IsSorted (x ∷ []) = Unit
IsSorted (x ∷ y ∷ ys) = (x ≤ y) × IsSorted (y ∷ ys)

put_in_order-IsSorted : (x : ℕ) (xs : List ℕ) → IsSorted xs → IsSorted (put_in_order x xs)
unfolding put_in_order
put_in_order-IsSorted x [] s = tt
put_in_order-IsSorted x (y ∷ []) s = ground arith
put_in_order-IsSorted x (y ∷ z ∷ zs) s = ground (arith, put_in_order-IsSorted x (z ∷ zs) s.1)

sort-IsSorted : (xs : List ℕ) → IsSorted (sort xs)
unfolding sort
sort-IsSorted [] = tt
sort-IsSorted (x ∷ xs) = put_in_order-IsSorted x (sort xs) (sort-IsSorted xs)

sorted_first :
    (x : ℕ) (xs : List ℕ) (i : ℕ) {a : ℕ}
    → IsSorted (x ∷ xs)
    → get_elem? (x ∷ xs) i ≡ some a
    → x ≤ a
sorted_first x xs zero s h = ground arith
sorted_first x [] (suc i) s h = absurd (cc h)
sorted_first x (y ∷ ys) (suc i) {a = a} s h = ground (arith, sorted_first y ys i {a = a} s.1 h)

-- At the place i of a sorted list, i + 1 numbers are at most the one there, and all but i at least.
count_le-at :
    (m : ℕ) (xs : List ℕ) (i : ℕ) {a : ℕ}
    → IsSorted xs
    → get_elem? xs i ≡ some a
    → a ≤ m
    → i + 1 ≤ count_le m xs
count_le-at m [] i s h le = absurd (cc h)
count_le-at m (x ∷ xs) zero s h le = ground arith
count_le-at m (x ∷ []) (suc i) s h le = absurd (cc h)
count_le-at m (x ∷ y ∷ ys) (suc i) {a = a} s h le =
    ground (arith, count_le-at m (y ∷ ys) i {a = a} s.1 h le, sorted_first y ys i {a = a} s.1)

count_ge-all :
    (m : ℕ) (x : ℕ) (xs : List ℕ)
    → IsSorted (x ∷ xs)
    → m ≤ x
    → count_ge m (x ∷ xs) ≡ length (x ∷ xs)
count_ge-all m x [] s le = ground arith
count_ge-all m x (y ∷ ys) s le = ground (arith, count_ge-all m y ys s.1)

count_ge-at :
    (m : ℕ) (xs : List ℕ) (i : ℕ) {a : ℕ}
    → IsSorted xs
    → get_elem? xs i ≡ some a
    → m ≤ a
    → length xs ≤ count_ge m xs + i
count_ge-at m [] i s h le = absurd (cc h)
count_ge-at m (x ∷ xs) zero {a = a} s h le = ground (arith, count_ge-all m x xs s)
count_ge-at m (x ∷ []) (suc i) s h le = absurd (cc h)
count_ge-at m (x ∷ y ∷ ys) (suc i) {a = a} s h le =
    ground (arith, count_ge-at m (y ∷ ys) i {a = a} s.1 h le)

-- A place of the list holds something.
get_given : (xs : List ℕ) (i : ℕ) → i < length xs → (a : ℕ) × (get_elem? xs i ≡ some a)
get_given [] i h = absurd (omega arith)
get_given (x ∷ xs) zero h = (x, refl)
get_given (x ∷ xs) (suc i) h = get_given xs i (omega arith)

sorted_next :
    (xs : List ℕ) (i : ℕ) {a b : ℕ}
    → IsSorted xs
    → get_elem? xs i ≡ some a
    → get_elem? xs (suc i) ≡ some b
    → a ≤ b
sorted_next [] i s p q = absurd (cc p)
sorted_next (x ∷ xs) zero {b = b} s p q = ground (arith, sorted_first x xs 1 {a = b} s)
sorted_next (x ∷ []) (suc i) s p q = absurd (cc p)
sorted_next (x ∷ y ∷ ys) (suc i) {a = a} {b = b} s p q =
    sorted_next (y ∷ ys) i {a = a} {b = b} s.1 p q

-- The middle of a sorted list has half of the list on each side of it, itself counted.
middle_halves :
    (xs : List ℕ)
    → IsSorted xs
    → 0 < length xs
    → (m : ℕ) × (middle xs ≡ some m)
      × (length xs ≤ 2 * count_le m xs)
      × (length xs ≤ 2 * count_ge m xs)
unfolding middle
middle_halves xs s some_wait = elim (Bool-cases (nat_eq (length xs % 2) 1)) [
  | inl odd ↦
      let (m, at) = get_given xs (length xs / 2) (omega arith) in
      (
        m,
        ground arith,
        ground (arith, count_le-at m xs (length xs / 2) {a = m} s at),
        ground (arith, count_ge-at m xs (length xs / 2) {a = m} s at),
      )
  | inr even ↦
      let (a, low) = get_given xs (length xs / 2 - 1) (omega arith) in
      let (b, high) = get_given xs (length xs / 2) (omega arith) in
      let two : 2 ≤ length xs = ground arith in
      let next : suc (length xs / 2 - 1) ≡ length xs / 2 = omega arith in
      let order : a ≤ b = sorted_next xs (length xs / 2 - 1) {a = a} {b = b} s low (rw next high) in
      let m = (a + b) / 2 in
      (
        m,
        ground arith,
        ground (arith, count_le-at m xs (length xs / 2 - 1) {a = a} s low (omega arith)),
        ground (arith, count_ge-at m xs (length xs / 2) {a = b} s high (omega arith)),
      )
]

-- Of waits that there are, the median is the whole seconds of a time that at least half of them are
-- no longer than and at least half no shorter than; it is none only where those seconds pass u64.
pub median_lem :
    (waits : List ℕ)
    → 0 < length waits
    → (m : ℕ) × (length waits ≤ 2 * count_le m waits)
      × (length waits ≤ 2 * count_ge m waits)
      × (median waits ≡ (if leb (m / second) u64_max then some (m / second) else none))
unfolding median
median_lem waits h =
    let p = middle_halves (sort waits) (sort-IsSorted waits) (omega (arith, length-sort waits)) in
    (
      p.0,
      omega (arith, p.2, length-sort waits, count_le-sort p.0 waits),
      omega (arith, p.3, length-sort waits, count_ge-sort p.0 waits),
      rw p.1 refl,
    )
