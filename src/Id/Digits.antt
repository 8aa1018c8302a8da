-- ===== src/Id/Digits.antt =====
-- crates/id/src/lib.rs: the digits of a number, and the number that they read back as.
use cases.Prelude.{
  ℕ, zero, suc, ◌+◌, ◌*◌, ◌/◌, ◌%◌, ◌<◌, Bool, true, false, ◌≡◌, ◌∙◌, ap, some, List, [], ◌∷◌,
  length, nat_eq, if◌then◌else◌, ◌&&◌, ◌||◌, arith, Bool-cases, inl, inr,
}
use cases.Id.{u64_mod, at, number_from, position, add_digit, value_from}

abbrev pub contains_code : List ℕ → ℕ → Bool
contains_code [] c = false
contains_code (x ∷ xs) c = nat_eq x c || contains_code xs c

-- No character is given twice.
abbrev pub is_nodup : List ℕ → Bool
is_nodup [] = true
is_nodup (x ∷ xs) = (if contains_code xs x then false else true) && is_nodup xs

pub contains-at : (cs : List ℕ) (i : ℕ) → i < length cs → contains_code cs (at cs i) ≡ true
contains-at [] i h = absurd (omega arith)
contains-at (x ∷ xs) zero h = ground arith
contains-at (x ∷ xs) (suc i) h = ground (arith, contains-at xs i)

-- Where no character is given twice, the one at a place is found there.
pub position-at :
    (cs : List ℕ) (i : ℕ) → is_nodup cs ≡ true → i < length cs → position (at cs i) cs ≡ some i
unfolding position
position-at [] i n h = absurd (omega arith)
position-at (x ∷ xs) zero n h = ground arith
position-at (x ∷ xs) (suc i) n h = ground (arith, position-at xs i, contains-at xs i)

-- 61 to the power of one more than the exponent.
abbrev pub power : ℕ → ℕ
power zero = 61
power (suc k) = 61 * power k

module _ (digits : List ℕ) (nodup : is_nodup digits ≡ true) (base : length digits ≡ 61) where
  add_digit-at :
      (key d : ℕ)
      → d < 61
      → key * 61 + d < u64_mod
      → add_digit digits key (at digits d) ≡ some (key * 61 + d)
  unfolding add_digit
  add_digit-at key d h small = ground (arith, position-at digits d)

  pub value_from-at :
      (key d : ℕ) (rest : List ℕ)
      → d < 61
      → key * 61 + d < u64_mod
      → value_from digits key (at digits d ∷ rest) ≡ value_from digits (key * 61 + d) rest
  unfolding value_from
  value_from-at key d rest h small = ground (arith, add_digit-at key d)

  -- The written number reads back: each round writes the last digit of what is left.
  pub value-number :
      (start n : ℕ) (written : List ℕ) {w : List ℕ}
      → n < u64_mod
      → number_from start n digits written ≡ some w
      → value_from digits 0 w ≡ value_from digits n written
  unfolding number_from
  value-number zero n written small h = absurd (cc h)
  value-number (suc start) n written {w = w} small h =
      let back : value_from digits (n / 61) (at digits (n % 61) ∷ written)
          ≡ value_from digits n written =
        value_from-at (n / 61) (n % 61) written (omega arith) (omega arith)
        ∙ ap (λ m. value_from digits m written) (omega arith) in
      elim (Bool-cases (nat_eq (n / 61) 0)) [
        | inl e ↦ ground (arith, back)
        | inr e ↦
            ground (arith, back, value-number start (n / 61) (at digits (n % 61) ∷ written) {w = w})
      ]

  -- A number below a power of the base has room in as many places.
  pub number_fits :
      (start n : ℕ) (written : List ℕ)
      → n < power start
      → (w : List ℕ) × (number_from (suc start) n digits written ≡ some w)
  unfolding number_from
  number_fits zero n written h = (at digits (n % 61) ∷ written, ground arith)
  number_fits (suc start) n written h = elim (Bool-cases (nat_eq (n / 61) 0)) [
    | inl e ↦ (at digits (n % 61) ∷ written, ground arith)
    | inr e ↦
        let p = number_fits start (n / 61) (at digits (n % 61) ∷ written) (omega arith) in
        (p.0, ground (arith, p.1))
  ]
