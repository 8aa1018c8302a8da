-- ===== src/Time/Text/Fractions.antt =====
-- crates/core/src/time.rs: the fraction of a second, as it is written and read.
use cases.Prelude.{
  ℕ, zero, suc, ◌+◌, ◌-◌, ◌*◌, ◌/◌, ◌%◌, ◌^◌, ◌<◌, Bool, true, false, ◌≡◌, refl, ap, ◌∙◌, some, [],
  ◌∷◌, nat_eq, codes, arith, if◌then◌else◌, inl, inr, Bool-cases,
}
use native.Mathlib.Nat.{mul_left_comm, pow-succ'}
use cases.Time.Text.{read_fraction, split_digits, read_nanos, padded, strip_zeros, write_fraction}
use cases.Time.Text.Digits.{
  padded_codes, codes-padded, split_digits-padded, read_nanos-padded, read_nanos-nil,
  padded_codes_some,
}

-- A fraction of `width` digits with zeros at its end taken off: the digits left, and their number.
record IsStripped (fraction width : ℕ) (left : ℕ × ℕ) : Type 0 where
  taken : ℕ
  shorter : left.1 + taken ≡ width
  same : left.0 * 10 ^ taken ≡ fraction
  short : left.0 < 10 ^ left.1
  some_left : 0 < left.1

times_ten : (k d q f : ℕ) → d * 10 ^ k ≡ q → q * 10 ≡ f → d * 10 ^ suc k ≡ f
times_ten k d q f e g = ap (λ p. d * p) (pow-succ' 10 k) ∙ mul_left_comm d 10 (10 ^ k) ∙ omega arith

one_more :
    (fraction width : ℕ) (left : ℕ × ℕ)
    → IsStripped (fraction / 10) (width - 1) left
    → fraction % 10 ≡ 0
    → 0 < width
    → IsStripped fraction width left
one_more fraction width left p e h = record {
  taken = suc p.taken;
  shorter = omega (arith, p.shorter);
  same = times_ten p.taken left.0 (fraction / 10) fraction p.same (omega arith);
  short = p.short;
  some_left = p.some_left;
}

whole :
    (fraction width : ℕ)
    → fraction < 10 ^ width
    → 0 < width
    → IsStripped fraction width (fraction, width)
whole fraction width h p = record {
  taken = 0;
  shorter = omega arith;
  same = omega arith;
  short = h;
  some_left = p;
}

either :
    (test : Bool) (fraction width : ℕ) (a b : ℕ × ℕ)
    → (test ≡ true → IsStripped fraction width a)
    → (test ≡ false → IsStripped fraction width b)
    → IsStripped fraction width (if test then a else b)
either true fraction width a b p q = p refl
either false fraction width a b p q = q refl

strip_zeros-IsStripped :
    (fuel width fraction : ℕ)
    → fuel ≡ width
    → 0 < fraction
    → fraction < 10 ^ width
    → IsStripped fraction width (strip_zeros fuel fraction width)
unfolding strip_zeros
strip_zeros-IsStripped zero width fraction e low high =
    let none : width ≡ 0 = omega arith in absurd (omega (arith, ap (λ w. 10 ^ w) none))
strip_zeros-IsStripped (suc fuel) width fraction e low high =
    let big : fraction < 10 ^ suc fuel = rw e high in
    let less : width - 1 ≡ fuel = omega arith in
    let small : fraction / 10 < 10 ^ (width - 1) = rw less (omega arith) in
    either (nat_eq (fraction % 10) 0) fraction width (strip_zeros fuel (fraction / 10) (width - 1))
      (fraction, width)
      (λ last.
        one_more fraction width _
          (strip_zeros-IsStripped fuel (width - 1) (fraction / 10) (omega arith) (ground arith)
            small)
          (ground arith) (omega arith))
      (λ last. whole fraction width high (omega arith))

-- The digits of a fraction, with a point before them and `Z` after them.
read_digits :
    (fraction : ℕ) (left : ℕ × ℕ)
    → IsStripped fraction 9 left
    → read_fraction (b'.' ∷ padded_codes left.1 left.0 (b'Z' ∷ [])) ≡ some (fraction, b'Z' ∷ [])
unfolding read_fraction split_digits
read_digits fraction left p =
    let split = split_digits-padded left.1 left.0 (b'Z' ∷ []) in
    let value : read_nanos 9 0 (padded_codes left.1 left.0 []) ≡ fraction =
      read_nanos-padded left.1 p.taken 9 left.0 [] p.short (omega (arith, p.shorter))
      ∙ read_nanos-nil p.taken left.0
      ∙ p.same in
    rw (split, padded_codes_some left.1 left.0 [] p.some_left, value) refl

codes-write_fraction :
    (nanos : ℕ) (left : ℕ × ℕ)
    → nat_eq nanos 0 ≡ false
    → strip_zeros 9 nanos 9 ≡ left
    → codes (write_fraction nanos) ≡ b'.' ∷ codes (padded left.1 left.0 "Z")
unfolding write_fraction
codes-write_fraction nanos left e h = rw (e, h) refl

write_none : (nanos : ℕ) → nat_eq nanos 0 ≡ true → codes (write_fraction nanos) ≡ b'Z' ∷ []
unfolding write_fraction
write_none nanos e = rw e refl

read_none : read_fraction (b'Z' ∷ []) ≡ some (0, b'Z' ∷ [])
unfolding read_fraction
read_none = refl

-- The writing of the nanoseconds of a time reads as them, with the `Z` after them.
pub read_fraction-write_fraction :
    (nanos : ℕ)
    → nanos < 1000000000
    → read_fraction (codes (write_fraction nanos)) ≡ some (nanos, b'Z' ∷ [])
read_fraction-write_fraction nanos h = elim (Bool-cases (nat_eq nanos 0)) [
  | inl e ↦
      ap read_fraction (write_none nanos e)
      ∙ read_none
      ∙ ap (λ n. some (n, b'Z' ∷ [])) (ground arith)
  | inr e ↦
      (let left = strip_zeros 9 nanos 9 in
        let p = strip_zeros-IsStripped 9 9 nanos refl (ground arith) h in
        ap read_fraction (codes-write_fraction nanos left e refl)
        ∙ ap (λ cs. read_fraction (b'.' ∷ cs)) (codes-padded left.1 left.0 "Z")
        ∙ read_digits nanos left p)
]
