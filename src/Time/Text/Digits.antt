-- ===== src/Time/Text/Digits.antt =====
-- crates/core/src/time.rs: the digits of a number, as they are written and read.
use cases.Prelude.{
  ℕ, zero, suc, ◌+◌, ◌*◌, ◌/◌, ◌%◌, ◌^◌, ◌<◌, String, Bool, true, false, ◌≡◌, refl, ap, sym, ◌∙◌,
  some, List, [], ◌∷◌, nat_eq, code, codes, every, every_lem, is_empty, arith,
}
use native.Mathlib.Nat.{mul_assoc, pow-succ'}
use cases.Time.Text.{is_digit, number_from, number, split_digits, read_nanos, digit_char, padded}

-- The character of the last digit of a number.
abbrev pub digit_of : ℕ → ℕ
digit_of n = b'0' + n % 10

-- `padded`, on the characters.
unfoldable pub padded_codes : ℕ → ℕ → List ℕ → List ℕ
padded_codes zero n cs = cs
padded_codes (suc width) n cs = padded_codes width (n / 10) (digit_of n ∷ cs)

is_code : ℕ → Bool
unfolding digit_char
is_code d = nat_eq (code (digit_char d)) (b'0' + d)

is_code-all : every is_code 10 0 ≡ true
unfolding every is_code
is_code-all = refl

code-digit_char : (d : ℕ) → d < 10 → code (digit_char d) ≡ b'0' + d
unfolding is_code
code-digit_char d h =
    (let test = every_lem is_code 10 0 d is_code-all (omega arith) (omega arith) in ground arith)

pub codes-padded :
    (width n : ℕ) (s : String) → codes (padded width n s) ≡ padded_codes width n (codes s)
unfolding padded padded_codes
codes-padded zero n s = refl
codes-padded (suc width) n s =
    codes-padded width (n / 10) (String.◌∷◌ (digit_char (n % 10)) s)
    ∙ ap (λ c. padded_codes width (n / 10) (c ∷ codes s)) (code-digit_char (n % 10) (omega arith))

pub is_digit-digit_of : (n : ℕ) → is_digit (digit_of n) ≡ true
is_digit-digit_of n = ground arith

-- A number of two digits, and one of four, reads from its digits.
pub number_two : (n : ℕ) → n < 100 → number (digit_of (n / 10) ∷ digit_of n ∷ []) ≡ some n
unfolding number number_from
number_two n h = ground arith

pub number_four :
    (n : ℕ)
    → n < 10000
    → number
        (digit_of (n / 10 / 10 / 10) ∷ digit_of (n / 10 / 10) ∷ digit_of (n / 10) ∷ digit_of n ∷ [])
      ≡ some n
unfolding number number_from
number_four n h = ground arith

pub split_digits-padded :
    (width n : ℕ) (cs : List ℕ)
    → split_digits (padded_codes width n cs)
      ≡ (padded_codes width n (split_digits cs).0, (split_digits cs).1)
unfolding padded_codes split_digits
split_digits-padded zero n cs = refl
split_digits-padded (suc width) n cs =
    split_digits-padded width (n / 10) (digit_of n ∷ cs) ∙ rw (is_digit-digit_of n) refl

pub read_nanos-padded :
    (width k m n : ℕ) (cs : List ℕ)
    → n < 10 ^ width
    → m ≡ k + width
    → read_nanos m 0 (padded_codes width n cs) ≡ read_nanos k n cs
unfolding padded_codes read_nanos
read_nanos-padded zero k m n cs h e =
    let start : 0 ≡ n = omega arith in let same : m ≡ k = omega arith in rw (same, start) refl
read_nanos-padded (suc width) k m n cs h e =
    read_nanos-padded width (suc k) m (n / 10) (digit_of n ∷ cs) (omega arith) (omega arith)
    ∙ ap (λ n. read_nanos k n cs) (omega arith)

pub read_nanos-nil : (k n : ℕ) → read_nanos k n [] ≡ n * 10 ^ k
unfolding read_nanos
read_nanos-nil zero n = omega arith
read_nanos-nil (suc k) n =
    read_nanos-nil k (n * 10) ∙ mul_assoc n 10 (10 ^ k) ∙ ap (λ p. n * p) (sym (pow-succ' 10 k))

padded_codes_more : (width n c : ℕ) (cs : List ℕ) → is_empty (padded_codes width n (c ∷ cs)) ≡ false
unfolding padded_codes
padded_codes_more zero n c cs = refl
padded_codes_more (suc width) n c cs = padded_codes_more width (n / 10) (digit_of n) (c ∷ cs)

pub padded_codes_some :
    (width n : ℕ) (cs : List ℕ) → 0 < width → is_empty (padded_codes width n cs) ≡ false
unfolding padded_codes
padded_codes_some zero n cs h = absurd (omega arith)
padded_codes_some (suc width) n cs h = padded_codes_more width (n / 10) (digit_of n) cs
