-- ===== src/Id/RoundTrip.antt =====
-- crates/id/src/lib.rs: `decode` undoes `encode`, and an id names one key.
use cases.Prelude.{
  ℕ, zero, suc, ◌+◌, ◌-◌, ◌/◌, ◌%◌, ◌<◌, true, false, ◌≡◌, ◌↔◌, refl, sym, ◌∙◌, ap, Option, none,
  some, List, [], ◌∷◌, ◌++◌, length, is_empty, ltb, nat_eq, arith, drop, All, Bool-cases,
  Option-cases, inl, inr,
}
use mathlib.Core.Path.{subst}
use mathlib.Core.List.{append_assoc, append-nil}
use cases.Prelude.{some-injective}
use cases.Id.{
  u64_mod, size, min_length, at, alphabet, rotate_left, number_from, push_number, shuffles, pad,
  encode_to, encode, position, before, value_from, add_digit, same, if_id, decode_number, decode,
}
use cases.Id.Digits.{contains_code, is_nodup, value-number, number_fits, contains-at}
use cases.Id.Table.{chars_of, chars_of_fits}

abbrev Within : List ℕ → List ℕ → Type 0
Within digits w = All (λ c. contains_code digits c ≡ true) w

number-Within :
    (digits : List ℕ) (start n : ℕ) (written : List ℕ) {w : List ℕ}
    → length digits ≡ 61
    → Within digits written
    → number_from start n digits written ≡ some w
    → Within digits w
unfolding number_from
number-Within digits zero n written b p h = absurd (cc h)
number-Within digits (suc start) n written {w = w} b p h =
    let c : contains_code digits (at digits (n % length digits)) ≡ true =
      contains-at digits (n % length digits) (ground arith) in
    elim (Bool-cases (nat_eq (n / length digits) 0)) [
      | inl e ↦
          (let e : at digits (n % length digits) ∷ written ≡ w = ground arith in
            subst (Within digits) e (c, p))
      | inr e ↦
          number-Within digits start (n / length digits) (at digits (n % length digits) ∷ written)
            {w = w} b (c, p) (ground arith)
    ]

-- The rest of an id after its number: nothing, or the separator and the padding.
abbrev IsEnd : ℕ → List ℕ → Type 0
IsEnd separator [] = Unit
IsEnd separator (c ∷ rest) = c ≡ separator

before-number :
    (separator : ℕ) (digits w rest : List ℕ)
    → contains_code digits separator ≡ false
    → Within digits w
    → IsEnd separator rest
    → before separator (w ++ rest) ≡ w
unfolding before
before-number separator digits [] [] n p e = refl
before-number separator digits [] (c ∷ rest) n p e = ground arith
before-number separator digits (c ∷ w) rest n p e =
    let other : nat_eq c separator ≡ false = not_there digits c p.0 n in
    ground (arith, before-number separator digits w rest n p.1 e)
  where
    not_there :
        (digits : List ℕ) (c : ℕ)
        → contains_code digits c ≡ true
        → contains_code digits separator ≡ false
        → nat_eq c separator ≡ false
    not_there [] c p n = absurd (cc p)
    not_there (d ∷ digits) c p n = ground (arith, not_there digits c)

same_refl : (id : List ℕ) → same id id ≡ true
same_refl [] = refl
same_refl (x ∷ xs) = ground (arith, same_refl xs)

same_eq : (xs ys : List ℕ) → same xs ys ≡ true → xs ≡ ys
same_eq [] [] h = refl
same_eq [] (y ∷ ys) h = absurd (cc h)
same_eq (x ∷ xs) [] h = absurd (cc h)
same_eq (x ∷ xs) (y ∷ ys) h = ground (arith, same_eq xs ys)

-- The offset of a key, the separator and the digits that its id is written in.
abbrev offset_of : ℕ → ℕ
offset_of key = (1 + at alphabet (key % size)) % size

abbrev separator_of : ℕ → ℕ
separator_of key = at (chars_of (offset_of key)) 0

abbrev digits_of : ℕ → List ℕ
digits_of key = drop 1 (chars_of (offset_of key))

-- What the table says of a list of 62 characters, each given once: the first is none of the others.
split_first :
    (chars : List ℕ)
    → is_nodup chars ≡ true
    → length chars ≡ 62
    → (is_nodup (drop 1 chars) ≡ true)
      × (length (drop 1 chars) ≡ 61)
      × (contains_code (drop 1 chars) (at chars 0) ≡ false)
split_first [] n l = absurd (omega arith)
split_first (x ∷ xs) n l = (ground arith, ground arith, ground arith)

pad-IsEnd :
    (id : List ℕ) (chars : List ℕ)
    → (rest : List ℕ) × (pad id min_length chars ≡ id ++ rest) × IsEnd (at chars 0) rest
unfolding pad
pad-IsEnd id chars = elim (Bool-cases (ltb (length id) min_length)) [
  | inl e ↦ (
    at chars 0 ∷ shuffles (min_length - (length id + 1)) (min_length - (length id + 1)) chars,
    rw e (
        append_assoc id (at chars 0 ∷ [])
          (shuffles (min_length - (length id + 1)) (min_length - (length id + 1)) chars)),
    refl,
  )
  | inr e ↦ ([], rw e (sym (append-nil id)), tt)
]

encode_to_given :
    (key : ℕ) {w : List ℕ}
    → number_from 11 key (digits_of key) [] ≡ some w
    → encode key
      ≡ some (
          pad
            (at (rotate_left alphabet (offset_of key)) 0 ∷ w)
            min_length
            (chars_of (offset_of key)))
unfolding encode encode_to push_number chars_of
encode_to_given key h = ground (arith, h)

number_written :
    (start n : ℕ) (digits written : List ℕ) {w : List ℕ}
    → number_from start n digits written ≡ some w
    → is_empty w ≡ false
unfolding number_from
number_written zero n digits written h = absurd (cc h)
number_written (suc start) n digits written {w = w} h =
    elim (Bool-cases (nat_eq (n / length digits) 0)) [
      | inl e ↦ ground arith
      | inr e ↦
          number_written start (n / length digits) digits (at digits (n % length digits) ∷ written)
            {w = w} (ground arith)
    ]

decode_number_value :
    (digits w id : List ℕ) (key : ℕ)
    → is_empty w ≡ false
    → value_from digits 0 w ≡ some key
    → if_id (encode key) id key ≡ some key
    → decode_number digits w id ≡ some key
unfolding decode_number
decode_number_value digits [] id key n v i = absurd (cc n)
decode_number_value digits (c ∷ w) id key n v i = ground arith

decode_placed :
    (prefix : ℕ) (rest : List ℕ) (offset : ℕ)
    → position prefix alphabet ≡ some offset
    → decode (prefix ∷ rest)
      ≡ decode_number
          (drop 1 (chars_of offset))
          (before (at (chars_of offset) 0) rest)
          (prefix ∷ rest)
unfolding decode chars_of
decode_placed prefix rest offset h = ground arith

add_digit_small :
    (digits : List ℕ) (key c : ℕ) {k : ℕ} → add_digit digits key c ≡ some k → k < u64_mod
unfolding add_digit
add_digit_small digits key c h = ground arith

-- What is read is a u64, and its id is the text.
value_from_small :
    (digits : List ℕ) (key : ℕ) (number : List ℕ) {k : ℕ}
    → key < u64_mod
    → value_from digits key number ≡ some k
    → k < u64_mod
unfolding value_from
value_from_small digits key [] small h = ground arith
value_from_small digits key (c ∷ number) {k = k} small h =
    elim (Option-cases (add_digit digits key c)) [
      | inl e ↦ absurd (ground arith)
      | inr (key', e) ↦
          value_from_small digits key' number {k = k} (add_digit_small digits key c e)
            (ground arith)
    ]

if_id_passed :
    (encoded : Option (List ℕ)) (id : List ℕ) (key : ℕ) {k : ℕ}
    → if_id encoded id key ≡ some k
    → (key ≡ k) × (encoded ≡ some id)
if_id_passed none id key h = absurd (cc h)
if_id_passed (some encoded) id key h = elim (Bool-cases (same encoded id)) [
  | inl e ↦ (ground arith, ap some (same_eq encoded id e))
  | inr e ↦ absurd (ground arith)
]

decode_number_passed :
    (digits number id : List ℕ) {key : ℕ}
    → decode_number digits number id ≡ some key
    → (key < u64_mod) × (encode key ≡ some id)
unfolding decode_number
decode_number_passed digits [] id h = absurd (cc h)
decode_number_passed digits (c ∷ number) id {key = key} h =
    elim (Option-cases (value_from digits 0 (c ∷ number))) [
      | inl e ↦ absurd (ground arith)
      | inr (k, e) ↦
          let p = if_id_passed (encode k) id k {k = key} (ground arith) in
          subst (λ k. (k < u64_mod) × (encode k ≡ some id)) p.0
            (value_from_small digits 0 (c ∷ number) (omega arith) e, p.1)
    ]

decode_passed :
    (id : List ℕ) {key : ℕ} → decode id ≡ some key → (key < u64_mod) × (encode key ≡ some id)
unfolding decode
decode_passed [] h = absurd (cc h)
decode_passed (prefix ∷ rest) h = elim (Option-cases (position prefix alphabet)) [
  | inl e ↦ absurd (ground arith)
  | inr (offset, e) ↦
      decode_number_passed _ _ (prefix ∷ rest) (sym (decode_placed prefix rest offset e) ∙ h)
]

-- What the pieces of the id of a key are.
module _ (key : ℕ) where
  offset_fits :
      (is_nodup (chars_of (offset_of key)) ≡ true)
      × (length (chars_of (offset_of key)) ≡ 62)
      × (position (at (rotate_left alphabet (offset_of key)) 0) alphabet ≡ some (offset_of key))
  offset_fits = chars_of_fits (offset_of key) (omega arith)

  digits_fit :
      (is_nodup (digits_of key) ≡ true)
      × (length (digits_of key) ≡ 61)
      × (contains_code (digits_of key) (separator_of key) ≡ false)
  digits_fit = split_first (chars_of (offset_of key)) offset_fits.0 offset_fits.1

  module _ (small : key < u64_mod) where
    written : (w : List ℕ) × (number_from 11 key (digits_of key) [] ≡ some w)
    written = number_fits (digits_of key) digits_fit.0 digits_fit.1 10 key [] (omega arith)

    id_of : (id : List ℕ) × (encode key ≡ some id)
    id_of = (_, encode_to_given key written.1)

    -- The number reads back as the key.
    value_written : value_from (digits_of key) 0 written.0 ≡ some key
    unfolding value_from
    value_written =
        value-number (digits_of key) digits_fit.0 digits_fit.1 11 key [] {w = written.0} small
          written.1

    decode_number_given :
        (id : List ℕ) → encode key ≡ some id → decode_number (digits_of key) written.0 id ≡ some key
    decode_number_given id e =
        decode_number_value (digits_of key) written.0 id key
          (number_written 11 key (digits_of key) [] written.1) value_written
          (rw e (rw (same_refl id) refl))

    decode_written : (id : List ℕ) → encode key ≡ some id → decode id ≡ some key
    unfolding decode
    decode_written id e =
        let given = encode_to_given key written.1 in
        let p =
          pad-IsEnd (at (rotate_left alphabet (offset_of key)) 0 ∷ written.0)
            (chars_of (offset_of key)) in
        let shape : at (rotate_left alphabet (offset_of key)) 0 ∷ (written.0 ++ p.0) ≡ id =
          sym p.1 ∙ some-injective (sym given ∙ e) in
        let number : before (separator_of key) (written.0 ++ p.0) ≡ written.0 =
          before-number (separator_of key) (digits_of key) written.0 p.0 digits_fit.2
            (number-Within (digits_of key) 11 key [] {w = written.0} digits_fit.1 tt written.1)
            p.2 in
        subst (λ id. decode id ≡ some key) shape
          (decode_placed (at (rotate_left alphabet (offset_of key)) 0) (written.0 ++ p.0)
              (offset_of key) offset_fits.2
            ∙ rw number (
                decode_number_given
                  (at (rotate_left alphabet (offset_of key)) 0 ∷ (written.0 ++ p.0))
                  (given ∙ ap some p.1)))

-- `decode` reads exactly the ids that `encode` writes: each u64 key's id names it and no other
-- key, and no other text names a key.
pub decode-encode :
    (id : List ℕ) (key : ℕ) → (decode id ≡ some key) ↔ ((key < u64_mod) × (encode key ≡ some id))
decode-encode id key = (λ h. decode_passed id h, λ (small, e). decode_written key small id e)

-- Every u64 has an id: the array of `push_number` has room for all its digits.
pub encode_fits : (key : ℕ) → key < u64_mod → (id : List ℕ) × (encode key ≡ some id)
encode_fits key small = id_of key small
