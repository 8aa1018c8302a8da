-- ===== src/Key/Slug.antt =====
-- crates/core/src/key.rs and crates/id/src/lib.rs: a key reads from its id, with a slug or without.
use cases.Prelude.{
  ℕ, zero, suc, ◌+◌, ◌-◌, ◌*◌, ◌/◌, ◌%◌, ◌<◌, ◌≤◌, Bool, true, false, not, ◌&&◌, ◌≡◌, refl, Option,
  none, some, List, [], ◌∷◌, ◌++◌, All, nat_eq, ltb, length, set, take, drop, arith, Bool-cases,
  Option-cases, inl, inr,
}
use mathlib.Core.Path.{subst}
use mathlib.Core.List.{reverse, reverse_aux}
use cases.Id.{
  u64_mod, at, size, min_length, swap, shuffle_from, shuffle, alphabet, alphabet_text, rotate_left,
  number_from, push_number, shuffles, pad, encode_to, encode, decode, split,
}
use cases.Id.RoundTrip.{decode-encode, encode_fits}
use cases.Key.{max_key, new_key, key_to_text, key_from_str}

-- No character is the dash that ends an id.
abbrev IsPlain : List ℕ → Type 0
IsPlain cs = All (λ c. nat_eq c b'-' ≡ false) cs

at-IsPlain : (cs : List ℕ) (i : ℕ) → IsPlain cs → nat_eq (at cs i) b'-' ≡ false
at-IsPlain [] i p = refl
at-IsPlain (x ∷ xs) zero p = p.0
at-IsPlain (x ∷ xs) (suc i) p = at-IsPlain xs i p.1

set-IsPlain : (cs : List ℕ) (i v : ℕ) → IsPlain cs → nat_eq v b'-' ≡ false → IsPlain (set cs i v)
set-IsPlain [] i v p q = tt
set-IsPlain (x ∷ xs) zero v p q = (q, p.1)
set-IsPlain (x ∷ xs) (suc i) v p q = (p.0, set-IsPlain xs i v p.1 q)

take-IsPlain : (n : ℕ) (cs : List ℕ) → IsPlain cs → IsPlain (take n cs)
take-IsPlain zero cs p = tt
take-IsPlain (suc n) [] p = tt
take-IsPlain (suc n) (x ∷ xs) p = (p.0, take-IsPlain n xs p.1)

drop-IsPlain : (n : ℕ) (cs : List ℕ) → IsPlain cs → IsPlain (drop n cs)
drop-IsPlain zero cs p = p
drop-IsPlain (suc n) [] p = tt
drop-IsPlain (suc n) (x ∷ xs) p = drop-IsPlain n xs p.1

append-IsPlain : (xs ys : List ℕ) → IsPlain xs → IsPlain ys → IsPlain (xs ++ ys)
append-IsPlain [] ys p q = q
append-IsPlain (x ∷ xs) ys p q = (p.0, append-IsPlain xs ys p.1 q)

reverse_aux-IsPlain : (xs ys : List ℕ) → IsPlain xs → IsPlain ys → IsPlain (reverse_aux xs ys)
reverse_aux-IsPlain [] ys p q = q
reverse_aux-IsPlain (x ∷ xs) ys p q = reverse_aux-IsPlain xs (x ∷ ys) p.1 (p.0, q)

shuffle_from-IsPlain : (j i : ℕ) (cs : List ℕ) → IsPlain cs → IsPlain (shuffle_from j i cs)
unfolding shuffle_from swap
shuffle_from-IsPlain zero i cs p = p
shuffle_from-IsPlain (suc j) i cs p =
    let r = (i * suc j + at cs i + at cs (suc j)) % length cs in
    shuffle_from-IsPlain j (i + 1) (swap cs i r) (
      set-IsPlain (set cs i (at cs r)) r (at cs i)
        (set-IsPlain cs i (at cs r) p (at-IsPlain cs r p)) (at-IsPlain cs i p))

shuffle-IsPlain : (cs : List ℕ) → IsPlain cs → IsPlain (shuffle cs)
unfolding shuffle
shuffle-IsPlain cs p = shuffle_from-IsPlain (length cs - 1) 0 cs p

shuffles-IsPlain : (fuel short : ℕ) (cs : List ℕ) → IsPlain cs → IsPlain (shuffles fuel short cs)
unfolding shuffles
shuffles-IsPlain zero short cs p = tt
shuffles-IsPlain (suc fuel) short cs p =
    append-IsPlain (take short (shuffle cs)) (shuffles fuel (short - length cs) (shuffle cs))
      (take-IsPlain short (shuffle cs) (shuffle-IsPlain cs p))
      (shuffles-IsPlain fuel (short - length cs) (shuffle cs) (shuffle-IsPlain cs p))

pad-IsPlain : (id : List ℕ) (n : ℕ) (cs : List ℕ) → IsPlain id → IsPlain cs → IsPlain (pad id n cs)
unfolding pad
pad-IsPlain id n cs p q = elim (Bool-cases (ltb (length id) n)) [
  | inl e ↦ rw e (
      append-IsPlain (id ++ at cs 0 ∷ []) _
        (append-IsPlain id (at cs 0 ∷ []) p (at-IsPlain cs 0 q, tt))
        (shuffles-IsPlain (n - (length id + 1)) (n - (length id + 1)) cs q))
  | inr e ↦ rw e p
]

number-IsPlain :
    (digits : List ℕ) (start n : ℕ) (written : List ℕ) {w : List ℕ}
    → IsPlain digits
    → IsPlain written
    → number_from start n digits written ≡ some w
    → IsPlain w
unfolding number_from
number-IsPlain digits zero n written p q h = absurd (cc h)
number-IsPlain digits (suc start) n written {w = w} p q h =
    let c = at-IsPlain digits (n % length digits) p in
    elim (Bool-cases (nat_eq (n / length digits) 0)) [
      | inl e ↦
          (let e' : at digits (n % length digits) ∷ written ≡ w = ground arith in
            subst IsPlain e' (c, q))
      | inr e ↦
          number-IsPlain digits start (n / length digits) (at digits (n % length digits) ∷ written)
            {w = w} p (c, q) (ground arith)
    ]

abbrev is_plain : List ℕ → Bool
is_plain [] = true
is_plain (c ∷ cs) = not (nat_eq c b'-') && is_plain cs

all-IsPlain : (cs : List ℕ) → is_plain cs ≡ true → IsPlain cs
all-IsPlain [] h = tt
all-IsPlain (c ∷ cs) h = (ground arith, all-IsPlain cs (ground arith))

alphabet-IsPlain : IsPlain alphabet
unfolding alphabet
alphabet-IsPlain = shuffle-IsPlain alphabet_text (all-IsPlain alphabet_text refl)

rotate_left-IsPlain : (cs : List ℕ) (n : ℕ) → IsPlain cs → IsPlain (rotate_left cs n)
unfolding rotate_left
rotate_left-IsPlain cs n p =
    append-IsPlain (drop n cs) (take n cs) (drop-IsPlain n cs p) (take-IsPlain n cs p)

pad_given :
    (first key : ℕ) (digits chars : List ℕ) {id : List ℕ}
    → IsPlain (first ∷ digits)
    → IsPlain chars
    → elim (push_number (first ∷ []) key digits) as (λ _. Option (List ℕ)) [
      | none ↦ none
      | some id ↦ some (pad id min_length chars)
    ]
      ≡ some id
    → IsPlain id
unfolding push_number
pad_given first key digits chars {id = id} p q h =
    elim (Option-cases (number_from 11 key digits [])) [
      | inl e ↦ absurd (ground arith)
      | inr (w, e) ↦
          (let e' : pad (first ∷ w) min_length chars ≡ id = ground arith in
            subst IsPlain e' (
              pad-IsPlain (first ∷ w) min_length chars
                (p.0, number-IsPlain digits 11 key [] {w = w} p.1 tt e) q))
    ]

encode-IsPlain : (key : ℕ) {id : List ℕ} → encode key ≡ some id → IsPlain id
unfolding encode encode_to
encode-IsPlain key h =
    let rotated = rotate_left alphabet ((1 + at alphabet (key % size)) % size) in
    let p = rotate_left-IsPlain alphabet ((1 + at alphabet (key % size)) % size) alphabet-IsPlain in
    let q = reverse_aux-IsPlain rotated [] p tt in
    pad_given (at rotated 0) key (drop 1 (reverse rotated)) (reverse rotated)
      (at-IsPlain rotated 0 p, drop-IsPlain 1 (reverse rotated) q) q h

split-plain : (id : List ℕ) → IsPlain id → split id ≡ (id, none)
unfolding split
split-plain [] p = refl
split-plain (c ∷ id) p = ground (arith, split-plain id p.1)

split-slug : (id slug : List ℕ) → IsPlain id → split (id ++ b'-' ∷ slug) ≡ (id, some slug)
unfolding split
split-slug [] slug p = refl
split-slug (c ∷ id) slug p = ground (arith, split-slug id slug p.1)

new_key_within : (key : ℕ) → 1 ≤ key → key ≤ max_key → new_key key ≡ some key
unfolding new_key
new_key_within key low high = ground arith

-- A key from 1 to 2 ^ 63 - 1 has an id, and reads from it, with a title slug after it, whatever
-- that is, or without.
pub key_from_str-to_text :
    (key : ℕ) (slug : List ℕ)
    → 1 ≤ key
    → key ≤ max_key
    → (id : List ℕ) × (key_to_text key ≡ some id)
      × (key_from_str id ≡ some key)
      × (key_from_str (id ++ b'-' ∷ slug) ≡ some key)
unfolding key_to_text key_from_str
key_from_str-to_text key slug low high =
    let small : key < u64_mod = omega arith in
    let p = encode_fits key small in
    let plain = encode-IsPlain key {id = p.0} p.1 in
    let back = (decode-encode p.0 key).1 (small, p.1) in
    let within = new_key_within key low high in
    (
      p.0,
      p.1,
      rw (split-plain p.0 plain) (rw back within),
      rw (split-slug p.0 slug plain) (rw back within),
    )

-- Text that reads as a key holds a key that a store can give, and its id stands at the front.
pub key_from_str_passed :
    (text : List ℕ) {key : ℕ}
    → key_from_str text ≡ some key
    → (1 ≤ key) × (key ≤ max_key) × (key_to_text key ≡ some (split text).0)
unfolding key_from_str key_to_text new_key
key_from_str_passed text {key = key} h = elim (Option-cases (decode (split text).0)) [
  | inl e ↦ absurd (ground arith)
  | inr (n, e) ↦
      let same : n ≡ key = ground arith in
      let p = (decode-encode (split text).0 n).0 e in
      (ground arith, ground arith, subst (λ n. encode n ≡ some (split text).0) same p.1)
]
