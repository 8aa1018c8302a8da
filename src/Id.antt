-- ===== src/Id.antt =====
-- crates/id/src/lib.rs: the public id of a case, and the key that it stands for. An id is the list
-- of its bytes, which are ASCII.
pub mod Digits
pub mod Table
pub mod RoundTrip
use cases.Prelude.{
  ℕ, zero, suc, ◌+◌, ◌-◌, ◌*◌, ◌/◌, ◌%◌, ◌^◌, Bool, true, false, Option, none, some, List, [], ◌∷◌,
  ◌++◌, length, codes, ltb, nat_eq, if◌then◌else◌, ◌&&◌, get_or, set, take, drop,
}
use mathlib.Core.List.{reverse}

-- `ALPHABET`, `MIN_LENGTH` and `SIZE`.
abbrev pub alphabet_text : List ℕ
alphabet_text = codes "abcdefghijklmnopqrstuvwxyzABCDEFGHIJKLMNOPQRSTUVWXYZ0123456789"

abbrev pub min_length : ℕ
min_length = 5

abbrev pub size : ℕ
size = 62

abbrev pub u64_mod : ℕ
u64_mod = 2 ^ 64

-- `chars[i]`. Every index here is in range.
abbrev pub at : List ℕ → ℕ → ℕ
at chars i = get_or chars i 0

-- `<[u8]>::swap`.
unfoldable pub swap : List ℕ → ℕ → ℕ → List ℕ
swap chars i r = set (set chars i (at chars r)) r (at chars i)

-- The rounds of `shuffle` that are left, `j`, at `i`.
unfoldable pub shuffle_from : ℕ → ℕ → List ℕ → List ℕ
unfolding swap
shuffle_from zero i chars = chars
shuffle_from (suc j) i chars =
    shuffle_from j (i + 1)
      (swap chars i ((i * suc j + at chars i + at chars (suc j)) % length chars))

unfoldable pub shuffle : List ℕ → List ℕ
unfolding shuffle_from
shuffle chars = shuffle_from (length chars - 1) 0 chars

unfoldable pub alphabet : List ℕ
unfolding shuffle
alphabet = shuffle alphabet_text

unfoldable pub rotate_left : List ℕ → ℕ → List ℕ
rotate_left chars n = drop n chars ++ take n chars

-- The loop of `push_number`, with the room left in the array and what is written at its end. A
-- write before its start panics: `none`.
unfoldable pub number_from : ℕ → ℕ → List ℕ → List ℕ → Option (List ℕ)
number_from zero n digits written = none
number_from (suc start) n digits written =
    let rest =
      number_from start (n / length digits) digits (at digits (n % length digits) ∷ written) in
    if nat_eq (n / length digits) 0 then some (at digits (n % length digits) ∷ written) else rest

unfoldable pub push_number : List ℕ → ℕ → List ℕ → Option (List ℕ)
push_number id n digits = elim (number_from 11 n digits []) [
  | none ↦ none
  | some written ↦ some (id ++ written)
]

-- The first `short` characters of the shuffles of `chars`, each of the one before. A shuffle gives
-- one character at least, so `short` shuffles are enough.
unfoldable pub shuffles : ℕ → ℕ → List ℕ → List ℕ
unfolding shuffle
shuffles zero short chars = []
shuffles (suc fuel) short chars =
    take short (shuffle chars) ++ shuffles fuel (short - length chars) (shuffle chars)

unfoldable pub pad : List ℕ → ℕ → List ℕ → List ℕ
pad id min_length chars =
    if ltb (length id) min_length
    then (let short = min_length - (length id + 1) in
        (id ++ at chars 0 ∷ []) ++ shuffles short short chars)
    else id

-- `encode_to`, or `none` where it would panic.
unfoldable pub encode_to : ℕ → ℕ → Option (List ℕ)
encode_to key min_length =
    let offset = (1 + at alphabet (key % size)) % size in
    let rotated = rotate_left alphabet offset in
    let chars = reverse rotated in
    elim (push_number (at rotated 0 ∷ []) key (drop 1 chars)) [
      | none ↦ none
      | some id ↦ some (pad id min_length chars)
    ]

unfoldable pub encode : ℕ → Option (List ℕ)
encode key = encode_to key min_length

-- `position`.
unfoldable pub position : ℕ → List ℕ → Option ℕ
position c [] = none
position c (x ∷ xs) =
    if nat_eq x c then some 0 else (elim (position c xs) [ none ↦ none | some i ↦ some (i + 1) ])

-- The bytes before the first separator: the first of `split`.
unfoldable pub before : ℕ → List ℕ → List ℕ
before separator [] = []
before separator (c ∷ rest) = if nat_eq c separator then [] else c ∷ before separator rest

abbrev pub fits_u64 : ℕ → Option ℕ
fits_u64 n = if ltb n u64_mod then some n else none

-- One round of the `try_fold` of `decode`, with the checked product and sum.
unfoldable pub add_digit : List ℕ → ℕ → ℕ → Option ℕ
add_digit digits key c = elim (position c digits) [
  | none ↦ none
  | some digit ↦ elim (fits_u64 (key * length digits)) [
    | none ↦ none
    | some product ↦ fits_u64 (product + digit)
  ]
]

unfoldable pub value_from : List ℕ → ℕ → List ℕ → Option ℕ
value_from digits key [] = some key
value_from digits key (c ∷ rest) = elim (add_digit digits key c) [
  | none ↦ none
  | some key' ↦ value_from digits key' rest
]

abbrev pub same : List ℕ → List ℕ → Bool
same [] [] = true
same (x ∷ xs) (y ∷ ys) = nat_eq x y && same xs ys
same _ _ = false

-- `(encode(key) == id).then_some(key)`.
abbrev pub if_id : Option (List ℕ) → List ℕ → ℕ → Option ℕ
if_id none id key = none
if_id (some encoded) id key = if same encoded id then some key else none

unfoldable pub decode_number : List ℕ → List ℕ → List ℕ → Option ℕ
decode_number digits [] id = none
decode_number digits (c ∷ number) id = elim (value_from digits 0 (c ∷ number)) [
  | none ↦ none
  | some key ↦ if_id (encode key) id key
]

unfoldable pub decode : List ℕ → Option ℕ
decode [] = none
decode (prefix ∷ rest) = elim (position prefix alphabet) [
  | none ↦ none
  | some offset ↦
      let chars = reverse (rotate_left alphabet offset) in
      decode_number (drop 1 chars) (before (at chars 0) rest) (prefix ∷ rest)
]

-- `split`, at the first `-`.
unfoldable pub split : List ℕ → List ℕ × Option (List ℕ)
split [] = ([], none)
split (c ∷ rest) =
    if nat_eq c b'-' then ([], some rest) else (let (id, slug) = split rest in (c ∷ id, slug))
