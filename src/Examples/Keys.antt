-- ===== src/Examples/Keys.antt =====
-- Keys and their ids.
use cases.Prelude.{ℕ, ◌<◌, ◌≤◌, ◌≡◌, ◌↔◌, refl, some, List, ◌∷◌, ◌++◌, codes, arith}
use cases.Id.{
  encode, decode, u64_mod, split, position, alphabet, decode_number, before, rotate_left,
  value_from, add_digit, encode_to, push_number, number_from, pad, shuffles,
}
use cases.Id.RoundTrip.{decode-encode, encode_fits}
use cases.Key.{new_key, max_key, key_to_text, key_from_str}
use cases.Key.Slug.{key_from_str-to_text, key_from_str_passed}

decode-encode_example :
    (decode (codes "UkLWZ") ≡ some 1) ↔ ((1 < u64_mod) × (encode 1 ≡ some (codes "UkLWZ")))
decode-encode_example = decode-encode (codes "UkLWZ") 1

encode_fits_example : (id : List ℕ) × (encode 18446744073709551615 ≡ some id)
encode_fits_example = encode_fits 18446744073709551615 (omega arith)

key_from_str-to_text_example :
    (id : List ℕ) × (key_to_text 1 ≡ some id)
    × (key_from_str id ≡ some 1)
    × (key_from_str (id ++ b'-' ∷ codes "pin-bun") ≡ some 1)
key_from_str-to_text_example = key_from_str-to_text 1 (codes "pin-bun") (omega arith) (omega arith)

reads_slug : key_from_str (codes "UkLWZ-pin-bun") ≡ some 1
unfolding key_from_str decode split position alphabet decode_number before rotate_left value_from
    add_digit encode encode_to push_number number_from pad shuffles new_key
reads_slug = refl

key_from_str_passed_example :
    (1 ≤ 1) × (1 ≤ max_key) × (key_to_text 1 ≡ some (split (codes "UkLWZ-pin-bun")).0)
key_from_str_passed_example = key_from_str_passed (codes "UkLWZ-pin-bun") reads_slug
