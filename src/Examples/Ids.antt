-- ===== src/Examples/Ids.antt =====
-- The vectors of crates/id/src/lib.rs.
use cases.Prelude.{◌≡◌, refl, none, some, codes}
use cases.Id.{
  encode, encode_to, decode, split, shuffle, push_number, number_from, pad, shuffles, alphabet,
  rotate_left, decode_number, position, before, value_from, add_digit,
}

encode-one : encode 1 ≡ some (codes "UkLWZ")
unfolding encode encode_to push_number number_from pad shuffles alphabet shuffle rotate_left
encode-one = refl

encode-largest : encode 18446744073709551615 ≡ some (codes "eIkvoXH40Lmd")
unfolding encode encode_to push_number number_from pad shuffles alphabet shuffle rotate_left
encode-largest = refl

encode_to-ten : encode_to 1000000 10 ≡ some (codes "gMvFoHJdmf")
unfolding encode_to push_number number_from pad shuffles alphabet shuffle rotate_left
encode_to-ten = refl

encode_to-long :
    encode_to 0 130
    ≡ some (
        codes
          "bMZn4Y5Fq8QTCJoLjxPvGfB9Dh6mlz1Sgcu0KpkMyOEiIdrsHRW2VZtweX3aA7UNbhFm8ZG04y52lzNU6diPwIVXRTgevKB3tECDo17rJa9cunpfsLSkWOMHAYxQqjb72y")
unfolding encode_to push_number number_from pad shuffles alphabet shuffle rotate_left
encode_to-long = refl

decode-one : decode (codes "UkLWZ") ≡ some 1
unfolding decode decode_number position before value_from add_digit encode encode_to push_number
    number_from pad shuffles alphabet shuffle rotate_left
decode-one = refl

decode-padding : decode (codes "UkLWA") ≡ none
unfolding decode decode_number position before value_from add_digit encode encode_to push_number
    number_from pad shuffles alphabet shuffle rotate_left
decode-padding = refl

decode-slug : decode (codes "UkLWZ-pin-bun") ≡ none
unfolding decode decode_number position before value_from add_digit encode encode_to push_number
    number_from pad shuffles alphabet shuffle rotate_left
decode-slug = refl

split-slug : split (codes "UkLWZ-pin-bun") ≡ (codes "UkLWZ", some (codes "pin-bun"))
unfolding split
split-slug = refl

shuffle-letters : shuffle (codes "abcdefghijklmnopqrstuvwxyz") ≡ codes "lbfziqvscptmyxrekguohwjand"
unfolding shuffle
shuffle-letters = refl
