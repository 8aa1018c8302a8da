-- ===== src/Record/Signs.antt =====
-- crates/core/src/record.rs: `unsigned_zeros`, over characters: the bytes that it looks for are
-- ASCII, and are characters of their own.
use cases.Prelude.{String, code, Bool, true, false, not, ◌&&◌, ◌||◌, leb, nat_eq, if◌then◌else◌}

-- Whether the number that the text is in goes on: `0`-`9`, `.`, `e` or `E`.
unfoldable pub goes_on : String → Bool
goes_on String.[] = false
goes_on (String.◌∷◌ c s) =
    (leb b'0' (code c) && leb (code c) b'9')
    || nat_eq (code c) b'.'
    || nat_eq (code c) b'e'
    || nat_eq (code c) b'E'

unfoldable pub zero_follows : String → Bool
zero_follows String.[] = false
zero_follows (String.◌∷◌ c s) = nat_eq (code c) b'0' && not (goes_on s)

-- The loop, with `in_string` and `escaped`.
unfoldable pub unsigned_from : Bool → Bool → String → String
unfolding goes_on zero_follows
unsigned_from in_string escaped String.[] = String.[]
unsigned_from true true (String.◌∷◌ c s) = String.◌∷◌ c (unsigned_from true false s)
unsigned_from true false (String.◌∷◌ c s) =
    String.◌∷◌ c (unsigned_from (not (nat_eq (code c) b'"')) (nat_eq (code c) b'\\') s)
unsigned_from false escaped (String.◌∷◌ c s) =
    String.◌∷◌ (if nat_eq (code c) b'-' && zero_follows s then " " else c)
      (unsigned_from (nat_eq (code c) b'"') escaped s)

unfoldable pub unsigned_zeros : String → String
unfolding unsigned_from
unsigned_zeros text = unsigned_from false false text
