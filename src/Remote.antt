-- ===== src/Remote.antt =====
-- crates/store-remote/src/shape.rs: what the client checks before it sends anything. Text is its
-- characters; a test of every byte for an ASCII class is a test of every character, and text of
-- such characters has as many bytes. `none` is `Invalid`.
mod Parts
mod Address
pub mod Server
pub mod Token
use cases.Prelude.{
  ℕ, zero, suc, ◌+◌, ◌-◌, ◌*◌, ◌≤◌, Bool, true, false, not, ◌&&◌, ◌||◌, Option, none, some, List,
  [], ◌∷◌, ◌++◌, nat_eq, leb, ltb, length, is_empty, any, all, codes, if◌then◌else◌,
}

abbrev pub same_text : List ℕ → List ℕ → Bool
same_text [] [] = true
same_text (c ∷ cs) (d ∷ ds) = nat_eq c d && same_text cs ds
same_text _ _ = false

abbrev pub is_digit : ℕ → Bool
is_digit c = leb b'0' c && leb c b'9'

abbrev pub is_upper : ℕ → Bool
is_upper c = leb b'A' c && leb c b'Z'

abbrev pub is_lower : ℕ → Bool
is_lower c = leb b'a' c && leb c b'z'

abbrev pub is_alphanumeric : ℕ → Bool
is_alphanumeric c = is_digit c || (is_upper c || is_lower c)

abbrev pub is_hexdigit : ℕ → Bool
is_hexdigit c = is_digit c || ((leb b'A' c && leb c b'F') || (leb b'a' c && leb c b'f'))

-- `to_ascii_lowercase`.
abbrev pub lower_char : ℕ → ℕ
lower_char c = if is_upper c then c + 32 else c

unfoldable pub lower : List ℕ → List ℕ
lower [] = []
lower (c ∷ cs) = lower_char c ∷ lower cs

abbrev pub front : ℕ → Option (List ℕ × List ℕ) → Option (List ℕ × List ℕ)
front c none = none
front c (some (a, b)) = some (c ∷ a, b)

-- `split_once(':')`.
unfoldable pub split_colon : List ℕ → Option (List ℕ × List ℕ)
split_colon [] = none
split_colon (c ∷ cs) =
    let rest = split_colon cs in if nat_eq c b':' then some ([], cs) else front c rest

abbrev pub strip_slashes : List ℕ → Option (List ℕ)
strip_slashes (a ∷ b ∷ c ∷ cs) =
    if nat_eq a b':' && (nat_eq b b'/' && nat_eq c b'/') then some cs else none
strip_slashes _ = none

abbrev pub or_further : ℕ → Option (List ℕ) → Option (List ℕ × List ℕ) → Option (List ℕ × List ℕ)
or_further c none rest = front c rest
or_further c (some after) rest = some ([], after)

-- `split_once("://")`.
unfoldable pub split_scheme : List ℕ → Option (List ℕ × List ℕ)
split_scheme [] = none
split_scheme (c ∷ cs) = or_further c (strip_slashes (c ∷ cs)) (split_scheme cs)

-- `strip_suffix('/').unwrap_or(rest)`.
unfoldable pub strip_slash : List ℕ → List ℕ
strip_slash [] = []
strip_slash (c ∷ []) = if nat_eq c b'/' then [] else c ∷ []
strip_slash (c ∷ d ∷ cs) = c ∷ strip_slash (d ∷ cs)

abbrev pub is_more : ℕ → Bool
is_more c = nat_eq c b'/' || (nat_eq c b'?' || (nat_eq c b'#' || nat_eq c b'@'))

-- Up to the first `]`, it included, and what is after it.
unfoldable pub split_bracket : List ℕ → Option (List ℕ × List ℕ)
split_bracket [] = none
split_bracket (c ∷ cs) =
    let rest = split_bracket cs in if nat_eq c b']' then some (c ∷ [], cs) else front c rest

abbrev pub port_after : List ℕ × List ℕ → Option (List ℕ × Option (List ℕ))
port_after (name, []) = some (name, none)
port_after (name, c ∷ port) = if nat_eq c b':' then some (name, some port) else none

abbrev pub port_of_bracket : Option (List ℕ × List ℕ) → Option (List ℕ × Option (List ℕ))
port_of_bracket none = none
port_of_bracket (some parts) = port_after parts

abbrev pub port_of_colon : List ℕ → Option (List ℕ × List ℕ) → List ℕ × Option (List ℕ)
port_of_colon host none = (host, none)
port_of_colon host (some (name, port)) = (name, some port)

abbrev pub starts_with : ℕ → List ℕ → Bool
starts_with d [] = false
starts_with d (c ∷ cs) = nat_eq c d

unfoldable pub split_port : List ℕ → Option (List ℕ × Option (List ℕ))
split_port host =
    if starts_with b'[' host
    then port_of_bracket (split_bracket host)
    else some (port_of_colon host (split_colon host))

-- What is before a `]` at the end.
unfoldable pub before_bracket : List ℕ → Option (List ℕ)
before_bracket [] = none
before_bracket (c ∷ []) = if nat_eq c b']' then some [] else none
before_bracket (c ∷ d ∷ cs) = elim (before_bracket (d ∷ cs)) [
  | none ↦ none
  | some inner ↦ some (c ∷ inner)
]

abbrev pub in_brackets : List ℕ → Option (List ℕ)
in_brackets [] = none
in_brackets (c ∷ cs) = if nat_eq c b'[' then before_bracket cs else none

abbrev pub plain_name : List ℕ → Bool
plain_name name =
    not (is_empty name)
    && (not (starts_with b'.' name || starts_with b'-' name)
        && all (λ c. is_alphanumeric c || (nat_eq c b'.' || nat_eq c b'-')) name)

abbrev pub is_host : List ℕ → Option (List ℕ) → Bool
is_host name none = plain_name name
is_host name (some inner) = not (is_empty inner) && all (λ c. is_hexdigit c || nat_eq c b':') inner

unfoldable pub host_name : List ℕ → Bool
host_name name = is_host name (in_brackets name)

abbrev pub value_of : ℕ → List ℕ → ℕ
value_of n [] = n
value_of n (c ∷ cs) = value_of (n * 10 + (c - b'0')) cs

abbrev pub strip_plus : List ℕ → List ℕ
strip_plus [] = []
strip_plus (c ∷ cs) = if nat_eq c b'+' then cs else c ∷ cs

-- `parse::<u16>`, which takes one `+` before the digits; it fails on empty text too.
unfoldable pub is_port : List ℕ → Bool
is_port text =
    let digits = strip_plus text in
    not (is_empty digits) && (all is_digit digits && ltb (value_of 0 digits) 65536)

abbrev pub port_fits : Option (List ℕ) → Bool
port_fits none = true
port_fits (some port) = is_port port

abbrev pub is_loopback : List ℕ → Bool
is_loopback name =
    same_text name (codes "127.0.0.1")
    || (same_text name (codes "localhost") || same_text name (codes "[::1]"))

-- The check of the scheme, against the host's name.
unfoldable pub scheme_fits : Bool → List ℕ → List ℕ → Bool
scheme_fits any_http scheme name =
    same_text scheme (codes "https")
    || (same_text scheme (codes "http") && (any_http || is_loopback name))

unfoldable pub parse_host :
    Bool → List ℕ → List ℕ → Option (List ℕ × Option (List ℕ)) → Option (List ℕ)
parse_host any_http scheme host none = none
parse_host any_http scheme host (some (name, port)) =
    if host_name name && (port_fits port && scheme_fits any_http scheme name)
    then some (scheme ++ (codes "://" ++ host))
    else none

unfoldable pub parse_rest : Bool → List ℕ → List ℕ → Option (List ℕ)
parse_rest any_http scheme rest =
    if any is_more rest
    then none
    else parse_host any_http scheme (lower rest) (split_port (lower rest))

unfoldable pub parse_parts : Bool → Option (List ℕ × List ℕ) → Option (List ℕ)
parse_parts any_http none = none
parse_parts any_http (some (scheme, rest)) = parse_rest any_http (lower scheme) (strip_slash rest)

-- `Server::parse`: the text of the server.
unfoldable pub parse : Bool → List ℕ → Option (List ℕ)
parse any_http text = parse_parts any_http (split_scheme text)

-- `Server::from_str` and `Server::forward`.
unfoldable pub server_from_str : List ℕ → Option (List ℕ)
server_from_str text = parse false text

unfoldable pub server_forward : List ℕ → Option (List ℕ)
server_forward text = parse true text
