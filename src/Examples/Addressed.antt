-- ===== src/Examples/Addressed.antt =====
-- Servers and tokens of the tests of crates/store-remote/src/shape.rs.
use cases.Prelude.{ℕ, true, false, ◌≡◌, refl, ◌⊎◌, none, some, List, ◌++◌, length, codes}
use cases.Remote.{
  lower, split_scheme, strip_slash, split_colon, split_bracket, split_port, before_bracket,
  host_name, is_port, scheme_fits, parse_host, parse_rest, parse_parts, parse,
}
use cases.Remote.Server.{IsServer, parse-IsServer}
use cases.Remote.Token.{
  strip_prefix, base62, token_from_str, token_to_text, forward_token, token_forward,
  token_from_str_passed,
}

server_taken :
    parse false (codes "Https://Staging.cases.sh:8443/")
    ≡ some (codes "https://staging.cases.sh:8443")
unfolding parse parse_parts parse_rest parse_host lower split_scheme strip_slash split_colon
    split_port host_name is_port scheme_fits
server_taken = refl

brackets_taken : parse false (codes "http://[::1]:9") ≡ some (codes "http://[::1]:9")
unfolding parse parse_parts parse_rest parse_host lower split_scheme strip_slash split_colon
    split_bracket split_port before_bracket host_name is_port scheme_fits
brackets_taken = refl

plain_refused : parse false (codes "http://cases.sh") ≡ none
unfolding parse parse_parts parse_rest parse_host lower split_scheme strip_slash split_colon
    split_port host_name is_port scheme_fits
plain_refused = refl

-- A sign before the port is taken with it.
sign_taken : parse false (codes "https://cases.sh:+443") ≡ some (codes "https://cases.sh:+443")
unfolding parse parse_parts parse_rest parse_host lower split_scheme strip_slash split_colon
    split_port host_name is_port scheme_fits
sign_taken = refl

parse-IsServer_example :
    IsServer false (codes "https://staging.cases.sh:8443")
    × (parse false (codes "https://staging.cases.sh:8443")
        ≡ some (codes "https://staging.cases.sh:8443"))
parse-IsServer_example = parse-IsServer false (codes "Https://Staging.cases.sh:8443/") server_taken

abbrev user_token : List ℕ
user_token = codes "csu_000000000000000000000000000000000000"

token_taken : token_from_str user_token ≡ some user_token
unfolding token_from_str strip_prefix base62
token_taken = refl

-- A forward's token may start as a user's does.
forward_shown : token_forward user_token ≡ some user_token
unfolding token_forward forward_token
forward_shown = refl

token_from_str_passed_example :
    (user_token ≡ user_token)
    × ((body : List ℕ) × (length body ≡ 36)
        × (base62 body ≡ true)
        × (((user_token ≡ codes "csu_" ++ body) × (token_to_text user_token ≡ codes "csu_…"))
            ⊎ ((user_token ≡ codes "csa_" ++ body) × (token_to_text user_token ≡ codes "csa_…"))))
token_from_str_passed_example = token_from_str_passed user_token token_taken
