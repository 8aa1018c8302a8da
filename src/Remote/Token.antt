-- ===== src/Remote/Token.antt =====
-- crates/store-remote/src/shape.rs: bearer tokens, and the ids of stores and of accounts.
use cases.Prelude.{
  ℕ, Bool, true, false, ◌&&◌, ◌||◌, ◌≡◌, refl, ap, ◌∙◌, ◌⊎◌, inl, inr, Option, none, some,
  some-injective, List, [], ◌∷◌, ◌++◌, nat_eq, leb, length, any, all, codes, arith, if◌then◌else◌,
  Bool-cases,
}
use cases.Remote.{same_text, is_alphanumeric}

unfoldable pub strip_prefix : List ℕ → List ℕ → Option (List ℕ)
strip_prefix [] text = some text
strip_prefix (c ∷ prefix) [] = none
strip_prefix (c ∷ prefix) (d ∷ text) = if nat_eq c d then strip_prefix prefix text else none

abbrev pub or_else : Option (List ℕ) → Option (List ℕ) → Option (List ℕ)
or_else none b = b
or_else (some a) b = some a

unfoldable pub base62 : List ℕ → Bool
base62 text = all is_alphanumeric text

abbrev pub token_body : ℕ
token_body = 36

abbrev pub token_of : List ℕ → Option (List ℕ) → Option (List ℕ)
token_of text none = none
token_of text (some body) =
    if nat_eq (length body) token_body && base62 body then some text else none

-- `Token::from_str`: the text of the token.
unfoldable pub token_from_str : List ℕ → Option (List ℕ)
token_from_str text =
    token_of text (or_else (strip_prefix (codes "csu_") text) (strip_prefix (codes "csa_") text))

abbrev pub forward_token_min : ℕ
forward_token_min = 32

unfoldable pub forward_token : List ℕ → Bool
forward_token text =
    leb forward_token_min (length text)
    && all (λ c. is_alphanumeric c || any (nat_eq c) (codes "-._~+/=")) text

-- `Token::forward`.
unfoldable pub token_forward : List ℕ → Option (List ℕ)
token_forward text = if forward_token text then some text else none

-- `Token::prefix`.
unfoldable pub prefix : List ℕ → List ℕ
prefix (a ∷ b ∷ c ∷ d ∷ rest) =
    let front = a ∷ b ∷ c ∷ d ∷ [] in
    if same_text front (codes "csu_") || same_text front (codes "csa_") then front else []
prefix _ = []

-- `Token::fmt`, as `Display`.
unfoldable pub token_to_text : List ℕ → List ℕ
token_to_text token = prefix token ++ codes "…"

-- `store_id`, and `account_id`.
abbrev pub store_body : ℕ
store_body = 16

abbrev pub account_body : ℕ
account_body = 64

abbrev pub is_store_body : Option (List ℕ) → Bool
is_store_body none = false
is_store_body (some body) = nat_eq (length body) store_body && base62 body

abbrev pub is_account_body : Option (List ℕ) → Bool
is_account_body none = false
is_account_body (some body) = leb 1 (length body) && (leb (length body) account_body && base62 body)

unfoldable pub store_id : List ℕ → Bool
store_id id = is_store_body (strip_prefix (codes "st_") id)

unfoldable pub account_id : List ℕ → Bool
account_id id = is_account_body (strip_prefix (codes "ac_") id)

strip_prefix_passed :
    (front text : List ℕ) {body : List ℕ}
    → strip_prefix front text ≡ some body
    → text ≡ front ++ body
unfolding strip_prefix
strip_prefix_passed [] text h = some-injective h
strip_prefix_passed (c ∷ front) [] h = absurd (cc h)
strip_prefix_passed (c ∷ front) (d ∷ text) {body = body} h = elim (Bool-cases (nat_eq c d)) [
  | inl e ↦
      (let head : d ≡ c = ground arith in
        ap (λ c. c ∷ text) head
        ∙ ap (◌∷◌ c) (strip_prefix_passed front text {body = body} (ground arith)))
  | inr e ↦ absurd (ground arith)
]

token_of_passed :
    (text : List ℕ) (o : Option (List ℕ)) {t : List ℕ}
    → token_of text o ≡ some t
    → (body : List ℕ) × (o ≡ some body) × (t ≡ text) × (length body ≡ 36) × (base62 body ≡ true)
token_of_passed text none h = absurd (cc h)
token_of_passed text (some body) h = (body, refl, ground arith, ground arith, ground arith)

or_else_passed :
    (a b : Option (List ℕ)) {body : List ℕ}
    → or_else a b ≡ some body
    → (a ≡ some body) ⊎ (b ≡ some body)
or_else_passed none b h = inr h
or_else_passed (some a) b h = inl h

shown_user : (body : List ℕ) → token_to_text (codes "csu_" ++ body) ≡ codes "csu_…"
unfolding token_to_text prefix
shown_user body = refl

shown_agent : (body : List ℕ) → token_to_text (codes "csa_" ++ body) ≡ codes "csa_…"
unfolding token_to_text prefix
shown_agent body = refl

-- Text that is taken as a token is one of the two prefixes and 36 letters and digits, and what the
-- token displays as is its prefix alone, whatever the letters and digits are.
pub token_from_str_passed :
    (text : List ℕ) {token : List ℕ}
    → token_from_str text ≡ some token
    → (token ≡ text)
      × ((body : List ℕ) × (length body ≡ 36)
          × (base62 body ≡ true)
          × (((token ≡ codes "csu_" ++ body) × (token_to_text token ≡ codes "csu_…"))
              ⊎ ((token ≡ codes "csa_" ++ body) × (token_to_text token ≡ codes "csa_…"))))
unfolding token_from_str
token_from_str_passed text {token = token} h =
    let (body, found, same, long, plain) = token_of_passed text _ {t = token} h in
    (
      same,
      (
        body,
        long,
        plain,
        elim (or_else_passed _ _ {body = body} found) [
          | inl e ↦
              (let whole = same ∙ strip_prefix_passed (codes "csu_") text {body = body} e in
                inl (whole, ap token_to_text whole ∙ shown_user body))
          | inr e ↦
              (let whole = same ∙ strip_prefix_passed (codes "csa_") text {body = body} e in
                inr (whole, ap token_to_text whole ∙ shown_agent body))
        ],
      ),
    )
