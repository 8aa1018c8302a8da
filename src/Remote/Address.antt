-- ===== src/Remote/Address.antt =====
-- crates/store-remote/src/shape.rs: what the name and the port of a host are, which `host_name` and
-- `is_port` take.
use cases.Prelude.{
  ℕ, ◌≤◌, ◌<◌, Bool, true, false, ◌||◌, ◌≡◌, refl, sym, ap, ◌⊎◌, inl, inr, Option, none, some, List,
  [], ◌∷◌, ◌++◌, nat_eq, any, all, All, arith, Bool-cases, Option-cases,
}
use mathlib.Core.Path.{subst}
use cases.Remote.{
  is_digit, is_upper, is_alphanumeric, is_hexdigit, lower, before_bracket, plain_name, is_host,
  host_name, value_of, is_port, port_fits,
}
use cases.Remote.Parts.{port_text, before_bracket_parts}

abbrev pub IsDigit : ℕ → Type 0
IsDigit c = (b'0' ≤ c) × (c ≤ b'9')

abbrev pub IsLetter : ℕ → Type 0
IsLetter c = (b'a' ≤ c) × (c ≤ b'z')

-- A digit, a letter in lower case, a dot or a dash.
abbrev pub IsNameChar : ℕ → Type 0
IsNameChar c = IsDigit c ⊎ IsLetter c ⊎ (c ≡ b'.') ⊎ (c ≡ b'-')

-- A digit, one of `a` to `f`, or a colon.
abbrev pub IsAddressChar : ℕ → Type 0
IsAddressChar c = IsDigit c ⊎ ((b'a' ≤ c) × (c ≤ b'f')) ⊎ (c ≡ b':')

-- The name of a host: of letters in lower case, digits, dots and dashes, the first a letter or a
-- digit; or an address in brackets.
pub data IsName : List ℕ → Type 0 where
  plain : {c : ℕ} {cs : List ℕ} → IsDigit c ⊎ IsLetter c → All IsNameChar cs → IsName (c ∷ cs)
  bracketed :
      (c : ℕ) (cs : List ℕ) → All IsAddressChar (c ∷ cs) → IsName (b'[' ∷ (c ∷ cs) ++ b']' ∷ [])

-- What follows the name: nothing, or a colon and the digits of a number below 65536, with a `+`
-- before them or without.
pub data IsPort : List ℕ → Type 0 where
  no_port : IsPort []
  numbered :
      {c : ℕ} {cs : List ℕ}
      → All IsDigit (c ∷ cs)
      → value_of 0 (c ∷ cs) < 65536
      → IsPort (b':' ∷ c ∷ cs)
  signed :
      {c : ℕ} {cs : List ℕ}
      → All IsDigit (c ∷ cs)
      → value_of 0 (c ∷ cs) < 65536
      → IsPort (b':' ∷ b'+' ∷ c ∷ cs)

char-IsLetter : (c : ℕ) → is_alphanumeric c ≡ true → is_upper c ≡ false → IsDigit c ⊎ IsLetter c
char-IsLetter c h small = elim (Bool-cases (is_digit c)) [
  | inl e ↦ inl (ground arith)
  | inr e ↦ inr (ground arith)
]

char-IsNameChar :
    (c : ℕ)
    → (is_alphanumeric c || (nat_eq c b'.' || nat_eq c b'-')) ≡ true
    → is_upper c ≡ false
    → IsNameChar c
char-IsNameChar c h small = elim (Bool-cases (is_alphanumeric c)) [
  | inl e ↦ elim (char-IsLetter c e small) [ inl d ↦ inl d | inr l ↦ inr (inl l) ]
  | inr e ↦ elim (Bool-cases (nat_eq c b'.')) [
    | inl d ↦ inr (inr (inl (ground arith)))
    | inr d ↦ inr (inr (inr (ground arith)))
  ]
]

char-IsAddressChar :
    (c : ℕ) → (is_hexdigit c || nat_eq c b':') ≡ true → is_upper c ≡ false → IsAddressChar c
char-IsAddressChar c h small = elim (Bool-cases (is_digit c)) [
  | inl e ↦ inl (ground arith)
  | inr e ↦ elim (Bool-cases (nat_eq c b':')) [
    | inl d ↦ inr (inr (ground arith))
    | inr d ↦ inr (inl (ground arith))
  ]
]

module _ (test : ℕ → Bool) (Is : ℕ → Type 0)
    (holds : (c : ℕ) → test c ≡ true → is_upper c ≡ false → Is c) where
  all-All : (cs : List ℕ) → all test cs ≡ true → any is_upper cs ≡ false → All Is cs
  all-All [] h small = tt
  all-All (c ∷ cs) h small =
      (holds c (ground arith) (ground arith), all-All cs (ground arith) (ground arith))

any-++ : (test : ℕ → Bool) (a b : List ℕ) → any test (a ++ b) ≡ (any test a || any test b)
any-++ test [] b = refl
any-++ test (c ∷ a) b = ground (arith, any-++ test a b)

inner-IsName :
    (inner : List ℕ)
    → is_host (b'[' ∷ inner ++ b']' ∷ []) (some inner) ≡ true
    → any is_upper inner ≡ false
    → IsName (b'[' ∷ inner ++ b']' ∷ [])
inner-IsName [] h small = absurd (cc h)
inner-IsName (c ∷ cs) h small = bracketed c cs (
    all-All (λ c. is_hexdigit c || nat_eq c b':') IsAddressChar char-IsAddressChar (c ∷ cs) h small)

plain-IsName : (name : List ℕ) → plain_name name ≡ true → any is_upper name ≡ false → IsName name
plain-IsName [] h small = absurd (cc h)
plain-IsName (c ∷ cs) h small =
    let start : is_alphanumeric c ≡ true = ground arith in
    let rest : all (λ c. is_alphanumeric c || (nat_eq c b'.' || nat_eq c b'-')) cs ≡ true =
      ground arith in
    plain (char-IsLetter c start (ground arith)) (
      all-All (λ c. is_alphanumeric c || (nat_eq c b'.' || nat_eq c b'-')) IsNameChar
        char-IsNameChar cs rest (ground arith))

-- A name without capitals that is taken as a host's is one.
pub host_name-IsName :
    (name : List ℕ) → host_name name ≡ true → any is_upper name ≡ false → IsName name
unfolding host_name
host_name-IsName [] h small = absurd (cc h)
host_name-IsName (c ∷ cs) h small = elim (Bool-cases (nat_eq c b'[')) [
  | inr e ↦ plain-IsName (c ∷ cs) (rw e at h) small
  | inl e ↦ elim (Option-cases (before_bracket cs)) [
    | inl f ↦ plain-IsName (c ∷ cs) (rw (e, f) at h) small
    | inr (inner, f) ↦
        let same : c ∷ cs ≡ b'[' ∷ inner ++ b']' ∷ [] =
          let rest = before_bracket_parts cs inner f in ground arith in
        let taken : is_host (c ∷ cs) (some inner) ≡ true = rw (e, f) at h in
        let small : any is_upper inner ≡ false =
          let whole = ap (any is_upper) same in ground (arith, any-++ is_upper inner (b']' ∷ [])) in
        subst IsName (sym same) (inner-IsName inner taken small)
  ]
]

digits-All : (cs : List ℕ) → all is_digit cs ≡ true → All IsDigit cs
digits-All [] h = tt
digits-All (c ∷ cs) h = (ground arith, digits-All cs (ground arith))

is_port-IsPort : (text : List ℕ) → is_port text ≡ true → IsPort (b':' ∷ text)
unfolding is_port
is_port-IsPort [] h = absurd (cc h)
is_port-IsPort (c ∷ []) h = elim (Bool-cases (nat_eq c b'+')) [
  | inl e ↦ absurd (ground arith)
  | inr e ↦ numbered (digits-All (c ∷ []) (ground arith)) (ground arith)
]
is_port-IsPort (c ∷ d ∷ cs) h = elim (Bool-cases (nat_eq c b'+')) [
  | inl e ↦
      let plus : b'+' ≡ c = ground arith in
      subst (λ c. IsPort (b':' ∷ c ∷ d ∷ cs)) plus
        (signed (digits-All (d ∷ cs) (ground arith)) (ground arith))
  | inr e ↦ numbered (digits-All (c ∷ d ∷ cs) (ground arith)) (ground arith)
]

-- A port that is taken is one.
pub port_fits-IsPort : (port : Option (List ℕ)) → port_fits port ≡ true → IsPort (port_text port)
port_fits-IsPort none h = no_port
port_fits-IsPort (some text) h = is_port-IsPort text h

-- Text that was put in lower case has no capitals, and so has the front of it.
pub lower-small : (cs : List ℕ) → any is_upper (lower cs) ≡ false
unfolding lower
lower-small [] = refl
lower-small (c ∷ cs) = let rest = lower-small cs in ground arith

pub front_small :
    (host name rest : List ℕ) → lower host ≡ host → host ≡ name ++ rest → any is_upper name ≡ false
front_small host name rest low same =
    let small = ap (any is_upper) low in
    let whole = ap (any is_upper) same in
    ground (arith, lower-small host, any-++ is_upper name rest)
