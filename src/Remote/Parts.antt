-- ===== src/Remote/Parts.antt =====
-- crates/store-remote/src/shape.rs: `split_port` and the brackets of a host cut text into parts that
-- make it up.
use cases.Prelude.{
  ℕ, ◌≡◌, Option, none, some, List, [], ◌∷◌, ◌++◌, nat_eq, arith, Bool-cases, Option-cases, inl,
  inr,
}
use mathlib.Core.List.{append-nil}
use cases.Remote.{split_colon, split_bracket, split_port, before_bracket, starts_with, port_after}

-- The text of a port that may follow a host.
abbrev pub port_text : Option (List ℕ) → List ℕ
port_text none = []
port_text (some port) = b':' ∷ port

split_colon_parts : (cs : List ℕ) (a b : List ℕ) → split_colon cs ≡ some (a, b) → cs ≡ a ++ b':' ∷ b
unfolding split_colon
split_colon_parts [] a b h = absurd (cc h)
split_colon_parts (c ∷ cs) a b h = elim (Bool-cases (nat_eq c b':')) [
  | inl e ↦ ground arith
  | inr e ↦ elim (Option-cases (split_colon cs)) [
    | inl f ↦ absurd (ground arith)
    | inr ((x, y), f) ↦ let ih = split_colon_parts cs x y f in ground arith
  ]
]

split_bracket_parts : (cs : List ℕ) (a b : List ℕ) → split_bracket cs ≡ some (a, b) → cs ≡ a ++ b
unfolding split_bracket
split_bracket_parts [] a b h = absurd (cc h)
split_bracket_parts (c ∷ cs) a b h = elim (Bool-cases (nat_eq c b']')) [
  | inl e ↦ ground arith
  | inr e ↦ elim (Option-cases (split_bracket cs)) [
    | inl f ↦ absurd (ground arith)
    | inr ((x, y), f) ↦ let ih = split_bracket_parts cs x y f in ground arith
  ]
]

pub before_bracket_parts :
    (cs : List ℕ) (inner : List ℕ) → before_bracket cs ≡ some inner → cs ≡ inner ++ b']' ∷ []
unfolding before_bracket
before_bracket_parts [] inner h = absurd (cc h)
before_bracket_parts (c ∷ []) inner h = elim (Bool-cases (nat_eq c b']')) [
  | inl e ↦ ground arith
  | inr e ↦ absurd (ground arith)
]
before_bracket_parts (c ∷ d ∷ cs) inner h = elim (Option-cases (before_bracket (d ∷ cs))) [
  | inl f ↦ absurd (ground arith)
  | inr (rest, f) ↦ let ih = before_bracket_parts (d ∷ cs) rest f in ground arith
]

-- A host is its name and the text of its port.
pub split_port_parts :
    (host name : List ℕ) (port : Option (List ℕ))
    → split_port host ≡ some (name, port)
    → host ≡ name ++ port_text port
unfolding split_port
split_port_parts host name port h = elim (Bool-cases (starts_with b'[' host)) [
  | inl e ↦ elim (Option-cases (split_bracket host)) [
    | inl f ↦ absurd (ground arith)
    | inr ((x, y), f) ↦ let parts = split_bracket_parts host x y f in after x y parts (ground arith)
  ]
  | inr e ↦ elim (Option-cases (split_colon host)) [
    | inl f ↦ ground (arith, append-nil name)
    | inr ((x, y), f) ↦ let parts = split_colon_parts host x y f in ground arith
  ]
]
  where
    after :
        (x y : List ℕ)
        → host ≡ x ++ y
        → port_after (x, y) ≡ some (name, port)
        → host ≡ name ++ port_text port
    after x [] p h = ground (arith, append-nil name)
    after x (c ∷ y) p h = elim (Bool-cases (nat_eq c b':')) [
      | inl e ↦ ground arith
      | inr e ↦ absurd (ground arith)
    ]
