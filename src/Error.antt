-- ===== src/Error.antt =====
-- crates/core/src/error.rs: the categories that the contract compares errors by. An `Error` is
-- its category: the message is for people, and no code under the core reads it back.
use cases.Prelude.{
  String, Bool, Option, none, some, ◌==◌, if◌then◌else◌, true, false, ◌≡◌, refl, ap, ◌⊎◌, inl, inr,
}

pub data Category : Type 0 where
  unknown author malformed invalid transition stale no_open : Category

unfoldable pub as_str : Category → String
as_str Category.unknown = "unknown"
as_str Category.author = "author"
as_str Category.malformed = "malformed"
as_str Category.invalid = "invalid"
as_str Category.transition = "transition"
as_str Category.stale = "stale"
as_str Category.no_open = "no-open"

unfoldable pub from_name : String → Option Category
from_name name =
    if name == "unknown"
    then some Category.unknown
    else if name == "author"
    then some Category.author
    else if name == "malformed"
    then some Category.malformed
    else if name == "invalid"
    then some Category.invalid
    else if name == "transition"
    then some Category.transition
    else if name == "stale"
    then some Category.stale
    else if name == "no-open"
    then some Category.no_open
    else none

pub data Result {ℓ} (A : Type ℓ) : Type ℓ where
  ok : A → Result A
  err : Category → Result A

-- What a check gives: `Result<(), Error>`.
abbrev pub Checked : Type 0
Checked = Result (Unit {0})

infixl 10 ◌>>=◌ ◌>>◌
abbrev pub ◌>>=◌ {ℓ κ} : {A : Type ℓ} {B : Type κ} → Result A → (A → Result B) → Result B
ok a >>= f = f a
err e >>= f = err e

abbrev pub ◌>>◌ {ℓ} : {B : Type ℓ} → Checked → Result B → Result B
m >> k = m >>= λ _. k

-- `if b { return Err(e) }`, and its opposite.
abbrev pub refuse : Bool → Category → Checked
refuse true e = err e
refuse false e = ok tt

abbrev pub require : Bool → Category → Checked
require true e = ok tt
require false e = err e

pub Result-cases {ℓ} :
    {A : Type ℓ} (r : Result A) → ((a : A) × (r ≡ ok a)) ⊎ ((e : Category) × (r ≡ err e))
Result-cases (ok a) = inl (a, refl)
Result-cases (err e) = inr (e, refl)

abbrev or_else {ℓ} : {A : Type ℓ} → A → Result A → A
or_else a (ok b) = b
or_else a (err e) = a

pub ok-injective {ℓ} : {A : Type ℓ} {a b : A} → ok a ≡ ok b → a ≡ b
ok-injective {a = a} h = ap (or_else a) h
