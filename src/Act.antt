-- ===== src/Act.antt =====
-- Methods on `&mut Case` that may fail. What was written before a failure stays written, so the
-- case comes back beside the error too.
use cases.Error.{Result, ok, err}
use cases.Case.{Case}

abbrev pub Act {ℓ} : Type ℓ → Type ℓ
Act A = Case → Result A × Case

-- What a handler gives.
abbrev pub Taken : Type 0
Taken = Act (Unit {0})

module _ {ℓ} {A : Type ℓ} where
  abbrev pub pure : A → Act A
  pure a c = (ok a, c)

  -- `f()?` for a function that only reads.
  abbrev pub lift : Result A → Act A
  lift r c = (r, c)

abbrev pub get : Act Case
get c = (ok c, c)

abbrev pub modify : (Case → Case) → Taken
modify f c = (ok tt, f c)

module _ {ℓ κ} {A : Type ℓ} {B : Type κ} where
  abbrev pub continue : Result A → (A → Act B) → Act B
  continue (ok a) f c = f a c
  continue (err e) f c = (err e, c)

  infixl 10 ◌>>=◌
  abbrev pub ◌>>=◌ : Act A → (A → Act B) → Act B
  ◌>>=◌ m f c = continue (m c).0 f (m c).1

infixl 10 ◌>>◌
abbrev pub ◌>>◌ {ℓ} : {B : Type ℓ} → Taken → Act B → Act B
m >> k = m >>= λ _. k
