-- ===== src/Time/Eras.antt =====
-- crates/core/src/time.rs, `civil_from_days`: the year, the month and the day of a day of an era,
-- which is 400 years from the first of March of a year that 400 divides.
use cases.Prelude.{
  ℕ, zero, suc, ◌+◌, ◌-◌, ◌*◌, ◌/◌, ◌<◌, ◌≤◌, Bool, true, ◌&&◌, ◌≡◌, refl, leb, nat_eq, every,
  every_lem, if◌then◌else◌, arith, inl, inr, Bool-cases,
}
use mathlib.Core.Path.{subst}

-- The year of the era that a day of it is in, as `civil_of_era` has it, and the first day of a year.
unfoldable pub year_of : ℕ → ℕ
year_of d = (d - d / 1460 + d / 36524 - d / 146096) / 365

unfoldable pub first_of : ℕ → ℕ
first_of y = 365 * y + y / 4 - y / 100

numerator : ℕ → ℕ
numerator d = d - d / 1460 + d / 36524 - d / 146096

numerator_step : (d : ℕ) → d < 146096 → numerator d ≤ numerator (suc d)
unfolding numerator
numerator_step d h = omega arith

numerator_mono : (n d : ℕ) → d + n ≤ 146096 → numerator d ≤ numerator (d + n)
unfolding numerator
numerator_mono zero d h = omega arith
numerator_mono (suc n) d h =
    omega (arith, numerator_mono n d (omega arith), numerator_step (d + n) (omega arith))

unfoldable pub last_of : ℕ → ℕ
unfolding first_of
last_of y = if leb 399 y then 146096 else first_of (suc y) - 1

year_edges : ℕ → Bool
unfolding last_of first_of year_of
year_edges y = nat_eq (year_of (first_of y)) y && nat_eq (year_of (last_of y)) y

edges : every year_edges 400 0 ≡ true
unfolding every year_edges
edges = refl

-- The years of an era follow each other, so a day of it falls in one.
year_found :
    (n d : ℕ) → d < first_of n → (y : ℕ) × (y < n) × (first_of y ≤ d) × (d < first_of (suc y))
unfolding first_of
year_found zero d h = absurd (omega arith)
year_found (suc n) d h = elim (Bool-cases (leb (first_of n) d)) [
  | inl e ↦ (n, omega arith, ground arith, h)
  | inr e ↦
      (let (y, small, low, high) = year_found n d (ground arith) in (y, omega arith, low, high))
]

year_held : (d : ℕ) → d ≤ 146096 → (y : ℕ) × (y ≤ 399) × (first_of y ≤ d) × (d ≤ last_of y)
unfolding last_of
year_held d h = elim (Bool-cases (leb 146096 d)) [
  | inl e ↦ (399, omega arith, unfold first_of in ground arith, ground arith)
  | inr e ↦
      (let (y, small, low, high) = year_found 400 d (unfold first_of in ground arith) in
        (y, omega arith, low, ground arith))
]

year_squeezed :
    (low d high : ℕ)
    → low ≤ d
    → d ≤ high
    → high ≤ 146096
    → (year_of low ≤ year_of d) × (year_of d ≤ year_of high)
unfolding year_of numerator
year_squeezed low d high p q r =
    let below : numerator low ≤ numerator d =
      subst (λ e. numerator low ≤ numerator e) (omega arith)
        (numerator_mono (d - low) low (omega arith)) in
    let above : numerator d ≤ numerator high =
      subst (λ e. numerator d ≤ numerator e) (omega arith)
        (numerator_mono (high - d) d (omega arith)) in
    (omega arith, omega arith)

-- The year that `civil_of_era` takes a day to be in is the one that holds it.
pub year_of_lem :
    (d : ℕ)
    → d ≤ 146096
    → (year_of d ≤ 399) × (first_of (year_of d) ≤ d) × (d ≤ last_of (year_of d))
unfolding year_edges
year_of_lem d h =
    let (y, small, low, high) = year_held d h in
    let test = every_lem year_edges 400 0 y edges (omega arith) (omega arith) in
    let squeezed =
      year_squeezed (first_of y) d (last_of y) low high
        (unfold last_of in unfold first_of in ground arith) in
    let same : y ≡ year_of d = ground arith in
    subst (λ y. (y ≤ 399) × (first_of y ≤ d) × (d ≤ last_of y)) same (small, low, high)
