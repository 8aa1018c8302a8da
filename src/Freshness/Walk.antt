-- ===== src/Freshness/Walk.antt =====
-- crates/core/src/freshness.rs: the walk over the states that a case passed.
use cases.Prelude.{
  ℕ, ◌+◌, ◌≤◌, true, false, ◌≡◌, refl, Option, none, some, List, [], ◌∷◌, length, arith, ltb,
  if◌then◌else◌, inl, inr, Bool-cases,
}
use mathlib.Core.Path.{subst, ap}
use cases.Names.{State, state_eq}
use cases.Freshness.{Since, states, contains_state, walk}

-- No state is given twice.
abbrev IsNodup : List State → Type 0
IsNodup [] = Unit
IsNodup (s ∷ ss) = (contains_state ss s ≡ false) × IsNodup ss

abbrev count : List State → State → ℕ
count [] s = 0
count (t ∷ ts) s = (if state_eq t s then 1 else 0) + count ts s

count-absent : (l : List State) (s : State) → contains_state l s ≡ false → count l s ≡ 0
count-absent [] s h = refl
count-absent (t ∷ ts) s h = ground (arith, count-absent ts s)

state_eq_same : (s t : State) → state_eq s t ≡ true → s ≡ t
state_eq_same s t h = ground arith

count-IsNodup : (l : List State) → IsNodup l → (s : State) → count l s ≤ 1
count-IsNodup [] n s = omega arith
count-IsNodup (t ∷ ts) n s = elim (Bool-cases (state_eq t s)) [
  | inl e ↦ ground (
    arith,
    count-absent ts s (subst (λ s. contains_state ts s ≡ false) (state_eq_same t s e) n.0),
  )
  | inr e ↦ ground (arith, count-IsNodup ts n.1 s)
]

abbrev count_all : List State → ℕ
count_all l =
    count l State.open_
    + count l State.answered
    + count l State.picked_up
    + count l State.closed
    + count l State.withdrawn
    + count l State.parked
    + count l State.sent

length-count : (l : List State) → length l ≡ count_all l
length-count [] = refl
length-count (s ∷ ss) = ground (arith, length-count ss)

-- There are seven states, so at most seven are given once each.
length-IsNodup : (l : List State) → IsNodup l → length l ≤ states
length-IsNodup l n =
    let bound = count-IsNodup l n in
    omega (
      arith,
      length-count l,
      bound State.open_,
      bound State.answered,
      bound State.picked_up,
      bound State.closed,
      bound State.withdrawn,
      bound State.parked,
      bound State.sent,
    )

-- The walk ends without a write past the end of the array.
walk_ends :
    (left : List State) (at : State) (rest : List (Option State))
    → IsNodup (at ∷ left)
    → (s : Since) × (walk left (some at) rest ≡ some s)
unfolding walk
walk_ends left at [] n = (Since.moved, refl)
walk_ends left at (none ∷ rest) n = (Since.changed, refl)
walk_ends left at (some next ∷ rest) n = elim (Bool-cases (state_eq at next)) [
  | inl e ↦ let p = walk_ends left at rest n in (p.0, ground arith)
  | inr e ↦ elim (Bool-cases (contains_state left next)) [
    | inl f ↦ (Since.changed, ground arith)
    | inr f ↦
        let room : ltb (length left) states ≡ true = ground (arith, length-IsNodup (at ∷ left) n) in
        let p = walk_ends (at ∷ left) next rest (ground arith, n) in (p.0, ground arith)
  ]
]

-- A state's own repetitions at the front are not a return to it.
abbrev pub drop_same : State → List State → List State
drop_same s [] = []
drop_same s (t ∷ ts) = if state_eq s t then drop_same s ts else t ∷ ts

-- No state comes back once it is left.
abbrev pub NoReturn : List State → Type 0
NoReturn [] = Unit
NoReturn (s ∷ ss) = (contains_state (drop_same s ss) s ≡ false) × NoReturn ss

abbrev pub all_given : List State → List (Option State)
all_given [] = []
all_given (s ∷ ss) = some s ∷ all_given ss

abbrev IsApart : List State → List State → Type 0
IsApart left ss = (t : State) → contains_state left t ≡ true → contains_state ss t ≡ false

state_eq_sym : (s t : State) → state_eq s t ≡ state_eq t s
state_eq_sym s t = ground arith

contains-drop_same :
    (s t : State) (ss : List State)
    → state_eq s t ≡ false
    → contains_state (drop_same s ss) t ≡ false
    → contains_state ss t ≡ false
contains-drop_same s t [] n h = refl
contains-drop_same s t (x ∷ ss) n h = elim (Bool-cases (state_eq s x)) [
  | inl e ↦
      let ih = contains-drop_same s t ss n (ground arith) in
      ground (arith, ih, subst (λ x. state_eq x t ≡ false) (state_eq_same s x e) n)
  | inr e ↦ ground arith
]

contains_same :
    (left : List State) (s t : State)
    → contains_state left s ≡ false
    → contains_state left t ≡ true
    → state_eq s t ≡ false
contains_same left s t p q = elim (Bool-cases (state_eq s t)) [
  | inl e ↦
      absurd (ground (arith, subst (λ s. contains_state left s ≡ false) (state_eq_same s t e) p))
  | inr e ↦ e
]

walk_moved :
    (left : List State) (at : State) (rest : List (Option State))
    → walk left (some at) rest ≡ some Since.moved
    → (ss : List State) × (rest ≡ all_given ss)
      × NoReturn (at ∷ ss)
      × IsApart left (drop_same at ss)
unfolding walk
walk_moved left at [] h = ([], refl, (refl, tt), λ t p. refl)
walk_moved left at (none ∷ rest) h = absurd (ground arith)
walk_moved left at (some next ∷ rest) h = elim (Bool-cases (state_eq at next)) [
  | inl e ↦
      let (ss, given, kept, apart) = walk_moved left at rest (ground arith) in
      (
        next ∷ ss,
        ap (λ r. some next ∷ r) given,
        (ground (arith, kept.0), subst (λ s. NoReturn (s ∷ ss)) (state_eq_same at next e) kept),
        λ t p. ground (arith, apart t p),
      )
  | inr e ↦ elim (Bool-cases (contains_state left next)) [
    | inl f ↦ absurd (ground arith)
    | inr f ↦ elim (Bool-cases (ltb (length left) states)) [
      | inl room ↦
          let (ss, given, kept, apart) = walk_moved (at ∷ left) next rest (ground arith) in
          let others : (t : State)
              → contains_state (at ∷ left) t ≡ true
              → state_eq next t ≡ false
              → contains_state (next ∷ ss) t ≡ false =
            λ t p n. ground (arith, contains-drop_same next t ss n (apart t p)) in
          (
            next ∷ ss,
            ap (λ r. some next ∷ r) given,
            (ground (arith, others at (ground arith) (ground (arith, state_eq_sym next at))), kept),
            λ t p. ground (arith, others t (ground arith) (contains_same left next t f p)),
          )
      | inr full ↦ absurd (ground arith)
    ]
  ]
]

pub walk_first : (rest : List (Option State)) → (s : Since) × (walk [] none rest ≡ some s)
unfolding walk
walk_first [] = (Since.moved, refl)
walk_first (none ∷ rest) = (Since.changed, refl)
walk_first (some s ∷ rest) = walk_ends [] s rest (refl, tt)

pub walk_first_moved :
    (rest : List (Option State))
    → walk [] none rest ≡ some Since.moved
    → (ss : List State) × (rest ≡ all_given ss) × NoReturn ss
unfolding walk
walk_first_moved [] h = ([], refl, tt)
walk_first_moved (none ∷ rest) h = absurd (ground arith)
walk_first_moved (some s ∷ rest) h =
    let (ss, given, kept, apart) = walk_moved [] s rest h in
    (s ∷ ss, ap (λ r. some s ∷ r) given, kept)
