-- ===== src/Listening/Lines.antt =====
-- crates/core/src/listening.rs: what a doing line is.
use cases.Prelude.{
  ℕ, ◌≤◌, Bool, true, false, not, ◌&&◌, ◌≡◌, refl, ap, ◌∙◌, List, [], ◌∷◌, ◌++◌, all, any, length,
  is_empty, arith, some, if◌then◌else◌, Bool-cases, inl, inr,
}
use mathlib.Core.Path.{subst}
use cases.Error.{ok}
use cases.Rules.Fields.{is_white_space}
use cases.Listening.{trim_start, trim_end, trim, leaves_line, doing_line, doing_max}

abbrev pub starts_plain : List ℕ → Bool
starts_plain [] = true
starts_plain (c ∷ text) = not (is_white_space c)

abbrev pub ends_plain : List ℕ → Bool
ends_plain [] = true
ends_plain (c ∷ []) = not (is_white_space c)
ends_plain (c ∷ d ∷ text) = ends_plain (d ∷ text)

trim_start_lem :
    (text : List ℕ)
    → (space : List ℕ) × (text ≡ space ++ trim_start text)
      × (all is_white_space space ≡ true)
      × (starts_plain (trim_start text) ≡ true)
unfolding trim_start
trim_start_lem [] = ([], refl, refl, refl)
trim_start_lem (c ∷ text) = elim (Bool-cases (is_white_space c)) [
  | inl e ↦
      let (space, split, white, plain) = trim_start_lem text in
      (c ∷ space, rw e (ap (λ t. c ∷ t) split), ground arith, rw e plain)
  | inr e ↦ ([], rw e refl, refl, rw e (rw e refl))
]

-- One character more before a text that is trimmed at its end.
ended :
    (c : ℕ) (text rest space : List ℕ)
    → text ≡ rest ++ space
    → all is_white_space space ≡ true
    → ends_plain rest ≡ true
    → (space' : List ℕ) × (c ∷ text
        ≡ (if is_white_space c && is_empty rest then [] else c ∷ rest) ++ space')
      × (all is_white_space space' ≡ true)
      × (ends_plain (if is_white_space c && is_empty rest then [] else c ∷ rest) ≡ true)
ended c text [] space split white plain = elim (Bool-cases (is_white_space c)) [
  | inl e ↦ (c ∷ space, rw e (ap (λ t. c ∷ t) split), ground arith, rw e refl)
  | inr e ↦ (space, rw e (ap (λ t. c ∷ t) split), white, rw e (rw e refl))
]
ended c text (d ∷ rest) space split white plain = elim (Bool-cases (is_white_space c)) [
  | inl e ↦ (space, rw e (ap (λ t. c ∷ t) split), white, rw e plain)
  | inr e ↦ (space, rw e (ap (λ t. c ∷ t) split), white, rw e plain)
]

trim_end_lem :
    (text : List ℕ)
    → (space : List ℕ) × (text ≡ trim_end text ++ space)
      × (all is_white_space space ≡ true)
      × (ends_plain (trim_end text) ≡ true)
unfolding trim_end
trim_end_lem [] = ([], refl, refl, refl)
trim_end_lem (c ∷ text) = let p = trim_end_lem text in ended c text (trim_end text) p.0 p.1 p.2 p.3

trim_end-starts : (text : List ℕ) → starts_plain text ≡ true → starts_plain (trim_end text) ≡ true
unfolding trim_end
trim_end-starts [] p = refl
trim_end-starts (c ∷ text) p = ground arith

-- Trimmed text has nothing to trim.
trim_start-plain : (text : List ℕ) → starts_plain text ≡ true → trim_start text ≡ text
unfolding trim_start
trim_start-plain [] p = refl
trim_start-plain (c ∷ text) p = ground arith

trim_end-plain : (text : List ℕ) → ends_plain text ≡ true → trim_end text ≡ text
unfolding trim_end
trim_end-plain [] p = refl
trim_end-plain (c ∷ []) p = ground arith
trim_end-plain (c ∷ d ∷ text) p = rw (trim_end-plain (d ∷ text) p) (ground arith)

pub record IsLine (line : List ℕ) : Type 0 where
  pub written : is_empty line ≡ false
  pub starts : starts_plain line ≡ true
  pub ends : ends_plain line ≡ true
  pub one_line : any leaves_line line ≡ false
  pub short : length line ≤ doing_max

doing_line_passed :
    (text : List ℕ) {line : List ℕ}
    → doing_line text ≡ ok (some line)
    → (trim text ≡ line)
      × (is_empty line ≡ false)
      × (any leaves_line line ≡ false)
      × (length line ≤ doing_max)
unfolding doing_line
doing_line_passed text h = (ground arith, ground arith, ground arith, ground arith)

-- A doing line that is accepted is the text with the white space at both ends taken off, and no
-- more: it is not empty, starts and ends with a character that is not white space, breaks no line
-- and sets no direction, and has at most 80 characters.
pub doing_line-IsLine :
    (text : List ℕ) {line : List ℕ}
    → doing_line text ≡ ok (some line)
    → IsLine line
      × ((front : List ℕ) × (back : List ℕ) × (text ≡ front ++ (line ++ back))
          × (all is_white_space front ≡ true)
          × (all is_white_space back ≡ true))
unfolding trim
doing_line-IsLine text {line = line} h =
    let p = doing_line_passed text {line = line} h in
    let (front, split, white, plain) = trim_start_lem text in
    let (back, split', white', plain') = trim_end_lem (trim_start text) in
    let starts = trim_end-starts (trim_start text) plain in
    (
      record {
        written = p.1;
        starts = subst (λ l. starts_plain l ≡ true) p.0 starts;
        ends = subst (λ l. ends_plain l ≡ true) p.0 plain';
        one_line = p.2;
        short = p.3;
      },
      (
        front,
        back,
        subst (λ l. text ≡ front ++ (l ++ back)) p.0 (split ∙ ap (λ t. front ++ t) split'),
        white,
        white',
      ),
    )

-- A line that is not empty, has no white space at its ends, breaks no line and sets no direction,
-- and has at most 80 characters is accepted as a doing line, and kept as it is.
pub doing_line_kept : (line : List ℕ) → IsLine line → doing_line line ≡ ok (some line)
unfolding doing_line trim
doing_line_kept line l =
    let same : trim_end (trim_start line) ≡ line =
      ap trim_end (trim_start-plain line l.starts) ∙ trim_end-plain line l.ends in
    ground (arith, same)
