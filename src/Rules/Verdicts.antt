-- ===== src/Rules/Verdicts.antt =====
-- crates/core/src/rules.rs: what the loops of `check_verdicts` and `check_briefing` leave.
use cases.Prelude.{
  ℕ, String, true, false, ◌||◌, ◌≡◌, ◌⊎◌, refl, List, [], ◌∷◌, ◌++◌, All, all, contains, arith,
  eq_iff,
}
use mathlib.Core.Path.{subst}
use cases.Prelude.Int.{ℤ, eq_ℤ}
use cases.Error.{ok}
use cases.Record.{Answer, ApprovalRow, RowVerdict}
use cases.Rules.Fields.{names_option}
use cases.Rules.Distinct.{IsNodup, IsApart, ids, has_id-ids, IsApart-last}
use cases.Rules.Answering.{
  has_verdict, check_verdicts_from, check_verdicts, contains_ℤ, check_file_from,
}

abbrev pub verdict_ids : List RowVerdict → List String
verdict_ids [] = []
verdict_ids (v ∷ vs) = v.id ∷ verdict_ids vs

abbrev pub IsVerdict : String → Type 0
IsVerdict s = (s ≡ "approve") ⊎ ((s ≡ "hold") ⊎ (s ≡ "reject"))

-- Each row has one verdict, and nothing else has any.
pub record AreVerdicts (verdicts : List RowVerdict) (rows : List ApprovalRow) : Type 0 where
  pub words : All (λ (v : RowVerdict). IsVerdict v.verdict) verdicts
  pub known : All (λ (v : RowVerdict). contains (ids rows) v.id ≡ true) verdicts
  pub once : IsNodup (verdict_ids verdicts)
  pub covered : All (λ (row : ApprovalRow). contains (verdict_ids verdicts) row.id ≡ true) rows

-- No number is given twice.
abbrev pub IsNodupInt : List ℤ → Type 0
IsNodupInt [] = Unit
IsNodupInt (n ∷ ns) = (contains_ℤ ns n ≡ false) × IsNodupInt ns

verdict_ids-append :
    (xs ys : List RowVerdict) → verdict_ids (xs ++ ys) ≡ verdict_ids xs ++ verdict_ids ys
verdict_ids-append [] ys = refl
verdict_ids-append (x ∷ xs) ys = rw (verdict_ids-append xs ys)

has_verdict-ids :
    (vs : List RowVerdict) (id : String) → has_verdict vs id ≡ contains (verdict_ids vs) id
has_verdict-ids [] id = refl
has_verdict-ids (v ∷ vs) id = ground (arith, has_verdict-ids vs id)

check_verdicts_from_passed :
    (before vs : List RowVerdict) (rows : List ApprovalRow)
    → check_verdicts_from before vs rows ≡ ok tt
    → All (λ (v : RowVerdict). IsVerdict v.verdict) vs
      × All (λ (v : RowVerdict). contains (ids rows) v.id ≡ true) vs
      × IsNodup (verdict_ids vs)
      × IsApart (verdict_ids before) (verdict_ids vs)
unfolding check_verdicts_from
check_verdicts_from_passed before [] rows h = (tt, tt, tt, tt)
check_verdicts_from_passed before (v ∷ rest) rows h =
    let ih = check_verdicts_from_passed (before ++ v ∷ []) rest rows (ground arith) in
    let last =
      IsApart-last (verdict_ids before) v.id (verdict_ids rest)
        (subst (λ l. IsApart l (verdict_ids rest)) (verdict_ids-append before (v ∷ [])) ih.3) in
    (
      (
        ground
            (arith, eq_iff v.verdict "approve", eq_iff v.verdict "hold", eq_iff v.verdict "reject"),
        ih.0,
      ),
      (rw (← has_id-ids) (ground arith), ih.1),
      (last.1, ih.2),
      (rw (← has_verdict-ids) (ground arith), last.0),
    )

all_covered :
    (vs : List RowVerdict) (rows : List ApprovalRow)
    → all (λ (row : ApprovalRow). has_verdict vs row.id) rows ≡ true
    → All (λ (row : ApprovalRow). contains (verdict_ids vs) row.id ≡ true) rows
all_covered vs [] h = tt
all_covered vs (row ∷ rows) h =
    (rw (← has_verdict-ids) (ground arith), all_covered vs rows (ground arith))

-- Verdicts that `check_verdicts` accepts give each row one.
pub check_verdicts_passed :
    (a : Answer) (rows : List ApprovalRow) → check_verdicts a rows ≡ ok tt → AreVerdicts a.rows rows
unfolding check_verdicts
check_verdicts_passed a rows h =
    let p = check_verdicts_from_passed [] a.rows rows (ground arith) in
    record {
      words = p.0;
      known = p.1;
      once = p.2;
      covered = all_covered a.rows rows (ground arith);
    }

abbrev IsApartInt : List ℤ → List ℤ → Type 0
IsApartInt have ns = All (λ n. contains_ℤ have n ≡ false) ns

eq_ℤ_sym : (m n : ℤ) → eq_ℤ m n ≡ eq_ℤ n m
eq_ℤ_sym m n = ground arith

contains_ℤ-append :
    (xs ys : List ℤ) (n : ℤ) → contains_ℤ (xs ++ ys) n ≡ (contains_ℤ xs n || contains_ℤ ys n)
contains_ℤ-append [] ys n = refl
contains_ℤ-append (x ∷ xs) ys n = ground (arith, contains_ℤ-append xs ys n)

IsApartInt-last :
    (xs : List ℤ) (x : ℤ) (ys : List ℤ)
    → IsApartInt (xs ++ x ∷ []) ys
    → IsApartInt xs ys × (contains_ℤ ys x ≡ false)
IsApartInt-last xs x [] h = (tt, refl)
IsApartInt-last xs x (y ∷ ys) h =
    let rest = IsApartInt-last xs x ys h.1 in
    let first = h.0 in
    (
      (ground (arith, contains_ℤ-append xs (x ∷ []) y), rest.0),
      ground (arith, contains_ℤ-append xs (x ∷ []) y, eq_ℤ_sym x y, rest.1),
    )

check_file_from_passed :
    (before ns : List ℤ) (items : ℕ)
    → check_file_from before ns items ≡ ok tt
    → All (λ n. names_option n items ≡ true) ns × IsNodupInt ns × IsApartInt before ns
unfolding check_file_from
check_file_from_passed before [] items h = (tt, tt, tt)
check_file_from_passed before (n ∷ rest) items h =
    let ih = check_file_from_passed (before ++ n ∷ []) rest items (ground arith) in
    let last = IsApartInt-last before n rest ih.2 in
    ((ground arith, ih.0), (last.1, ih.1), (ground arith, last.0))

-- The numbers that a briefing's answer files are those of items, each given once.
pub check_file_passed :
    (ns : List ℤ) (items : ℕ)
    → check_file_from [] ns items ≡ ok tt
    → All (λ n. names_option n items ≡ true) ns × IsNodupInt ns
check_file_passed ns items h = let p = check_file_from_passed [] ns items h in (p.0, p.1)
