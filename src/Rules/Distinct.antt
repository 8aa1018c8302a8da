-- ===== src/Rules/Distinct.antt =====
-- crates/core/src/rules.rs: what the loops that look for a value given twice leave: `check_new`, and
-- the ids of `check_rows`.
use cases.Prelude.{
  String, true, false, ◌||◌, ◌≡◌, refl, List, [], ◌∷◌, ◌++◌, All, contains, ◌==◌, eq_iff, arith,
}
use mathlib.Core.Path.{subst}
use cases.Error.{ok}
use cases.Record.{ApprovalRow}
use cases.Rules.Fields.{
  check_new_from, check_new, check_row, check_rows_from, check_rows, has_id, row_id_fits, blank,
}

-- No text is given twice.
abbrev pub IsNodup : List String → Type 0
IsNodup [] = Unit
IsNodup (x ∷ xs) = (contains xs x ≡ false) × IsNodup xs

-- None of the texts is one of the others.
abbrev pub IsApart : List String → List String → Type 0
IsApart have xs = All (λ x. contains have x ≡ false) xs

pub contains-append :
    (xs ys : List String) (s : String) → contains (xs ++ ys) s ≡ (contains xs s || contains ys s)
contains-append [] ys s = refl
contains-append (x ∷ xs) ys s = ground (arith, contains-append xs ys s)

eq_sym : (s t : String) → (s == t) ≡ false → (t == s) ≡ false
eq_sym s t h = ground (arith, eq_iff s t, eq_iff t s)

-- Texts that are apart from `xs ++ x ∷ []` are apart from `xs`, and none of them is `x`.
pub IsApart-last :
    (xs : List String) (x : String) (ys : List String)
    → IsApart (xs ++ x ∷ []) ys
    → IsApart xs ys × (contains ys x ≡ false)
IsApart-last xs x [] h = (tt, refl)
IsApart-last xs x (y ∷ ys) h =
    let rest = IsApart-last xs x ys h.1 in
    (
      ground (arith, contains-append xs (x ∷ []) y, rest),
      ground (arith, contains-append xs (x ∷ []) y, eq_sym x y, rest),
    )

check_new_from_passed :
    (before added have : List String)
    → check_new_from before added have ≡ ok tt
    → IsNodup added × IsApart before added × IsApart have added
unfolding check_new_from
check_new_from_passed before [] have h = (tt, tt, tt)
check_new_from_passed before (x ∷ rest) have h =
    let ih = check_new_from_passed (before ++ x ∷ []) rest have (ground arith) in
    let last = IsApart-last before x rest ih.1 in
    ((last.1, ih.0), (ground arith, last.0), (ground arith, ih.2))

-- Values that `check_new` accepts are each given once, and the case has none of them.
pub check_new_passed :
    (added have : List String) → check_new added have ≡ ok tt → IsNodup added × IsApart have added
unfolding check_new
check_new_passed added have h = let p = check_new_from_passed [] added have h in (p.0, p.2)

contains_first :
    (x : String) (xs ys : List String)
    → IsApart (x ∷ xs) ys
    → (contains ys x ≡ false) × IsApart xs ys
contains_first x xs [] h = (refl, tt)
contains_first x xs (y ∷ ys) h =
    let rest = contains_first x xs ys h.1 in
    (ground (arith, eq_sym x y, rest), (ground arith, rest.1))

-- Lists without repetition that are apart make one.
pub IsNodup-append :
    (xs ys : List String) → IsNodup xs → IsNodup ys → IsApart xs ys → IsNodup (xs ++ ys)
IsNodup-append [] ys p q r = q
IsNodup-append (x ∷ xs) ys p q r =
    let first = contains_first x xs ys r in
    (ground (arith, contains-append xs ys x, first), IsNodup-append xs ys p.1 q first.1)

abbrev pub ids : List ApprovalRow → List String
ids [] = []
ids (row ∷ rows) = row.id ∷ ids rows

pub has_id-ids : (rows : List ApprovalRow) (id : String) → has_id rows id ≡ contains (ids rows) id
has_id-ids [] id = refl
has_id-ids (row ∷ rows) id = ground (arith, has_id-ids rows id)

pub ids-append : (xs ys : List ApprovalRow) → ids (xs ++ ys) ≡ ids xs ++ ids ys
ids-append [] ys = refl
ids-append (x ∷ xs) ys = rw (ids-append xs ys)

-- What `check_row` asks of a row alone.
pub record IsFitting (row : ApprovalRow) : Type 0 where
  pub id : row_id_fits row.id ≡ true
  pub label : blank row.label ≡ false
  pub script : blank row.script ≡ false
  pub link : blank row.link ≡ false
  pub by : (row.by == "" || row.by == "human") ≡ true

check_row_passed :
    (before : List ApprovalRow) (row : ApprovalRow) (have : List ApprovalRow)
    → check_row before row have ≡ ok tt
    → IsFitting row × (contains (ids before) row.id ≡ false) × (contains (ids have) row.id ≡ false)
unfolding check_row
check_row_passed before row have h =
    let id : contains (ids before ++ ids have) row.id ≡ false =
      rw (← ids-append before have) (rw (← has_id-ids) (ground arith)) in
    (
      ground arith,
      ground (arith, contains-append (ids before) (ids have) row.id),
      ground (arith, contains-append (ids before) (ids have) row.id),
    )

check_rows_from_passed :
    (before rows have : List ApprovalRow)
    → check_rows_from before rows have ≡ ok tt
    → All IsFitting rows
      × IsNodup (ids rows)
      × IsApart (ids before) (ids rows)
      × IsApart (ids have) (ids rows)
unfolding check_rows_from
check_rows_from_passed before [] have h = (tt, tt, tt, tt)
check_rows_from_passed before (row ∷ rest) have h =
    let first = check_row_passed before row have (ground arith) in
    let ih = check_rows_from_passed (before ++ row ∷ []) rest have (ground arith) in
    let last =
      IsApart-last (ids before) row.id (ids rest)
        (subst (λ l. IsApart l (ids rest)) (ids-append before (row ∷ [])) ih.2) in
    ((first.0, ih.0), (last.1, ih.1), (first.1, last.0), (first.2, ih.3))

-- Rows that `check_rows` accepts fit one by one, and each has an id of its own in the case.
pub check_rows_passed :
    (rows have : List ApprovalRow)
    → check_rows rows have ≡ ok tt
    → All IsFitting rows × IsNodup (ids rows) × IsApart (ids have) (ids rows)
unfolding check_rows
check_rows_passed rows have h = let p = check_rows_from_passed [] rows have h in (p.0, p.1, p.3)
