-- ===== src/Rules/Amending.antt =====
-- crates/core/src/rules.rs: `check_amend` and its parts, and what changes the question.
use cases.Prelude.{
  ◌+◌, String, Bool, true, false, not, ◌&&◌, ◌||◌, Option, none, some, List, [], ◌∷◌, ◌++◌, length,
  is_empty, no_text, contains, same_texts, ◌==◌,
}
use cases.Prelude.Int.{is_zero, eq_ℤ}
use cases.Error.{invalid, Checked, ok, ◌>>◌, refuse, require}
use cases.Record.{Amend}
use cases.Case.{Case}
use cases.Rules.Fields.{
  set_blank, check_blank, check_new, check_labels, check_kind_fields, check_briefing_fields,
  check_recommend, check_rows,
}

abbrev pub is_some {ℓ} : {A : Type ℓ} → Option A → Bool
is_some none = false
is_some (some a) = true

unfoldable pub check_amend_text : Amend → Checked
check_amend_text amend = do
  refuse (set_blank amend.title) invalid
  refuse (set_blank amend.body) invalid
  refuse (set_blank amend.context) invalid

unfoldable pub check_amend_fields : Amend → Case → Checked
check_amend_fields amend c = do
  check_kind_fields c.kind amend.options amend.rows
  check_briefing_fields c.kind (is_some amend.landed) amend.left_out
  check_amend_text amend
  check_blank amend.options
  check_rows amend.rows c.question.rows
  check_blank amend.links

-- The loop of `check_dropped_links`, with the links before the one it is at.
unfoldable pub check_dropped_from : List String → List String → Amend → List String → Checked
check_dropped_from before [] amend have = ok tt
check_dropped_from before (link ∷ rest) amend have = do
  refuse (contains before link) invalid
  require (contains have link) invalid
  refuse (contains amend.links link) invalid
  check_dropped_from (before ++ link ∷ []) rest amend have

unfoldable pub check_dropped_links : Amend → List String → Checked
unfolding check_dropped_from
check_dropped_links amend have = check_dropped_from [] amend.drop_links amend have

unfoldable pub check_amend_against : Amend → Case → Checked
check_amend_against amend c = do
  check_new amend.options c.question.options
  check_recommend c.kind amend.recommend (length c.question.options + length amend.options)
  check_new amend.links c.question.links
  check_dropped_links amend c.question.links
  check_labels amend.labels c.question.labels

unfoldable pub changes_lists : Amend → Bool
changes_lists amend =
    not (is_empty amend.links) || not (is_empty amend.drop_links) || not (is_empty amend.labels)

abbrev pub differs : Option Bool → Bool → Bool
differs none b = false
differs (some true) b = not b
differs (some false) b = b

unfoldable pub changes_rest : Amend → Case → Bool
changes_rest amend c =
    (not (no_text amend.title) && not (amend.title == c.question.title))
    || (not (no_text amend.context) && not (amend.context == c.question.context))
    || (not (is_zero amend.recommend) && not (eq_ℤ amend.recommend c.question.recommend))
    || differs amend.landed c.question.landed

-- Whether an amend changes the question, and so moves the case's `amend_seq`.
unfoldable pub changes_question : Amend → Case → Bool
changes_question amend c =
    not (is_empty amend.options)
    || not (is_empty amend.rows)
    || (not (no_text amend.body) && not (amend.body == c.question.body))
    || (not (is_empty amend.left_out) && not (same_texts amend.left_out c.question.left_out))

unfoldable pub check_amend : Amend → Case → Checked
check_amend amend c = do
  check_amend_fields amend c
  check_amend_against amend c
  refuse (not (changes_question amend c) && not (changes_lists amend) && not (changes_rest amend c))
      invalid
