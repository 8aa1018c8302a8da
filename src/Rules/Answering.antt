-- ===== src/Rules/Answering.antt =====
-- crates/core/src/rules.rs: `check_answer` and its parts.
use cases.Prelude.{
  ℕ, String, Bool, false, not, ◌&&◌, ◌||◌, List, [], ◌∷◌, ◌++◌, ltb, length, is_empty, any, all,
  no_text, contains, ◌==◌, if◌then◌else◌,
}
use cases.Prelude.Int.{ℤ, pos, ltb_ℤ, is_zero, eq_ℤ}
use cases.Error.{invalid, Result, Checked, ok, err, ◌>>=◌, ◌>>◌, refuse, require}
use cases.Names.{Kind, kind_eq}
use cases.Record.{Answer, ApprovalRow, RowVerdict}
use cases.Case.{Case}
use cases.Rules.Fields.{blank, names_option, has_id}

-- The responses an answer to a kind takes.
unfoldable pub takes : Kind → List String
takes Kind.decision = "choice" ∷ "other" ∷ "drop" ∷ []
takes Kind.approval = "rows" ∷ "drop" ∷ []
takes Kind.signoff = "signoff" ∷ "drop" ∷ []
takes Kind.briefing = "briefing" ∷ "drop" ∷ []
takes Kind.stuck = "text" ∷ "drop" ∷ []
takes Kind.question = "text" ∷ "drop" ∷ []
takes Kind.fyi = "ack" ∷ "drop" ∷ []
takes Kind.message = []

unfoldable pub responses : Answer → List (String × Bool)
responses answer =
    ("choice", not (is_zero answer.choice))
    ∷ ("other", answer.other)
    ∷ ("rows", not (is_empty answer.rows))
    ∷ ("signoff", not (no_text answer.signoff))
    ∷ ("briefing", not (no_text answer.briefing))
    ∷ ("text", not (no_text answer.text))
    ∷ ("drop", answer.drop)
    ∷ ("ack", answer.ack)
    ∷ []

unfoldable pub given : List (String × Bool) → List String
given [] = []
given ((field, set) ∷ rest) = if set then field ∷ given rest else given rest

unfoldable pub check_responses : Answer → Kind → Result ℕ
unfolding takes responses given
check_responses answer kind = do
  let fields = given (responses answer)
  refuse (any (λ field. not (contains (takes kind) field)) fields) invalid
  refuse (is_empty fields) invalid
  ok (length fields)

unfoldable pub check_choice : Answer → ℕ → ℕ → Checked
unfolding names_option
check_choice answer count options = do
  refuse (ltb 1 count) invalid
  if answer.other
      then refuse (blank answer.note) invalid
      else require (names_option answer.choice options) invalid

abbrev pub has_verdict : List RowVerdict → String → Bool
has_verdict [] id = false
has_verdict (v ∷ vs) id = v.id == id || has_verdict vs id

unfoldable pub check_verdicts_from : List RowVerdict → List RowVerdict → List ApprovalRow → Checked
check_verdicts_from before [] rows = ok tt
check_verdicts_from before (verdict ∷ rest) rows = do
  require (has_id rows verdict.id) invalid
  refuse (has_verdict before verdict.id) invalid
  require (verdict.verdict == "approve" || verdict.verdict == "hold" || verdict.verdict == "reject")
      invalid
  check_verdicts_from (before ++ verdict ∷ []) rest rows

-- An approval's answer gives each of the case's rows one verdict.
unfoldable pub check_verdicts : Answer → List ApprovalRow → Checked
unfolding check_verdicts_from
check_verdicts answer rows = do
  check_verdicts_from [] answer.rows rows
  require (all (λ row. has_verdict answer.rows row.id) rows) invalid

unfoldable pub check_signoff : Answer → Checked
check_signoff answer =
    if answer.signoff == "changes" && blank answer.note
    then err invalid
    else require (answer.signoff == "accept" || answer.signoff == "changes") invalid

abbrev pub contains_ℤ : List ℤ → ℤ → Bool
contains_ℤ [] n = false
contains_ℤ (x ∷ xs) n = eq_ℤ x n || contains_ℤ xs n

unfoldable pub check_file_from : List ℤ → List ℤ → ℕ → Checked
check_file_from before [] items = ok tt
check_file_from before (n ∷ rest) items = do
  require (names_option n items) invalid
  refuse (contains_ℤ before n) invalid
  check_file_from (before ++ n ∷ []) rest items

unfoldable pub check_briefing : Answer → List String → Checked
unfolding check_file_from
check_briefing answer left_out = do
  refuse (answer.briefing == "send_back" && blank answer.note) invalid
  require (answer.briefing == "accept" || answer.briefing == "send_back") invalid
  check_file_from [] answer.file (length left_out)

-- The `match kind` at the end of `check_answer`.
unfoldable pub check_response : Kind → Answer → ℕ → Case → Checked
check_response Kind.decision answer count c = check_choice answer count (length c.question.options)
check_response Kind.approval answer count c = check_verdicts answer c.question.rows
check_response Kind.signoff answer count c = check_signoff answer
check_response Kind.briefing answer count c = check_briefing answer c.question.left_out
check_response Kind.stuck answer count c = refuse (blank answer.text) invalid
check_response Kind.question answer count c = refuse (blank answer.text) invalid
check_response Kind.fyi answer count c = ok tt
check_response Kind.message answer count c = ok tt

unfoldable pub check_answer : Answer → Case → Checked
check_answer answer c = do
  count ← check_responses answer c.kind
  refuse (not (is_empty answer.file) && (not (kind_eq c.kind Kind.briefing) || answer.drop)) invalid
  refuse (ltb_ℤ (pos c.amend_seq) answer.amend_seq) invalid
  if answer.drop then refuse (ltb 1 count) invalid else check_response c.kind answer count c
