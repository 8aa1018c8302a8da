-- ===== src/Rules/Opening.antt =====
-- crates/core/src/rules.rs: `check_open` and its parts.
use cases.Prelude.{Bool, ◌&&◌, [], length, is_empty, if◌then◌else◌}
use cases.Error.{invalid, Result, Checked, ok, ◌>>=◌, ◌>>◌, refuse}
use cases.Names.{Author, Kind, Urgency, kind_from_str, urgency_from_str, kind_eq}
use cases.Record.{Open}
use cases.Rules.Fields.{
  blank, set_blank, check_opener, known, check_blank, check_new, check_labels, check_kind_fields,
  check_briefing_fields, check_recommend, check_rows,
}

unfoldable pub check_open_text : Open → Kind → Checked
check_open_text question kind = do
  refuse (blank question.title) invalid
  refuse (kind_eq kind Kind.briefing && blank question.body) invalid

unfoldable pub check_open_needs : Open → Kind → Checked
check_open_needs question Kind.decision = refuse (is_empty question.options) invalid
check_open_needs question Kind.approval = refuse (is_empty question.rows) invalid
check_open_needs question Kind.message =
    refuse (blank question.worker && is_empty question.labels) invalid
check_open_needs question _ = ok tt

unfoldable pub check_open_shape : Open → Kind → Checked
check_open_shape question kind = do
  check_open_text question kind
  check_kind_fields kind question.options question.rows
  check_briefing_fields kind question.landed question.left_out
  check_open_needs question kind

unfoldable pub check_open_fields : Open → Kind → Checked
check_open_fields question kind = do
  check_blank question.options
  check_recommend kind question.recommend (length question.options)
  check_rows question.rows []
  refuse (set_blank question.for_) invalid
  refuse (set_blank question.re) invalid
  check_labels question.labels []

unfoldable pub check_open_write : Open → Checked
check_open_write question = do
  check_new question.options []
  check_blank question.links
  check_new question.links []
  refuse (set_blank question.worker) invalid
  refuse (set_blank question.brief) invalid
  refuse (set_blank question.context) invalid

unfoldable pub check_open : Open → Author → Bool → Result (Kind × Urgency)
check_open question author write = do
  kind ← known kind_from_str question.kind
  check_opener kind author
  urgency ← known urgency_from_str question.urgency
  check_open_shape question kind
  check_open_fields question kind
  if write then check_open_write question else ok tt
  ok (kind, urgency)
