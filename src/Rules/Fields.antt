-- ===== src/Rules/Fields.antt =====
-- crates/core/src/rules.rs: the checks of single fields, which the open's, the amend's and the
-- answer's rules share. A loop over `enumerate` carries the items before the one it is at.
use Prim.Native.String.{len}
use cases.Prelude.{
  ℕ, String, code, Bool, true, false, not, ◌&&◌, ◌||◌, Option, none, some, List, [], ◌∷◌, ◌++◌, ltb,
  leb, nat_eq, length, is_empty, any, codes, no_text, contains, ◌==◌, if◌then◌else◌,
}
use cases.Prelude.Int.{ℤ, pos, negsuc, is_zero}
use cases.Error.{Category, invalid, Result, Checked, ok, err, ◌>>◌, refuse, require}
use cases.Names.{Author, Kind, opener, same_author, kind_eq}
use cases.Record.{Actor, ApprovalRow}

-- The Unicode property `White_Space`.
abbrev pub is_white_space : ℕ → Bool
is_white_space c =
    (leb 0x9 c && leb c 0xd)
    || nat_eq c 0x20
    || nat_eq c 0x85
    || nat_eq c 0xa0
    || nat_eq c 0x1680
    || (leb 0x2000 c && leb c 0x200a)
    || nat_eq c 0x2028
    || nat_eq c 0x2029
    || nat_eq c 0x202f
    || nat_eq c 0x205f
    || nat_eq c 0x3000

-- `trim` leaves nothing exactly where every character is white space.
unfoldable pub blank : String → Bool
blank String.[] = true
blank (String.◌∷◌ c s) = is_white_space (code c) && blank s

unfoldable pub set_blank : String → Bool
unfolding blank
set_blank s = not (no_text s) && blank s

abbrev pub is_ascii_alphanumeric : ℕ → Bool
is_ascii_alphanumeric b =
    (leb b'0' b && leb b b'9') || (leb b'A' b && leb b b'Z') || (leb b'a' b && leb b b'z')

-- All bytes are ASCII exactly where all characters are.
abbrev pub all_codes : (ℕ → Bool) → String → Bool
all_codes p String.[] = true
all_codes p (String.◌∷◌ c s) = p (code c) && all_codes p s

unfoldable pub is_actor_id : String → Bool
is_actor_id id =
    nat_eq (len id) 22
    && all_codes (λ b. is_ascii_alphanumeric b || nat_eq b b'-' || nat_eq b b'_') id

unfoldable pub check_actor : Option Actor → Checked
unfolding is_actor_id
check_actor (some a) = require (is_actor_id a.id) invalid
check_actor none = ok tt

unfoldable pub check_opener : Kind → Author → Checked
check_opener kind author = require (same_author author (opener kind)) Category.author

-- `known::<T>`, with the `from_str` of `T`.
unfoldable pub known {ℓ} : {T : Type ℓ} → (String → Result T) → String → Result T
known from_str value = if no_text value then err invalid else from_str value

-- Whether `n` names one of `options` options, numbered from 1.
unfoldable pub names_option : ℤ → ℕ → Bool
names_option (pos n) options = leb 1 n && leb n options
names_option (negsuc n) options = false

unfoldable pub check_blank : List String → Checked
check_blank values = refuse (any blank values) invalid

unfoldable pub check_new_from : List String → List String → List String → Checked
check_new_from before [] have = ok tt
check_new_from before (value ∷ rest) have = do
  refuse (contains before value) invalid
  refuse (contains have value) invalid
  check_new_from (before ++ value ∷ []) rest have

unfoldable pub check_new : List String → List String → Checked
unfolding check_new_from
check_new added have = check_new_from [] added have

unfoldable pub check_labels : List String → List String → Checked
unfolding check_blank check_new
check_labels added have = do check_blank added; check_new added have

unfoldable pub check_kind_fields : Kind → List String → List ApprovalRow → Checked
check_kind_fields kind options rows = do
  refuse (not (kind_eq kind Kind.decision) && not (is_empty options)) invalid
  refuse (not (kind_eq kind Kind.approval) && not (is_empty rows)) invalid

abbrev pub left_out_items : ℕ
left_out_items = 10

abbrev pub left_out_chars : ℕ
left_out_chars = 300

unfoldable pub over_chars : String → Bool
over_chars item = ltb left_out_chars (length (codes item))

unfoldable pub check_briefing_fields : Kind → Bool → List String → Checked
unfolding check_blank check_new over_chars
check_briefing_fields kind landed left_out =
    if not (kind_eq kind Kind.briefing)
    then (do refuse landed invalid; refuse (not (is_empty left_out)) invalid)
    else do
      refuse (ltb left_out_items (length left_out)) invalid
      check_blank left_out
      refuse (any over_chars left_out) invalid
      check_new left_out []

unfoldable pub check_recommend : Kind → ℤ → ℕ → Checked
unfolding names_option
check_recommend kind recommend options = if is_zero recommend then ok tt else do
  require (kind_eq kind Kind.decision) invalid
  require (names_option recommend options) invalid

unfoldable pub row_id_fits : String → Bool
row_id_fits id =
    not (no_text id)
    && all_codes (λ b. is_ascii_alphanumeric b || nat_eq b b'.' || nat_eq b b'-' || nat_eq b b'_')
        id

abbrev pub has_id : List ApprovalRow → String → Bool
has_id [] id = false
has_id (row ∷ rows) id = row.id == id || has_id rows id

-- One round of the loop of `check_rows`, at a row with the rows before it.
unfoldable pub check_row : List ApprovalRow → ApprovalRow → List ApprovalRow → Checked
unfolding row_id_fits blank
check_row before row have = do
  require (row_id_fits row.id) invalid
  refuse (has_id (before ++ have) row.id) invalid
  refuse (blank row.label) invalid
  refuse (blank row.script) invalid
  refuse (blank row.link) invalid
  require (row.by == "" || row.by == "human") invalid

unfoldable pub check_rows_from : List ApprovalRow → List ApprovalRow → List ApprovalRow → Checked
unfolding check_row
check_rows_from before [] have = ok tt
check_rows_from before (row ∷ rest) have = do
  check_row before row have
  check_rows_from (before ++ row ∷ []) rest have

unfoldable pub check_rows : List ApprovalRow → List ApprovalRow → Checked
unfolding check_rows_from
check_rows rows have = check_rows_from [] rows have
