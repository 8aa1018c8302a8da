-- ===== src/Rules/Sound.antt =====
-- crates/core/src/rules.rs: what a question is that the rules of an open let through, on a replay
-- and on a write, and that an amend they let through leaves it so.
use cases.Prelude.{
  String, Bool, true, false, not, ◌&&◌, ◌||◌, ◌≡◌, refl, List, [], ◌∷◌, All, length, is_empty, any,
  ltb, ℕ, arith, inl, inr, Bool-cases, sym, ◌∙◌,
}
use mathlib.Core.Path.{subst}
use cases.Prelude.Int.{ℤ, is_zero}
use cases.Error.{ok, Result-cases}
use cases.Names.{Author, Kind, Urgency, kind_eq, kind_from_str, urgency_from_str}
use cases.Record.{Open, ApprovalRow}
use cases.Rules.Fields.{
  blank, known, check_blank, check_labels, check_kind_fields, check_briefing_fields,
  check_recommend, check_rows, names_option, left_out_items, over_chars,
}
use cases.Rules.Opening.{
  check_open, check_open_text, check_open_needs, check_open_shape, check_open_fields,
}
use cases.Rules.Distinct.{IsNodup, IsApart, IsFitting, ids, check_new_passed, check_rows_passed}

-- A briefing's list of what it left out.
pub record IsLeftOut (items : List String) : Type 0 where
  pub count : ltb left_out_items (length items) ≡ false
  pub written : any blank items ≡ false
  pub short : any over_chars items ≡ false
  pub new : IsNodup items

-- The fields that the kind of a case allows it.
pub record IsOfKind (kind : Kind) (q : Open) : Type 0 where
  pub options : (not (kind_eq kind Kind.decision) && not (is_empty q.options)) ≡ false
  pub rows : (not (kind_eq kind Kind.approval) && not (is_empty q.rows)) ≡ false
  pub landed : (not (kind_eq kind Kind.briefing) && q.landed) ≡ false
  pub left_out : (not (kind_eq kind Kind.briefing) && not (is_empty q.left_out)) ≡ false
  pub recommend :
      (is_zero q.recommend
        || (kind_eq kind Kind.decision && names_option q.recommend (length q.options)))
      ≡ true

-- What the kind of a case needs of it.
pub record IsWhole (kind : Kind) (q : Open) : Type 0 where
  pub title : blank q.title ≡ false
  pub body : (kind_eq kind Kind.briefing && blank q.body) ≡ false
  pub decision : (kind_eq kind Kind.decision && is_empty q.options) ≡ false
  pub approval : (kind_eq kind Kind.approval && is_empty q.rows) ≡ false
  pub message : (kind_eq kind Kind.message && (blank q.worker && is_empty q.labels)) ≡ false

-- The lists of a question.
pub record IsListed (q : Open) : Type 0 where
  pub options : any blank q.options ≡ false
  pub rows : All IsFitting q.rows
  pub row_ids : IsNodup (ids q.rows)
  pub labels : any blank q.labels ≡ false
  pub new_labels : IsNodup q.labels
  pub left_out : IsLeftOut q.left_out

pub record IsSound (kind : Kind) (q : Open) : Type 0 where
  pub of_kind : IsOfKind kind q
  pub whole : IsWhole kind q
  pub listed : IsListed q

pub check_blank_passed :
    (values : List String) → check_blank values ≡ ok tt → any blank values ≡ false
unfolding check_blank
check_blank_passed values h = ground arith

pub check_labels_passed :
    (added have : List String)
    → check_labels added have ≡ ok tt
    → (any blank added ≡ false) × IsNodup added × IsApart have added
unfolding check_labels
check_labels_passed added have h =
    let p = check_new_passed added have (ground arith) in
    (check_blank_passed added (ground arith), p.0, p.1)

briefing_items :
    (items : List String) → check_briefing_fields Kind.briefing true items ≡ ok tt → IsLeftOut items
unfolding check_briefing_fields
briefing_items items h = record {
  count = ground arith;
  written = check_blank_passed items (ground arith);
  short = ground arith;
  new = (check_new_passed items [] (ground arith)).0;
}

briefing_landed :
    (landed : Bool) (items : List String)
    → check_briefing_fields Kind.briefing landed items
      ≡ check_briefing_fields Kind.briefing true items
unfolding check_briefing_fields
briefing_landed landed items = refl

other_items :
    (kind : Kind) (landed : Bool) (items : List String)
    → kind_eq kind Kind.briefing ≡ false
    → check_briefing_fields kind landed items ≡ ok tt
    → (landed ≡ false) × (is_empty items ≡ true)
unfolding check_briefing_fields
other_items kind landed items e h = (ground arith, ground arith)

empty-IsLeftOut : (items : List String) → is_empty items ≡ true → IsLeftOut items
empty-IsLeftOut [] h = record { count = refl; written = refl; short = refl; new = tt }
empty-IsLeftOut (x ∷ xs) h = absurd (cc h)

kind_of_index : (kind : Kind) → kind_eq kind Kind.briefing ≡ true → kind ≡ Kind.briefing
kind_of_index kind h = ground arith

-- The left-out items of a briefing, and of any other kind none.
pub check_briefing_fields_passed :
    (kind : Kind) (landed : Bool) (items : List String)
    → check_briefing_fields kind landed items ≡ ok tt
    → ((not (kind_eq kind Kind.briefing) && landed) ≡ false)
      × ((not (kind_eq kind Kind.briefing) && not (is_empty items)) ≡ false)
      × IsLeftOut items
check_briefing_fields_passed kind landed items h = elim (Bool-cases (kind_eq kind Kind.briefing)) [
  | inl e ↦ (
    ground arith,
    ground arith,
    briefing_items items (
        sym (briefing_landed landed items)
        ∙ subst (λ k. check_briefing_fields k landed items ≡ ok tt) (kind_of_index kind e) h),
  )
  | inr e ↦
      let p = other_items kind landed items e h in
      (ground arith, ground arith, empty-IsLeftOut items p.1)
]

pub check_recommend_passed :
    (kind : Kind) (n : ℤ) (options : ℕ)
    → check_recommend kind n options ≡ ok tt
    → (is_zero n || (kind_eq kind Kind.decision && names_option n options)) ≡ true
unfolding check_recommend
check_recommend_passed kind n options h = ground arith

check_open_needs_passed :
    (kind : Kind) (q : Open)
    → check_open_needs q kind ≡ ok tt
    → ((kind_eq kind Kind.decision && is_empty q.options) ≡ false)
      × ((kind_eq kind Kind.approval && is_empty q.rows) ≡ false)
      × ((kind_eq kind Kind.message && (blank q.worker && is_empty q.labels)) ≡ false)
unfolding check_open_needs
check_open_needs_passed kind q h = (ground arith, ground arith, ground arith)

pub check_kind_fields_passed :
    (kind : Kind) (options : List String) (rows : List ApprovalRow)
    → check_kind_fields kind options rows ≡ ok tt
    → ((not (kind_eq kind Kind.decision) && not (is_empty options)) ≡ false)
      × ((not (kind_eq kind Kind.approval) && not (is_empty rows)) ≡ false)
unfolding check_kind_fields
check_kind_fields_passed kind options rows h = (ground arith, ground arith)

check_open_text_passed :
    (kind : Kind) (q : Open)
    → check_open_text q kind ≡ ok tt
    → (blank q.title ≡ false) × ((kind_eq kind Kind.briefing && blank q.body) ≡ false)
unfolding check_open_text
check_open_text_passed kind q h = (ground arith, ground arith)

module _ (q : Open) (kind : Kind) where
  check_open_shape_passed :
      check_open_shape q kind ≡ ok tt
      → (check_open_text q kind ≡ ok tt)
        × (check_kind_fields kind q.options q.rows ≡ ok tt)
        × (check_briefing_fields kind q.landed q.left_out ≡ ok tt)
        × (check_open_needs q kind ≡ ok tt)
  unfolding check_open_shape
  check_open_shape_passed h = (ground arith, ground arith, ground arith, ground arith)

  check_open_fields_passed :
      check_open_fields q kind ≡ ok tt
      → (check_blank q.options ≡ ok tt)
        × (check_recommend kind q.recommend (length q.options) ≡ ok tt)
        × (check_rows q.rows [] ≡ ok tt)
        × (check_labels q.labels [] ≡ ok tt)
  unfolding check_open_fields
  check_open_fields_passed h = (ground arith, ground arith, ground arith, ground arith)

  checked-IsSound :
      check_open_shape q kind ≡ ok tt → check_open_fields q kind ≡ ok tt → IsSound kind q
  checked-IsSound shape fields =
      let s = check_open_shape_passed shape in
      let f = check_open_fields_passed fields in
      let text = check_open_text_passed kind q s.0 in
      let of_kind = check_kind_fields_passed kind q.options q.rows s.1 in
      let briefing = check_briefing_fields_passed kind q.landed q.left_out s.2 in
      let needs = check_open_needs_passed kind q s.3 in
      let rows = check_rows_passed q.rows [] f.2 in
      let labels = check_labels_passed q.labels [] f.3 in
      record {
        of_kind = record {
          options = of_kind.0;
          rows = of_kind.1;
          landed = briefing.0;
          left_out = briefing.1;
          recommend = check_recommend_passed kind q.recommend (length q.options) f.1;
        };
        whole = record {
          title = text.0;
          body = text.1;
          decision = needs.0;
          approval = needs.1;
          message = needs.2;
        };
        listed = record {
          options = check_blank_passed q.options f.0;
          rows = rows.0;
          row_ids = rows.1;
          labels = labels.0;
          new_labels = labels.1;
          left_out = briefing.2;
        };
      }

check_open_passed :
    (q : Open) (author : Author) (write : Bool) (kind : Kind) (urgency : Urgency)
    → check_open q author write ≡ ok (kind, urgency)
    → (check_open_shape q kind ≡ ok tt) × (check_open_fields q kind ≡ ok tt)
unfolding check_open
check_open_passed q author write kind urgency h = elim (Result-cases (known kind_from_str q.kind)) [
  | inl (k, e) ↦ elim (Result-cases (known urgency_from_str q.urgency)) [
    | inl (u, f) ↦ (ground arith, ground arith)
    | inr (x, f) ↦ absurd (ground arith)
  ]
  | inr (x, e) ↦ absurd (ground arith)
]

-- A question that an open's rules accept, on a replay or a write, is sound for the kind they give.
pub check_open-IsSound :
    (q : Open) (author : Author) (write : Bool) (kind : Kind) (urgency : Urgency)
    → check_open q author write ≡ ok (kind, urgency)
    → IsSound kind q
check_open-IsSound q author write kind urgency h =
    let p = check_open_passed q author write kind urgency h in checked-IsSound q kind p.0 p.1
