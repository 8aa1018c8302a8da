-- ===== src/Replay/Amended.antt =====
-- crates/core/src/case.rs: a question that an amend adds to stays one that the rules of an open
-- allow its kind.
use cases.Prelude.{
  ℕ, String, Bool, true, false, ◌&&◌, ◌||◌, ◌+◌, ◌≡◌, refl, List, [], ◌∷◌, ◌++◌, All, length,
  length-append, is_empty, any, arith, if◌then◌else◌,
}
use cases.Prelude.Int.{ℤ}
use cases.Error.{ok}
use cases.Record.{Amend}
use cases.Case.{Case}
use cases.Rules.Fields.{
  blank, set_blank, check_blank, check_kind_fields, check_briefing_fields, check_recommend,
  check_labels, check_rows, names_option,
}
use cases.Rules.Amending.{
  check_amend, check_amend_fields, check_amend_against, check_amend_text, is_some,
}
use cases.Rules.Distinct.{IsFitting, ids, ids-append, IsNodup-append, check_rows_passed}
use cases.Rules.Sound.{
  IsSound, IsOfKind, IsWhole, IsListed, IsLeftOut, check_blank_passed, check_labels_passed,
  check_kind_fields_passed, check_briefing_fields_passed, check_recommend_passed,
}
use cases.Replay.Taking.{amended, or_given}

module _ {A : Type 0} where
  is_empty-append : (xs ys : List A) → is_empty (xs ++ ys) ≡ (is_empty xs && is_empty ys)
  is_empty-append [] ys = refl
  is_empty-append (x ∷ xs) ys = refl

  any-append : (p : A → Bool) (xs ys : List A) → any p (xs ++ ys) ≡ (any p xs || any p ys)
  any-append p [] ys = refl
  any-append p (x ∷ xs) ys = ground (arith, any-append p xs ys)

  All-append : (P : A → Type 0) (xs ys : List A) → All P xs → All P ys → All P (xs ++ ys)
  All-append P [] ys p q = q
  All-append P (x ∷ xs) ys p q = (p.0, All-append P xs ys p.1 q)

names_more : (n : ℤ) (a b : ℕ) → names_option n a ≡ true → names_option n (a + b) ≡ true
unfolding names_option
names_more n a b h = ground arith

-- A new text that is not blank, or the old one.
or_given_written :
    (new old : String)
    → set_blank new ≡ false
    → blank old ≡ false
    → blank (or_given new old) ≡ false
unfolding set_blank
or_given_written new old p q = ground arith

module _ (a : Amend) (c : Case) where
  check_amend_passed :
      check_amend a c ≡ ok tt → (check_amend_fields a c ≡ ok tt) × (check_amend_against a c ≡ ok tt)
  unfolding check_amend
  check_amend_passed h = (ground arith, ground arith)

  check_amend_fields_passed :
      check_amend_fields a c ≡ ok tt
      → (check_kind_fields c.kind a.options a.rows ≡ ok tt)
        × (check_briefing_fields c.kind (is_some a.landed) a.left_out ≡ ok tt)
        × (check_amend_text a ≡ ok tt)
        × (check_blank a.options ≡ ok tt)
        × (check_rows a.rows c.question.rows ≡ ok tt)
  unfolding check_amend_fields
  check_amend_fields_passed h =
      (ground arith, ground arith, ground arith, ground arith, ground arith)

  check_amend_against_passed :
      check_amend_against a c ≡ ok tt
      → (check_recommend c.kind a.recommend (length c.question.options + length a.options) ≡ ok tt)
        × (check_labels a.labels c.question.labels ≡ ok tt)
  unfolding check_amend_against
  check_amend_against_passed h = (ground arith, ground arith)

check_amend_text_passed :
    (a : Amend)
    → check_amend_text a ≡ ok tt
    → (set_blank a.title ≡ false) × (set_blank a.body ≡ false)
unfolding check_amend_text
check_amend_text_passed a h = (ground arith, ground arith)

module _ (a : Amend) (c : Case) (v : IsSound c.kind c.question)
    (passed : check_amend a c ≡ ok tt) where
  amended-IsOfKind : IsOfKind c.kind (amended a c.question)
  unfolding amended
  amended-IsOfKind =
      let p = check_amend_passed a c passed in
      let f = check_amend_fields_passed a c p.0 in
      let g = check_amend_against_passed a c p.1 in
      let kinds = check_kind_fields_passed c.kind a.options a.rows f.0 in
      let briefing = check_briefing_fields_passed c.kind (is_some a.landed) a.left_out f.1 in
      let recommend = check_recommend_passed c.kind a.recommend _ g.0 in
      record {
        options =
            ground
              (arith, is_empty-append c.question.options a.options, kinds.0, v.of_kind.options);
        rows = ground (arith, is_empty-append c.question.rows a.rows, kinds.1, v.of_kind.rows);
        landed = ground (arith, briefing.0, v.of_kind.landed);
        left_out = ground (arith, briefing.1, v.of_kind.left_out);
        recommend = rw (length-append c.question.options a.options) (
            ground (
              arith,
              recommend,
              v.of_kind.recommend,
              names_more c.question.recommend (length c.question.options) (length a.options),
            ));
      }

  amended-IsWhole : IsWhole c.kind (amended a c.question)
  unfolding amended
  amended-IsWhole =
      let p = check_amend_passed a c passed in
      let f = check_amend_fields_passed a c p.0 in
      let text = check_amend_text_passed a f.2 in
      record {
        title = or_given_written a.title c.question.title text.0 v.whole.title;
        body = ground (arith, v.whole.body, or_given_written a.body c.question.body text.1);
        decision = ground (arith, is_empty-append c.question.options a.options, v.whole.decision);
        approval = ground (arith, is_empty-append c.question.rows a.rows, v.whole.approval);
        message = ground (arith, is_empty-append c.question.labels a.labels, v.whole.message);
      }

  amended-IsListed : IsListed (amended a c.question)
  unfolding amended
  amended-IsListed =
      let p = check_amend_passed a c passed in
      let f = check_amend_fields_passed a c p.0 in
      let g = check_amend_against_passed a c p.1 in
      let rows = check_rows_passed a.rows c.question.rows f.4 in
      let labels = check_labels_passed a.labels c.question.labels g.1 in
      let briefing = check_briefing_fields_passed c.kind (is_some a.landed) a.left_out f.1 in
      record {
        options = ground (
          arith,
          any-append blank c.question.options a.options,
          v.listed.options,
          check_blank_passed a.options f.3,
        );
        rows = All-append IsFitting c.question.rows a.rows v.listed.rows rows.0;
        row_ids =
            rw (ids-append c.question.rows a.rows)
              (IsNodup-append (ids c.question.rows) (ids a.rows) v.listed.row_ids rows.1 rows.2);
        labels =
            ground (arith, any-append blank c.question.labels a.labels, v.listed.labels, labels.0);
        new_labels =
            IsNodup-append c.question.labels a.labels v.listed.new_labels labels.1 labels.2;
        left_out = kept_or_new (is_empty a.left_out) v.listed.left_out briefing.2;
      }
    where
      kept_or_new :
          (b : Bool)
          → IsLeftOut c.question.left_out
          → IsLeftOut a.left_out
          → IsLeftOut (if b then c.question.left_out else a.left_out)
      kept_or_new true old new = old
      kept_or_new false old new = new

  pub amended-IsSound : IsSound c.kind (amended a c.question)
  amended-IsSound = record {
    of_kind = amended-IsOfKind;
    whole = amended-IsWhole;
    listed = amended-IsListed;
  }
