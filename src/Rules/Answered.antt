-- ===== src/Rules/Answered.antt =====
-- crates/core/src/rules.rs: what an answer that `check_answer` accepts is.
use cases.Prelude.{
  ℕ, String, Bool, true, false, not, ◌&&◌, ◌||◌, ◌+◌, ◌≡◌, ◌⊎◌, refl, List, [], ◌∷◌, All, length,
  is_empty, any, no_text, contains, ltb, sym, ◌∙◌, Bool-cases, eq_iff, arith, inl, inr,
  if◌then◌else◌,
}
use mathlib.Core.Path.{subst}
use cases.Prelude.Int.{ℤ, pos, negsuc, ltb_ℤ, is_zero}
use cases.Error.{ok, Result-cases}
use cases.Names.{Kind, kind_eq}
use cases.Record.{Answer, Open}
use cases.Case.{Case}
use cases.Rules.Fields.{blank, names_option}
use cases.Rules.Verdicts.{AreVerdicts, IsNodupInt, check_verdicts_passed, check_file_passed}
use cases.Rules.Answering.{
  takes, responses, given, check_responses, check_choice, check_signoff, check_file_from,
  check_briefing, check_response, check_answer,
}

-- An answer gives only the responses that its kind takes, and files items on a briefing's verdict.
pub record IsForKind (kind : Kind) (a : Answer) : Type 0 where
  pub choice : (is_zero a.choice || kind_eq kind Kind.decision) ≡ true
  pub other : (not a.other || kind_eq kind Kind.decision) ≡ true
  pub rows : (is_empty a.rows || kind_eq kind Kind.approval) ≡ true
  pub signoff : (no_text a.signoff || kind_eq kind Kind.signoff) ≡ true
  pub briefing : (no_text a.briefing || kind_eq kind Kind.briefing) ≡ true
  pub text : (no_text a.text || (kind_eq kind Kind.stuck || kind_eq kind Kind.question)) ≡ true
  pub drop : (a.drop && kind_eq kind Kind.message) ≡ false
  pub ack : (not a.ack || kind_eq kind Kind.fyi) ≡ true
  pub file : (is_empty a.file || (kind_eq kind Kind.briefing && not a.drop)) ≡ true

-- An answer that gives none of the responses but a drop.
pub record IsOnlyDrop (a : Answer) : Type 0 where
  pub drop : a.drop ≡ true
  pub choice : is_zero a.choice ≡ true
  pub other : a.other ≡ false
  pub rows : is_empty a.rows ≡ true
  pub signoff : no_text a.signoff ≡ true
  pub briefing : no_text a.briefing ≡ true
  pub text : no_text a.text ≡ true
  pub ack : a.ack ≡ false

-- What an answer that is no drop says to the question of its kind.
abbrev pub IsReply : Kind → Open → Answer → Type 0
IsReply Kind.decision q a =
    ((a.other ≡ true) × (is_zero a.choice ≡ true) × (blank a.note ≡ false))
    ⊎ ((a.other ≡ false) × (names_option a.choice (length q.options) ≡ true))
IsReply Kind.approval q a = AreVerdicts a.rows q.rows
IsReply Kind.signoff q a =
    (a.signoff ≡ "accept") ⊎ ((a.signoff ≡ "changes") × (blank a.note ≡ false))
IsReply Kind.briefing q a =
    ((a.briefing ≡ "accept") ⊎ ((a.briefing ≡ "send_back") × (blank a.note ≡ false)))
    × All (λ n. names_option n (length q.left_out) ≡ true) a.file
    × IsNodupInt a.file
IsReply Kind.stuck q a = blank a.text ≡ false
IsReply Kind.question q a = blank a.text ≡ false
IsReply Kind.fyi q a = a.ack ≡ true
IsReply Kind.message q a = false ≡ true

pub record IsAnswer (kind : Kind) (q : Open) (a : Answer) : Type 0 where
  pub for_kind : IsForKind kind a
  pub says : IsOnlyDrop a ⊎ ((a.drop ≡ false) × IsReply kind q a)

any-given :
    (p : String → Bool) (fields : List (String × Bool))
    → any p (given fields) ≡ any (λ (f : String × Bool). f.1 && p f.0) fields
unfolding given
any-given p [] = refl
any-given p ((field, set) ∷ rest) = ground (arith, any-given p rest)

abbrev count_set : List (String × Bool) → ℕ
count_set [] = 0
count_set ((field, set) ∷ rest) = (if set then 1 else 0) + count_set rest

length-given : (fields : List (String × Bool)) → length (given fields) ≡ count_set fields
unfolding given
length-given [] = refl
length-given ((field, set) ∷ rest) = ground (arith, length-given rest)

is_empty-given :
    (fields : List (String × Bool))
    → is_empty (given fields) ≡ not (any (λ (f : String × Bool). f.1) fields)
unfolding given
is_empty-given [] = refl
is_empty-given ((field, set) ∷ rest) = ground (arith, is_empty-given rest)

module _ (a : Answer) (kind : Kind) {count : ℕ} (h : check_responses a kind ≡ ok count) where
  known : any (λ field. not (contains (takes kind) field)) (given (responses a)) ≡ false
  unfolding check_responses
  known = ground arith

  counted : count ≡ count_set (responses a)
  unfolding check_responses
  counted = rw (← length-given) (ground arith)

  some_set : any (λ (f : String × Bool). f.1) (responses a) ≡ true
  unfolding check_responses
  some_set = ground (arith, is_empty-given (responses a))

module _ (a : Answer) (c : Case) (h : check_answer a c ≡ ok tt) where
  check_answer_counted : (count : ℕ) × (check_responses a c.kind ≡ ok count)
  unfolding check_answer
  check_answer_counted = elim (Result-cases (check_responses a c.kind)) [
    | inl p ↦ p
    | inr (e, p) ↦ absurd (ground arith)
  ]

  check_answer_file :
      (not (is_empty a.file) && (not (kind_eq c.kind Kind.briefing) || a.drop)) ≡ false
  unfolding check_answer
  check_answer_file = let (count, p) = check_answer_counted in ground arith

  check_answer_dropped : a.drop ≡ true → ltb 1 check_answer_counted.0 ≡ false
  unfolding check_answer
  check_answer_dropped d = let p = check_answer_counted.1 in ground arith

  check_answer_replied : a.drop ≡ false → check_response c.kind a check_answer_counted.0 c ≡ ok tt
  unfolding check_answer
  check_answer_replied d = let p = check_answer_counted.1 in ground arith

-- An answer names no amend after the case's last; if it names none before it, it names that one.
pub check_answer_seq :
    (a : Answer) (c : Case)
    → check_answer a c ≡ ok tt
    → ltb_ℤ a.amend_seq (pos c.amend_seq) ≡ false
    → a.amend_seq ≡ pos c.amend_seq
unfolding check_answer
check_answer_seq a c h fresh =
    let (count, p) = check_answer_counted a c h in
    same_count a.amend_seq c.amend_seq fresh (ground arith)
  where
    same_count : (n : ℤ) (m : ℕ) → ltb_ℤ n (pos m) ≡ false → ltb_ℤ (pos m) n ≡ false → n ≡ pos m
    same_count (pos n) m p q = ground arith
    same_count (negsuc n) m p q = absurd (ground arith)

-- What the kind of the answer is, from the responses that it takes.
only_taken :
    (kind : Kind) (a : Answer)
    → any (λ (f : String × Bool). f.1 && not (contains (takes kind) f.0)) (responses a) ≡ false
    → (not (is_empty a.file) && (not (kind_eq kind Kind.briefing) || a.drop)) ≡ false
    → IsForKind kind a
unfolding takes responses
only_taken _ a h f = record {
  choice = ground arith;
  other = ground arith;
  rows = ground arith;
  signoff = ground arith;
  briefing = ground arith;
  text = ground arith;
  drop = ground arith;
  ack = ground arith;
  file = ground arith;
}

check_answer-IsForKind : (a : Answer) (c : Case) → check_answer a c ≡ ok tt → IsForKind c.kind a
check_answer-IsForKind a c h =
    let (count, p) = check_answer_counted a c h in
    only_taken c.kind a
      (sym (any-given (λ field. not (contains (takes c.kind) field)) (responses a))
        ∙ known a c.kind p)
      (check_answer_file a c h)

-- One response at most is set, and a drop is.
drop_alone : (a : Answer) → a.drop ≡ true → ltb 1 (count_set (responses a)) ≡ false → IsOnlyDrop a
unfolding responses
drop_alone a d h = record {
  drop = d;
  choice = ground arith;
  other = ground arith;
  rows = ground arith;
  signoff = ground arith;
  briefing = ground arith;
  text = ground arith;
  ack = ground arith;
}

check_choice_passed :
    (a : Answer) (count options : ℕ)
    → count ≡ count_set (responses a)
    → check_choice a count options ≡ ok tt
    → ((a.other ≡ true) × (is_zero a.choice ≡ true) × (blank a.note ≡ false))
      ⊎ ((a.other ≡ false) × (names_option a.choice options ≡ true))
unfolding check_choice responses
check_choice_passed a count options n h = elim (Bool-cases a.other) [
  | inl o ↦ inl (o, ground arith, ground arith)
  | inr o ↦ inr (o, ground arith)
]

check_signoff_passed :
    (a : Answer)
    → check_signoff a ≡ ok tt
    → (a.signoff ≡ "accept") ⊎ ((a.signoff ≡ "changes") × (blank a.note ≡ false))
unfolding check_signoff
check_signoff_passed a h = ground (arith, eq_iff a.signoff "accept", eq_iff a.signoff "changes")

check_briefing_verdict :
    (a : Answer) (left_out : List String)
    → check_briefing a left_out ≡ ok tt
    → ((a.briefing ≡ "accept") ⊎ ((a.briefing ≡ "send_back") × (blank a.note ≡ false)))
      × (check_file_from [] a.file (length left_out) ≡ ok tt)
unfolding check_briefing
check_briefing_verdict a left_out h =
    (ground (arith, eq_iff a.briefing "accept", eq_iff a.briefing "send_back"), ground arith)

check_response_passed :
    (a : Answer) (c : Case) (kind : Kind) (count : ℕ)
    → c.kind ≡ kind
    → count ≡ count_set (responses a)
    → any (λ (f : String × Bool). f.1) (responses a) ≡ true
    → IsForKind kind a
    → a.drop ≡ false
    → check_response kind a count c ≡ ok tt
    → IsReply kind c.question a
unfolding check_response responses
check_response_passed a c Kind.decision count k n some only d h =
    check_choice_passed a count (length c.question.options) n h
check_response_passed a c Kind.approval count k n some only d h =
    check_verdicts_passed a c.question.rows h
check_response_passed a c Kind.signoff count k n some only d h = check_signoff_passed a h
check_response_passed a c Kind.briefing count k n some only d h =
    let p = check_briefing_verdict a c.question.left_out h in
    let q = check_file_passed a.file (length c.question.left_out) p.1 in (p.0, q.0, q.1)
check_response_passed a c Kind.stuck count k n some only d h = ground arith
check_response_passed a c Kind.question count k n some only d h = ground arith
check_response_passed a c Kind.fyi count k n some only d h =
    ground
      (arith, only.choice, only.other, only.rows, only.signoff, only.briefing, only.text, only.ack)
check_response_passed a c Kind.message count k n some only d h = absurd (
    ground
      (arith, only.choice, only.other, only.rows, only.signoff, only.briefing, only.text, only.ack))

-- An answer that `check_answer` accepts answers the case's question.
pub check_answer-IsAnswer :
    (a : Answer) (c : Case) → check_answer a c ≡ ok tt → IsAnswer c.kind c.question a
check_answer-IsAnswer a c h =
    let p = check_answer_counted a c h in
    let n = counted a c.kind p.1 in
    let only = check_answer-IsForKind a c h in
    record {
      for_kind = only;
      says = elim (Bool-cases a.drop) [
        | inl d ↦
            inl (drop_alone a d (subst (λ n. ltb 1 n ≡ false) n (check_answer_dropped a c h d)))
        | inr d ↦ inr (
          d,
          check_response_passed a c c.kind p.0 refl n (some_set a c.kind p.1) only d
              (check_answer_replied a c h d),
        )
      ];
    }
