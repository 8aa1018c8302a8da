-- ===== src/Stats/Days.antt =====
-- crates/core/src/stats.rs: each day counts the cases opened on it, and the answers given on it.
use cases.Prelude.{
  ℕ, zero, suc, ◌+◌, ◌-◌, ◌≤◌, ◌<◌, Bool, false, not, ◌&&◌, ◌≡◌, refl, ◌∙◌, ap, Option, none, some,
  List, [], ◌∷◌, nat_eq, get_elem?, replicate, if◌then◌else◌, arith, Bool-cases, inl, inr,
}
use cases.Prelude.Int.{ℤ, pos, negsuc, ◌+ℤ◌, ◌-ℤ◌, eq_ℤ}
use cases.Names.{Kind, State, kind_eq}
use cases.Time.{Time}
use cases.Record.{Record}
use cases.Case.{Case, Event}
use cases.Stats.{
  Tally, u32_max, day, slot, index_below, count_one, slot_of, count_at, count_event, count_events,
  count_opened, count_case, count_cases, stats,
}

abbrev is_place : ℕ → Option ℕ → Bool
is_place i none = false
is_place i (some j) = nat_eq j i

-- Whether a time is on the day at a place: the last place is the day that it is now, and each place
-- before it is a day earlier.
abbrev pub is_on_day : Time → ℕ → ℕ → Option Time → Bool
is_on_day now days i none = false
is_on_day now days i (some t) = eq_ℤ (day t +ℤ pos (days - 1 - i)) (day now)

index_below-place :
    (t now : ℤ) (days i : ℕ)
    → i < days
    → is_place i (index_below days (t -ℤ (now -ℤ pos days +ℤ pos 1)))
      ≡ eq_ℤ (t +ℤ pos (days - 1 - i)) now
unfolding ◌+ℤ◌ ◌-ℤ◌
index_below-place (pos a) (pos b) days i h = ground arith
index_below-place (pos a) (negsuc b) days i h = ground arith
index_below-place (negsuc a) (pos b) days i h = ground arith
index_below-place (negsuc a) (negsuc b) days i h = ground arith

slot_of-place :
    (now : Time) (days i : ℕ) (o : Option Time)
    → i < days
    → is_place i (slot_of now days o) ≡ is_on_day now days i o
unfolding slot
slot_of-place now days i none h = refl
slot_of-place now days i (some t) h = index_below-place (day t) (day now) days i h

-- How many cases but messages were opened on the day at a place.
abbrev pub opened_on : Time → ℕ → ℕ → List Case → ℕ
opened_on now days i [] = 0
opened_on now days i (c ∷ cases) =
    (if not (kind_eq c.kind Kind.message) && is_on_day now days i c.question.opened_at
      then 1
      else 0)
    + opened_on now days i cases

abbrev pub answer_time : Record → Option Time
answer_time (Record.answer r) = if r.drop then none else r.answered_at
answer_time _ = none

-- How many of the events are answers, and no drops, given on the day at a place.
abbrev pub answers_on : Time → ℕ → ℕ → List Event → ℕ
answers_on now days i [] = 0
answers_on now days i (e ∷ rest) =
    (if is_on_day now days i (answer_time e.entry) then 1 else 0) + answers_on now days i rest

abbrev pub answered_on : Time → ℕ → ℕ → List Case → ℕ
answered_on now days i [] = 0
answered_on now days i (c ∷ cases) =
    (if kind_eq c.kind Kind.message then 0 else answers_on now days i c.events)
    + answered_on now days i cases

count_one_at :
    (counts : List ℕ) (j i : ℕ) {n : ℕ}
    → get_elem? counts i ≡ some n
    → (if nat_eq j i then 1 else 0) + n ≤ u32_max
    → get_elem? (count_one counts j) i ≡ some ((if nat_eq j i then 1 else 0) + n)
unfolding count_one
count_one_at [] j i h small = absurd (cc h)
count_one_at (c ∷ counts) zero zero h small = ground arith
count_one_at (c ∷ counts) (suc j) zero h small = ground arith
count_one_at (c ∷ counts) zero (suc i) h small = ground arith
count_one_at (c ∷ counts) (suc j) (suc i) {n = n} h small =
    ground (arith, count_one_at counts j i {n = n} h (ground arith))

count_at_place :
    (place : Option ℕ) (counts : List ℕ) (i : ℕ) {n : ℕ}
    → get_elem? counts i ≡ some n
    → (if is_place i place then 1 else 0) + n ≤ u32_max
    → get_elem? (count_at place counts) i ≡ some ((if is_place i place then 1 else 0) + n)
count_at_place none counts i h small = ground arith
count_at_place (some j) counts i {n = n} h small = count_one_at counts j i {n = n} h small

module _ (now : Time) (days i : ℕ) (within : i < days) where
  count_event_opened :
      (entry : Record) (asked : Option Time) (t : Tally)
      → (count_event now days entry asked t).opened ≡ t.opened
  unfolding count_event
  count_event_opened (Record.answer r) asked t = ground arith
  count_event_opened _ asked t = refl

  count_events_opened :
      (state : State) (events : List Event) (asked : Option Time) (t : Tally)
      → (count_events now days state events asked t).opened ≡ t.opened
  unfolding count_events
  count_events_opened state [] asked t = refl
  count_events_opened state (e ∷ rest) asked t =
      count_events_opened state rest _ _ ∙ count_event_opened e.entry asked t

  count_event_answered :
      (entry : Record) (asked : Option Time) (t : Tally)
      → (count_event now days entry asked t).answered
        ≡ count_at (slot_of now days (answer_time entry)) t.answered
  unfolding count_event
  count_event_answered (Record.answer r) asked t = ground arith
  count_event_answered _ asked t = refl

  count_events_answered :
      (state : State) (events : List Event) (asked : Option Time) (t : Tally) {n : ℕ}
      → get_elem? t.answered i ≡ some n
      → n + answers_on now days i events ≤ u32_max
      → get_elem? (count_events now days state events asked t).answered i
        ≡ some (n + answers_on now days i events)
  unfolding count_events
  count_events_answered state [] asked t h small = ground arith
  count_events_answered state (e ∷ rest) asked t {n = n} h small =
      let place = slot_of now days (answer_time e.entry) in
      let d : ℕ = if is_place i place then 1 else 0 in
      let same = slot_of-place now days i (answer_time e.entry) within in
      let counted : get_elem? (count_event now days e.entry asked t).answered i ≡ some (d + n) =
        ap (λ l. get_elem? l i) (count_event_answered e.entry asked t)
        ∙ count_at_place place t.answered i {n = n} h (ground arith) in
      count_events_answered state rest _ _ {n = d + n} counted (ground arith)
      ∙ ap some (ground arith)

  count_case_opened :
      (c : Case) (t : Tally) {n : ℕ}
      → get_elem? t.opened i ≡ some n
      → n + opened_on now days i (c ∷ []) ≤ u32_max
      → get_elem? (count_case now days c t).opened i ≡ some (n + opened_on now days i (c ∷ []))
  unfolding count_case
  count_case_opened c t {n = n} h small = elim (Bool-cases (kind_eq c.kind Kind.message)) [
    | inl e ↦ ground arith
    | inr e ↦
        let place = slot_of now days c.question.opened_at in
        let same = slot_of-place now days i c.question.opened_at within in
        let counted =
          count_events_opened c.state c.events c.question.opened_at (count_opened now days c t) in
        let placed = count_at_place place t.opened i {n = n} h (ground arith) in
        ground (arith, counted, placed)
  ]

  count_case_answered :
      (c : Case) (t : Tally) {n : ℕ}
      → get_elem? t.answered i ≡ some n
      → n + answered_on now days i (c ∷ []) ≤ u32_max
      → get_elem? (count_case now days c t).answered i ≡ some (n + answered_on now days i (c ∷ []))
  unfolding count_case
  count_case_answered c t {n = n} h small = elim (Bool-cases (kind_eq c.kind Kind.message)) [
    | inl e ↦ ground arith
    | inr e ↦
        let counted =
          count_events_answered c.state c.events c.question.opened_at (count_opened now days c t)
            {n = n} h (ground arith) in
        ground (arith, counted)
  ]

  count_cases_counts :
      (cases : List Case) (t : Tally) {m n : ℕ}
      → get_elem? t.opened i ≡ some m
      → get_elem? t.answered i ≡ some n
      → m + opened_on now days i cases ≤ u32_max
      → n + answered_on now days i cases ≤ u32_max
      → (get_elem? (count_cases now days cases t).opened i ≡ some (m + opened_on now days i cases))
        × (get_elem? (count_cases now days cases t).answered i
            ≡ some (n + answered_on now days i cases))
  unfolding count_cases
  count_cases_counts [] t h k p q = (ground arith, ground arith)
  count_cases_counts (c ∷ cases) t {m = m} {n = n} h k p q =
      let opened = count_case_opened c t {n = m} h (omega arith) in
      let answered = count_case_answered c t {n = n} k (omega arith) in
      let ih =
        count_cases_counts cases (count_case now days c t) opened answered (omega arith)
          (omega arith) in
      (ih.0 ∙ ap some (omega arith), ih.1 ∙ ap some (omega arith))

get-replicate : (n i x : ℕ) → i < n → get_elem? (replicate n x) i ≡ some x
get-replicate zero i x h = absurd (omega arith)
get-replicate (suc n) zero x h = refl
get-replicate (suc n) (suc i) x h = get-replicate n i x (omega arith)

-- At each of the places, the last of which is the day that it is now and each other the day before
-- the next, the stats count the cases but messages that were opened on that UTC day, and the answers
-- but drops that were given on it, as long as a u32 holds the counts.
pub stats_days :
    (cases : List Case) (now : Time) (days i : ℕ)
    → i < days
    → opened_on now days i cases ≤ u32_max
    → answered_on now days i cases ≤ u32_max
    → (get_elem? (stats cases now days).opened i ≡ some (opened_on now days i cases))
      × (get_elem? (stats cases now days).answered i ≡ some (answered_on now days i cases))
unfolding stats
stats_days cases now days i h p q =
    let p' =
      count_cases_counts now days i h cases _ (get-replicate days i 0 h) (get-replicate days i 0 h)
        (omega arith) (omega arith) in
    (p'.0 ∙ ap some (omega arith), p'.1 ∙ ap some (omega arith))
