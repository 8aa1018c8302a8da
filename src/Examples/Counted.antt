-- ===== src/Examples/Counted.antt =====
-- The stats of a case that was answered, over three days.
use cases.Prelude.{
  ℕ, ◌*◌, ◌/◌, ◌≤◌, ◌≡◌, refl, some, none, [], ◌∷◌, get_elem?, leb, if◌then◌else◌, arith,
}
use cases.Prelude.Int.{pos, ◌+ℤ◌, ◌-ℤ◌}
use cases.Names.{Author, State}
use cases.Time.{Time}
use cases.Record.{Record}
use cases.Case.{Case}
use cases.Time.Calendar.{div_euclid, scale}
use cases.Stats.{
  stats, median, second, u64_max, day, nanos, slot, asked_after, count_event, count_events,
  count_case, count_cases, count_one, put_in_order, sort, middle,
}
use cases.Stats.Median.{count_le, count_ge, median_lem}
use cases.Stats.Days.{opened_on, answered_on, stats_days}
use cases.Examples.Script.{asked, chosen, now}
use cases.Examples.Replayed.{answered}

abbrev opened_then : Time
opened_then = record { secs = pos 1789376400; nanos = 0 }

abbrev timed : Case
timed = record answered {
  question = record asked { opened_at = some opened_then };
  events =
      record { seq = 1; author = Author.agent; from = none; entry = Record.open_ asked; text = "" }
      ∷ record {
        seq = 2;
        author = Author.human;
        from = some State.open_;
        entry = Record.answer (record chosen { answered_at = some now });
        text = "";
      }
      ∷ [];
}

-- Opened yesterday, and answered today, a day and a minute later.
stats-timed :
    stats (timed ∷ []) now 3
    ≡ record { opened = 0 ∷ 1 ∷ 0 ∷ []; answered = 0 ∷ 0 ∷ 1 ∷ []; median = some 86460 }
unfolding stats median day nanos slot asked_after count_event count_events count_case count_cases
    count_one put_in_order sort middle div_euclid scale ◌+ℤ◌ ◌-ℤ◌
stats-timed = refl

median-even : median (5000000000 ∷ 1000000000 ∷ 2000000000 ∷ 9000000000 ∷ []) ≡ some 3
unfolding median middle sort put_in_order
median-even = refl

median_lem_example :
    (m : ℕ) × (4 ≤ 2 * count_le m (5000000000 ∷ 1000000000 ∷ 2000000000 ∷ 9000000000 ∷ []))
    × (4 ≤ 2 * count_ge m (5000000000 ∷ 1000000000 ∷ 2000000000 ∷ 9000000000 ∷ []))
    × (median (5000000000 ∷ 1000000000 ∷ 2000000000 ∷ 9000000000 ∷ [])
        ≡ (if leb (m / second) u64_max then some (m / second) else none))
median_lem_example =
    median_lem (5000000000 ∷ 1000000000 ∷ 2000000000 ∷ 9000000000 ∷ []) (omega arith)

yesterday : opened_on now 3 1 (timed ∷ []) ≡ 1
unfolding day div_euclid ◌+ℤ◌ ◌-ℤ◌
yesterday = refl

unanswered : answered_on now 3 1 (timed ∷ []) ≡ 0
unfolding day div_euclid ◌+ℤ◌ ◌-ℤ◌
unanswered = refl

stats_days_example :
    (get_elem? (stats (timed ∷ []) now 3).opened 1 ≡ some (opened_on now 3 1 (timed ∷ [])))
    × (get_elem? (stats (timed ∷ []) now 3).answered 1 ≡ some (answered_on now 3 1 (timed ∷ [])))
stats_days_example =
    stats_days (timed ∷ []) now 3 1 (omega arith) (omega (arith, yesterday))
      (omega (arith, unanswered))
