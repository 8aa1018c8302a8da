-- ===== src/Examples/Replayed.antt =====
-- Cases that are folded and appended to, and the theorems about them.
use cases.Prelude.{length, ◌≡◌, refl, none, some, [], ◌∷◌}
use cases.Error.{Category, ok, err}
use cases.Names.{Author, Kind, State, Urgency}
use cases.Record.{Record}
use cases.Case.{Case}
use cases.Replay.Taking.{started}
use cases.Replay.Folding.{fold}
use cases.Replay.Appending.{append_event}
use cases.Replay.Atomic.{append_event_refused}
use cases.Replay.Answer.{IsAnswerTo, fold-HasAnswer, append_event-HasAnswer}
use cases.Replay.Folding.{max_seq}
use cases.Replay.Listed.{Listed, fold-Listed}
use cases.Replay.Question.{fold-IsSound, append_event-IsSound}
use cases.Rules.Sound.{IsSound}
use cases.Replay.Lifecycle.{IsLifecycle, fold-IsLifecycle, append_event-IsLifecycle}
use cases.Examples.Running.{running}
use cases.Examples.Script.{scripted, stored_rows, asked, chosen, now, answer_append}

abbrev pub opened : Case
opened = started 1 Author.agent asked "asked" (Kind.decision, Urgency.today)

abbrev pub answered : Case
answered = record opened {
  state = State.answered;
  revision = 3;
  last_seq = 3;
  answer = some chosen;
  events =
      record {
        seq = 1;
        author = Author.agent;
        from = none;
        entry = Record.open_ asked;
        text = "asked";
      }
      ∷ record {
        seq = 3;
        author = Author.human;
        from = some State.open_;
        entry = Record.answer chosen;
        text = "chosen";
      }
      ∷ [];
  problems = record { seq = 2; author = "agent"; event = "answer"; error = Category.author } ∷ [];
}

-- The agent's answer is skipped, and the human's is taken.
pub fold-stored_rows : fold scripted stored_rows ≡ ok answered
unfolding running scripted
fold-stored_rows = refl

fold-IsLifecycle_example : IsLifecycle answered
fold-IsLifecycle_example = fold-IsLifecycle scripted stored_rows fold-stored_rows

append_event-IsLifecycle_example :
    IsLifecycle (append_event scripted answer_append now none (some 3) answered).1
append_event-IsLifecycle_example =
    append_event-IsLifecycle scripted answer_append now none (some 3) answered
      (fold-IsLifecycle scripted stored_rows fold-stored_rows)

second_answer :
    (append_event scripted answer_append now none (some 3) answered).0 ≡ err Category.transition
unfolding running scripted
second_answer = refl

append_event_refused_example :
    (append_event scripted answer_append now none (some 3) answered).1 ≡ answered
append_event_refused_example =
    append_event_refused scripted answer_append now none (some 3) answered second_answer

fold-IsSound_example : IsSound answered.kind answered.question
fold-IsSound_example = fold-IsSound scripted stored_rows fold-stored_rows

append_event-IsSound_example :
    let c' = (append_event scripted answer_append now none (some 3) answered).1 in
    IsSound c'.kind c'.question
append_event-IsSound_example =
    append_event-IsSound scripted answer_append now none (some 3) answered
      (fold-IsSound scripted stored_rows fold-stored_rows)

fold-HasAnswer_example :
    IsAnswerTo answered.kind answered.question answered.amend_seq answered.answer
fold-HasAnswer_example = fold-HasAnswer scripted stored_rows fold-stored_rows

append_event-HasAnswer_example :
    let c' = (append_event scripted answer_append now none (some 3) answered).1 in
    IsAnswerTo c'.kind c'.question c'.amend_seq c'.answer
append_event-HasAnswer_example =
    append_event-HasAnswer scripted answer_append now none (some 3) answered
      (fold-IsLifecycle scripted stored_rows fold-stored_rows)
      (fold-HasAnswer scripted stored_rows fold-stored_rows)

fold-Listed_example :
    Listed scripted stored_rows answered.events answered.problems
    × (answered.revision ≡ length stored_rows)
    × (answered.last_seq ≡ max_seq stored_rows)
fold-Listed_example = fold-Listed scripted stored_rows fold-stored_rows
