-- ===== src/Examples/Lawful.antt =====
-- A codec that keeps its laws, and what it gives: an append to a stored case, folded again.
use cases.Prelude.{
  String, code, nat_eq, Bool, true, false, ◌≡◌, refl, sym, ap, ◌∙◌, ◌⊎◌, inl, inr, Option, none,
  some, [], ◌∷◌, arith,
}
use cases.Error.{malformed, Result, ok, err, ok-injective}
use cases.Names.{EventType}
use cases.Time.{Time}
use cases.Record.{Actor, Record, Open, Answer, event, actor, at, set_actor, set_at}
use cases.Record.Codec.{Codec, CodecLaws}
use cases.Names.{Author, Kind, Urgency}
use cases.Case.{Case, Row, Append}
use cases.Replay.Taking.{started}
use cases.Replay.Writing.{open_case}
use cases.Replay.Folding.{fold}
use cases.Replay.Appending.{append_event}
use cases.Replay.Refinement.{append_event-fold, open_case-fold}
use cases.Examples.Running.{running}
use cases.Examples.Script.{asked, chosen, now}

-- Who wrote a record, and whether it has a time.
abbrev pub Stamp : Type 0
Stamp = Option Actor × Bool

abbrev pub time_given : Bool → Option Time
time_given true = some now
time_given false = none

abbrev pub asked_by : Stamp → Open
asked_by (who, timed) = record asked { actor = who; opened_at = time_given timed }

abbrev pub chosen_by : Stamp → Answer
chosen_by (who, timed) = record chosen { actor = who; answered_at = time_given timed }

abbrev is_timed : Option Time → Bool
is_timed none = false
is_timed (some t) = true

abbrev write_who : Option Actor → String
write_who none = ""
write_who (some a) = String.◌∷◌ "1" a.id

abbrev write_stamp : Stamp → String
write_stamp (who, true) = String.◌∷◌ "1" (write_who who)
write_stamp (who, false) = String.◌∷◌ "0" (write_who who)

abbrev read_who : String → Option Actor
read_who String.[] = none
read_who (String.◌∷◌ c s) = some (record { id = s })

unfoldable read_stamp : String → Stamp
read_stamp String.[] = (none, false)
read_stamp (String.◌∷◌ c s) = (read_who s, nat_eq (code c) b'1')

read_who-write : (who : Option Actor) → read_who (write_who who) ≡ who
read_who-write none = refl
read_who-write (some a) = refl

unfoldable pub read_plain : EventType → String → Result Record
unfolding read_stamp
read_plain EventType.open_ s = ok (Record.open_ (asked_by (read_stamp s)))
read_plain EventType.answer s = ok (Record.answer (chosen_by (read_stamp s)))
read_plain _ s = err malformed

unfoldable pub write_plain : Record → String
unfolding actor at
write_plain r = write_stamp (actor r, is_timed (at r))

abbrev pub plain : Codec
plain = record { read_record = read_plain; to_json = write_plain }

abbrev IsNow : Time → Type 0
IsNow t = t ≡ now

abbrev IsPlain : Record → Type 0
IsPlain r = (p : Stamp) × ((r ≡ Record.open_ (asked_by p)) ⊎ (r ≡ Record.answer (chosen_by p)))

event-read_plain : (e : EventType) (s : String) (r : Record) → read_plain e s ≡ ok r → event r ≡ e
unfolding read_plain event
event-read_plain EventType.open_ s r h = sym (ap event (ok-injective h))
event-read_plain EventType.answer s r h = sym (ap event (ok-injective h))
event-read_plain _ s r h = absurd (cc h)

read_plain-IsPlain : (e : EventType) (s : String) (r : Record) → read_plain e s ≡ ok r → IsPlain r
unfolding read_plain
read_plain-IsPlain EventType.open_ s r h = (read_stamp s, inl (sym (ok-injective h)))
read_plain-IsPlain EventType.answer s r h = (read_stamp s, inr (sym (ok-injective h)))
read_plain-IsPlain _ s r h = absurd (cc h)

set_actor-IsPlain : (a : Option Actor) (r : Record) → IsPlain r → IsPlain (set_actor a r)
unfolding set_actor
set_actor-IsPlain a r ((who, timed), inl e) = ((a, timed), inl (ap (set_actor a) e))
set_actor-IsPlain a r ((who, timed), inr e) = ((a, timed), inr (ap (set_actor a) e))

set_at-IsPlain : (t : Time) (r : Record) → IsNow t → IsPlain r → IsPlain (set_at (some t) r)
unfolding set_at
set_at-IsPlain t r n ((who, timed), inl e) = (
  (who, true),
  inl (ap (set_at (some t)) e ∙ ap (λ t. set_at (some t) (Record.open_ (asked_by (who, timed)))) n),
)
set_at-IsPlain t r n ((who, timed), inr e) = (
  (who, true),
  inr (
      ap (set_at (some t)) e
      ∙ ap (λ t. set_at (some t) (Record.answer (chosen_by (who, timed)))) n),
)

read_plain-write : (r : Record) → IsPlain r → read_plain (event r) (write_plain r) ≡ ok r
unfolding read_plain write_plain event actor at
read_plain-write r ((who, true), inl e) =
    rw e (ap (λ who. ok (Record.open_ (asked_by (who, true)))) (read_who-write who))
read_plain-write r ((who, false), inl e) =
    rw e (ap (λ who. ok (Record.open_ (asked_by (who, false)))) (read_who-write who))
read_plain-write r ((who, true), inr e) =
    rw e (ap (λ who. ok (Record.answer (chosen_by (who, true)))) (read_who-write who))
read_plain-write r ((who, false), inr e) =
    rw e (ap (λ who. ok (Record.answer (chosen_by (who, false)))) (read_who-write who))

pub plain-CodecLaws : CodecLaws plain IsNow
plain-CodecLaws = record {
  Writable = IsPlain;
  event-read = event-read_plain;
  read-Writable = read_plain-IsPlain;
  set_actor-Writable = set_actor-IsPlain;
  set_at-Writable = set_at-IsPlain;
  read-to_json = read_plain-write;
}

-- A case opened and answered through this codec.
abbrev plain_open_row : Row
plain_open_row = record { seq = 1; author = "agent"; event = "open"; text = "1" }

abbrev plain_answer : Append
plain_answer = record { author = "human"; event = "answer"; text = "0" }

abbrev plain_open : Append
plain_open = record { author = "agent"; event = "open"; text = "0" }

abbrev plain_started : Case
plain_started = started 1 Author.agent (asked_by (none, true)) "1" (Kind.decision, Urgency.today)

abbrev plain_opened : Case
plain_opened = record plain_started { revision = 1; last_seq = 1 }

abbrev human : Option Actor
human = some (record { id = "abcdefghijklmnopqrstuv" })

abbrev plain_answer_row : Row
plain_answer_row = record {
  seq = 2;
  author = "human";
  event = "answer";
  text = "11abcdefghijklmnopqrstuv";
}

fold-plain_open_row : fold plain (plain_open_row ∷ []) ≡ ok plain_opened
unfolding running read_plain
fold-plain_open_row = refl

append_event-plain :
    (append_event plain plain_answer now human (some 1) plain_opened).0 ≡ ok plain_answer_row
unfolding running read_plain write_plain
append_event-plain = refl

append_event-fold_example :
    fold plain (plain_open_row ∷ plain_answer_row ∷ [])
    ≡ ok (append_event plain plain_answer now human (some 1) plain_opened).1
append_event-fold_example =
    append_event-fold plain plain-CodecLaws (plain_open_row ∷ []) plain_answer now human (some 1)
      fold-plain_open_row (omega arith) refl append_event-plain

open_case-plain : open_case plain plain_open now none ≡ ok (plain_opened, plain_open_row)
unfolding running read_plain write_plain
open_case-plain = refl

open_case-fold_example : fold plain (plain_open_row ∷ []) ≡ ok plain_opened
open_case-fold_example =
    open_case-fold plain plain-CodecLaws plain_open now none refl open_case-plain
