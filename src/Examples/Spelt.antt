-- ===== src/Examples/Spelt.antt =====
-- A library that spells every value so that it reads back: what `SerdeLaws` asks can be had. A value
-- is written as the steps of a machine that builds it on a stack, with its texts in quotes.
pub mod Clean
use Prim.Native.Char.{Char}
use cases.Prelude.{
  ℕ, zero, suc, String, code, Bool, true, false, not, ◌&&◌, ◌||◌, leb, ◌≡◌, refl, sym, ap, ◌∙◌,
  Option, none, some, List, [], ◌∷◌, nat_eq, arith, if◌then◌else◌,
}
use cases.Prelude.Int.{ℤ, pos, negsuc}
use cases.Record.Json.{
  Json, Items, Fields, null, boolean, int, float, str, array, object, nil, cons, end, field, Serde,
}

pub data Part : Type 0 where
  value : Json → Part
  items : Items → Part
  fields : Fields → Part
  text : String → Part
  count : ℕ → Part

succ_top : List Part → List Part
succ_top (count n ∷ st) = count (suc n) ∷ st
succ_top st = st

pos_top : List Part → List Part
pos_top (count n ∷ st) = value (int (pos n)) ∷ st
pos_top st = st

negsuc_top : List Part → List Part
negsuc_top (count n ∷ st) = value (int (negsuc n)) ∷ st
negsuc_top st = st

str_top : List Part → List Part
str_top (text s ∷ st) = value (str s) ∷ st
str_top st = st

float_top : List Part → List Part
float_top (text s ∷ st) = value (float s) ∷ st
float_top st = st

cons_top : List Part → List Part
cons_top (value x ∷ items xs ∷ st) = items (cons x xs) ∷ st
cons_top st = st

array_top : List Part → List Part
array_top (items xs ∷ st) = value (array xs) ∷ st
array_top st = st

field_top : List Part → List Part
field_top (value x ∷ text key ∷ fields rest ∷ st) = fields (field key x rest) ∷ st
field_top st = st

object_top : List Part → List Part
object_top (fields rest ∷ st) = value (object rest) ∷ st
object_top st = st

char_top : Char → List Part → List Part
char_top c (text s ∷ st) = text (String.◌∷◌ c s) ∷ st
char_top c st = st

-- One step, by its letter.
step : ℕ → List Part → List Part
unfolding succ_top pos_top negsuc_top str_top float_top cons_top array_top field_top object_top
step c st =
    if nat_eq c b'n'
    then value null ∷ st
    else if nat_eq c b't'
    then value (boolean true) ∷ st
    else if nat_eq c b'f'
    then value (boolean false) ∷ st
    else if nat_eq c b'z'
    then count 0 ∷ st
    else if nat_eq c b's'
    then succ_top st
    else if nat_eq c b'p'
    then pos_top st
    else if nat_eq c b'm'
    then negsuc_top st
    else if nat_eq c b'q'
    then str_top st
    else if nat_eq c b'w'
    then float_top st
    else if nat_eq c b'i'
    then items nil ∷ st
    else if nat_eq c b'k'
    then cons_top st
    else if nat_eq c b'a'
    then array_top st
    else if nat_eq c b'o'
    then fields end ∷ st
    else if nat_eq c b'd'
    then field_top st
    else object_top st

pub data Mode : Type 0 where
  plain : Mode
  quoted : Mode
  escaped : Mode

-- A quote starts a text, in which a backslash puts the character after it in front.
unfoldable pub run : Mode → String → List Part → List Part
unfolding step char_top
run mode String.[] st = st
run plain (String.◌∷◌ c s) st = elim (nat_eq (code c) b'"') [
  | true ↦ run quoted s (text "" ∷ st)
  | false ↦ run plain s (step (code c) st)
]
run quoted (String.◌∷◌ c s) st = elim (nat_eq (code c) b'\\') [
  | true ↦ run escaped s st
  | false ↦ run plain s st
]
run escaped (String.◌∷◌ c s) st = run quoted s (char_top c st)

spell_chars : String → String → String
spell_chars String.[] k = String.◌∷◌ "\"" k
spell_chars (String.◌∷◌ c s) k = spell_chars s (String.◌∷◌ "\\" (String.◌∷◌ c k))

spell_text : String → String → String
unfolding spell_chars
spell_text s k = spell_chars s (String.◌∷◌ "\"" k)

spell_count : ℕ → String → String
spell_count zero k = String.◌∷◌ "z" k
spell_count (suc n) k = spell_count n (String.◌∷◌ "s" k)

unfoldable mutual
  unfolding spell_text spell_count

  pub spell : Json → String → String
  spell null k = String.◌∷◌ "n" k
  spell (boolean true) k = String.◌∷◌ "t" k
  spell (boolean false) k = String.◌∷◌ "f" k
  spell (int (pos n)) k = spell_count n (String.◌∷◌ "p" k)
  spell (int (negsuc n)) k = spell_count n (String.◌∷◌ "m" k)
  spell (float s) k = spell_text s (String.◌∷◌ "w" k)
  spell (str s) k = spell_text s (String.◌∷◌ "q" k)
  spell (array xs) k = spell_items xs (String.◌∷◌ "a" k)
  spell (object fs) k = spell_fields fs (String.◌∷◌ "O" k)

  spell_items : Items → String → String
  spell_items nil k = String.◌∷◌ "i" k
  spell_items (cons x xs) k = spell_items xs (spell x (String.◌∷◌ "k" k))

  spell_fields : Fields → String → String
  spell_fields end k = String.◌∷◌ "o" k
  spell_fields (field key x rest) k =
      spell_fields rest (spell_text key (spell x (String.◌∷◌ "d" k)))

run-spell_chars :
    (s k : String) (st : List Part) → run plain (spell_chars s k) st ≡ run quoted k (text s ∷ st)
unfolding run spell_chars step char_top
run-spell_chars String.[] k st = refl
run-spell_chars (String.◌∷◌ c s) k st = run-spell_chars s (String.◌∷◌ "\\" (String.◌∷◌ c k)) st

run-spell_text :
    (s k : String) (st : List Part) → run plain (spell_text s k) st ≡ run plain k (text s ∷ st)
unfolding run spell_text
run-spell_text s k st = run-spell_chars s (String.◌∷◌ "\"" k) st

run-spell_count :
    (n : ℕ) (k : String) (st : List Part)
    → run plain (spell_count n k) st ≡ run plain k (count n ∷ st)
unfolding run spell_count step succ_top
run-spell_count zero k st = refl
run-spell_count (suc n) k st = run-spell_count n (String.◌∷◌ "s" k) st

mutual
  unfolding run spell spell_items spell_fields step pos_top negsuc_top str_top float_top cons_top
      array_top field_top object_top

  run-spell :
      (v : Json) (k : String) (st : List Part)
      → run plain (spell v k) st ≡ run plain k (value v ∷ st)
  run-spell null k st = refl
  run-spell (boolean true) k st = refl
  run-spell (boolean false) k st = refl
  run-spell (int (pos n)) k st = run-spell_count n (String.◌∷◌ "p" k) st
  run-spell (int (negsuc n)) k st = run-spell_count n (String.◌∷◌ "m" k) st
  run-spell (float s) k st = run-spell_text s (String.◌∷◌ "w" k) st
  run-spell (str s) k st = run-spell_text s (String.◌∷◌ "q" k) st
  run-spell (array xs) k st = run-spell_items xs (String.◌∷◌ "a" k) st
  run-spell (object fs) k st = run-spell_fields fs (String.◌∷◌ "O" k) st

  run-spell_items :
      (xs : Items) (k : String) (st : List Part)
      → run plain (spell_items xs k) st ≡ run plain k (items xs ∷ st)
  run-spell_items nil k st = refl
  run-spell_items (cons x xs) k st =
      run-spell_items xs (spell x (String.◌∷◌ "k" k)) st
      ∙ run-spell x (String.◌∷◌ "k" k) (items xs ∷ st)

  run-spell_fields :
      (fs : Fields) (k : String) (st : List Part)
      → run plain (spell_fields fs k) st ≡ run plain k (fields fs ∷ st)
  run-spell_fields end k st = refl
  run-spell_fields (field key x rest) k st =
      run-spell_fields rest (spell_text key (spell x (String.◌∷◌ "d" k))) st
      ∙ run-spell_text key (spell x (String.◌∷◌ "d" k)) (fields rest ∷ st)
      ∙ run-spell x (String.◌∷◌ "d" k) (text key ∷ fields rest ∷ st)

unfoldable pub top : List Part → Option Json
top (value v ∷ st) = some v
top st = none

abbrev pub spelling : Serde
spelling = record {
  from_str = λ s. top (run plain s []);
  to_string = λ v. spell v "";
  insert = λ map key value. field key value map;
}
