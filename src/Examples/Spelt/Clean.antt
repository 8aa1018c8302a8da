-- ===== src/Examples/Spelt/Clean.antt =====
-- What the library spells has no sign before a zero, and reads back.
use cases.Prelude.{ℕ, zero, suc, String, true, false, ◌≡◌, refl, ap, some, []}
use cases.Prelude.Int.{pos, negsuc}
use cases.Record.Json.{
  Json, Items, Fields, null, boolean, int, float, str, array, object, nil, cons, end, field, lookup,
  MapLaws,
}
use cases.Record.Same.{Same-refl}
use cases.Record.Spelling.{IsSpelt, ended, quote, mark, IsQuoted, close, escape, Spells}
use cases.Examples.Spelt.{
  spell_chars, spell_text, spell_count, spell, spell_items, spell_fields, run, run-spell, top,
  spelling,
}

spell_chars-IsSpelt : (s k : String) → IsQuoted k → IsSpelt (spell_chars s k)
unfolding spell_chars
spell_chars-IsSpelt String.[] k h = quote h
spell_chars-IsSpelt (String.◌∷◌ c s) k h = spell_chars-IsSpelt s _ (escape h)

spell_text-IsSpelt : (s k : String) → IsSpelt k → IsSpelt (spell_text s k)
unfolding spell_text
spell_text-IsSpelt s k h = spell_chars-IsSpelt s _ (close h)

spell_count-IsSpelt : (n : ℕ) (k : String) → IsSpelt k → IsSpelt (spell_count n k)
unfolding spell_count
spell_count-IsSpelt zero k h = mark refl refl h
spell_count-IsSpelt (suc n) k h = spell_count-IsSpelt n _ (mark refl refl h)

mutual
  unfolding spell spell_items spell_fields

  spell-IsSpelt : (v : Json) (k : String) → IsSpelt k → IsSpelt (spell v k)
  spell-IsSpelt null k h = mark refl refl h
  spell-IsSpelt (boolean true) k h = mark refl refl h
  spell-IsSpelt (boolean false) k h = mark refl refl h
  spell-IsSpelt (int (pos n)) k h = spell_count-IsSpelt n _ (mark refl refl h)
  spell-IsSpelt (int (negsuc n)) k h = spell_count-IsSpelt n _ (mark refl refl h)
  spell-IsSpelt (float s) k h = spell_text-IsSpelt s _ (mark refl refl h)
  spell-IsSpelt (str s) k h = spell_text-IsSpelt s _ (mark refl refl h)
  spell-IsSpelt (array xs) k h = spell_items-IsSpelt xs _ (mark refl refl h)
  spell-IsSpelt (object fs) k h = spell_fields-IsSpelt fs _ (mark refl refl h)

  spell_items-IsSpelt : (xs : Items) (k : String) → IsSpelt k → IsSpelt (spell_items xs k)
  spell_items-IsSpelt nil k h = mark refl refl h
  spell_items-IsSpelt (cons x xs) k h =
      spell_items-IsSpelt xs _ (spell-IsSpelt x _ (mark refl refl h))

  spell_fields-IsSpelt : (fs : Fields) (k : String) → IsSpelt k → IsSpelt (spell_fields fs k)
  spell_fields-IsSpelt end k h = mark refl refl h
  spell_fields-IsSpelt (field key x rest) k h =
      spell_fields-IsSpelt rest _ (spell_text-IsSpelt key _ (spell-IsSpelt x _ (mark refl refl h)))

pub spelling-MapLaws : MapLaws spelling
unfolding lookup
spelling-MapLaws = record { lookup-insert = λ map key value k new. refl }

spelling-back : (v : Json) → spelling.from_str (spelling.to_string v) ≡ some v
unfolding top run
spelling-back v = ap top (run-spell v "" [])

pub spelling-Spells : (v : Json) → Spells spelling v
spelling-Spells v once = (spell-IsSpelt v "" ended, (v, spelling-back v, Same-refl v, once))
