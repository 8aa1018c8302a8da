-- ===== src/Examples/Values.antt =====
-- Values of JSON, and what the visitor makes of them.
use cases.Prelude.{◌≡◌, refl, none, some, ◌↔◌}
use cases.Prelude.Int.{pos}
use cases.Record.Json.{Json, int, str, object, array, cons, nil, end, field, contains_key, unique}
use cases.Record.Same.{IsUnique, Same}
use cases.Record.Unique.{unique_lem}
use cases.Examples.Spelt.{spelling}
use cases.Examples.Spelt.Clean.{spelling-MapLaws}

abbrev answer_value : Json
answer_value = object (
    field "choice" (int (pos 2))
      (field "rows" (array (cons (object (field "id" (str "a") end)) nil)) end))

abbrev turned_value : Json
turned_value = object (
    field "rows" (array (cons (object (field "id" (str "a") end)) nil))
      (field "choice" (int (pos 2)) end))

abbrev twice : Json
twice =
    object (
      field "rows" (array (cons (object (field "id" (str "a") (field "id" (str "b") end))) nil))
        end)

-- A map that puts a field in front gives the fields in the other order.
unique-answer_value : unique spelling answer_value ≡ some turned_value
unfolding unique contains_key
unique-answer_value = refl

unique-twice : unique spelling twice ≡ none
unfolding unique contains_key
unique-twice = refl

unique_lem_example :
    (((w : Json) × (unique spelling answer_value ≡ some w)) ↔ IsUnique answer_value)
    × ((w : Json) → unique spelling answer_value ≡ some w → Same answer_value w)
unique_lem_example = unique_lem spelling spelling-MapLaws answer_value
