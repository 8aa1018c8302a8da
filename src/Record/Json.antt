-- ===== src/Record/Json.antt =====
-- crates/core/src/record.rs: JSON text and values, as `serde_json` gives them to the code.
-- `Serde` is that library: `from_str` gives the value that a text spells, with the fields of an
-- object in the order of the text, given twice or not, as a visitor is handed them; `to_string`
-- writes a value. A number that is no integer is kept as its text. `insert` is `Map::insert`, and a
-- `Map` is its pairs of a key and a value, in the order that the library keeps them in.
use cases.Prelude.{String, Bool, true, false, Option, none, some, ◌==◌, if◌then◌else◌, ◌≡◌}
use cases.Prelude.Int.{ℤ}

mutual
  pub data Json : Type 0 where
    null : Json
    boolean : Bool → Json
    int : ℤ → Json
    float : String → Json
    str : String → Json
    array : Items → Json
    object : Fields → Json

  pub data Items : Type 0 where
    nil : Items
    cons : Json → Items → Items

  pub data Fields : Type 0 where
    end : Fields
    field : String → Json → Fields → Fields

pub record Serde : Type 0 where
  pub from_str : String → Option Json
  pub to_string : Json → String
  pub insert : Fields → String → Json → Fields

infixl 10 ◌>>=◌
abbrev pub ◌>>=◌ {ℓ κ} : {A : Type ℓ} {B : Type κ} → Option A → (A → Option B) → Option B
some a >>= f = f a
none >>= f = none

-- `Map::get`. A reader takes each key off the map once, so it may as well look it up.
unfoldable pub lookup : String → Fields → Option Json
lookup key end = none
lookup key (field k v rest) = if k == key then some v else lookup key rest

unfoldable pub contains_key : String → Fields → Bool
contains_key key end = false
contains_key key (field k v rest) = if k == key then true else contains_key key rest

-- What a map holds after `Map::insert` of a key that it did not hold.
pub record MapLaws (serde : Serde) : Type 0 where
  pub lookup-insert :
      (map : Fields) (key : String) (value : Json) (k : String)
      → contains_key key map ≡ false
      → lookup k (serde.insert map key value) ≡ (if key == k then some value else lookup k map)

-- `UniqueVisitor`: the value, if no object in it gives a key twice. `visit_map` carries the map
-- that it has built.
module _ (serde : Serde) where
  unfoldable mutual
    pub unique : Json → Option Json
    unique (array items) = do list ← visit_seq items; some (array list)
    unique (object fields) = do map ← visit_map fields end; some (object map)
    unique null = some null
    unique (boolean b) = some (boolean b)
    unique (int n) = some (int n)
    unique (float s) = some (float s)
    unique (str s) = some (str s)

    pub visit_seq : Items → Option Items
    visit_seq nil = some nil
    visit_seq (cons x rest) = do v ← unique x; list ← visit_seq rest; some (cons v list)

    pub visit_map : Fields → Fields → Option Fields
    visit_map end map = some map
    visit_map (field key x rest) map = elim (contains_key key map) [
      | true ↦ none
      | false ↦ (do v ← unique x; visit_map rest (serde.insert map key v))
    ]
