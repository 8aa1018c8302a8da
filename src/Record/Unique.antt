-- ===== src/Record/Unique.antt =====
-- crates/core/src/record.rs: what `UniqueVisitor` accepts, and what it gives.
use cases.Prelude.{
  some-injective, String, Bool, true, false, Option, none, some, ◌≡◌, refl, sym, ap, ◌∙◌, arith,
  ◌==◌, ◌||◌, eq_iff, ◌↔◌,
}
use cases.Record.Json.{
  Json, Items, Fields, null, boolean, int, float, str, array, object, nil, cons, end, field, Serde,
  lookup, contains_key, MapLaws, unique, visit_seq, visit_map,
}
use cases.Prelude.{Option-cases, Bool-cases, ◌⊎◌, inl, inr, if◌then◌else◌}
use cases.Record.Same.{
  IsUnique, AreUnique, AreUniqueFields, Same, SameItems, SameField, null_same, boolean_same,
  int_same, float_same, str_same, array_same, object_same, nil_same, cons_same, absent, present,
}
use mathlib.Core.Path.{subst}

eq_sym : (s t : String) → (s == t) ≡ (t == s)
eq_sym s t = ground (arith, eq_iff s t, eq_iff t s)

abbrev is_given : Option Json → Bool
is_given none = false
is_given (some x) = true

contains_key-lookup :
    (k : String) (fields : Fields) → contains_key k fields ≡ is_given (lookup k fields)
unfolding contains_key lookup
contains_key-lookup k end = refl
contains_key-lookup k (field key x rest) = ground (arith, contains_key-lookup k rest)

is_some_if :
    (test : Bool) (x : Json) (o : Option Json)
    → is_given (if test then some x else o) ≡ (is_given o || test)
is_some_if true x o = ground arith
is_some_if false x o = ground arith

-- The map has none of the keys of the fields.
abbrev IsApartFrom : Fields → Fields → Type 0
IsApartFrom map end = Unit
IsApartFrom map (field key x rest) = (contains_key key map ≡ false) × IsApartFrom map rest

end-IsApartFrom : (fields : Fields) → IsApartFrom end fields
unfolding contains_key
end-IsApartFrom end = tt
end-IsApartFrom (field key x rest) = (refl, end-IsApartFrom rest)

nothing : (k : String) → lookup k end ≡ none
unfolding lookup
nothing k = refl

module _ (serde : Serde) (laws : MapLaws serde) where
  contains_key-insert :
      (map : Fields) (key : String) (x : Json) (k : String)
      → contains_key key map ≡ false
      → contains_key k (serde.insert map key x) ≡ (contains_key k map || key == k)
  contains_key-insert map key x k h =
      let found = laws.lookup-insert map key x k h in
      ground (
        arith,
        contains_key-lookup k (serde.insert map key x),
        contains_key-lookup k map,
        found,
        is_some_if (key == k) x (lookup k map),
      )

  insert-IsApartFrom :
      (map : Fields) (key : String) (x : Json) (rest : Fields)
      → contains_key key map ≡ false
      → IsApartFrom map rest
      → contains_key key rest ≡ false
      → IsApartFrom (serde.insert map key x) rest
  unfolding contains_key
  insert-IsApartFrom map key x end new p q = tt
  insert-IsApartFrom map key x (field k y rest) new p q = (
    ground (arith, contains_key-insert map key x k new, p.0, eq_sym k key),
    insert-IsApartFrom map key x rest new p.1 (ground arith),
  )

  IsApartFrom-insert :
      (map : Fields) (key : String) (x : Json) (rest : Fields)
      → contains_key key map ≡ false
      → IsApartFrom (serde.insert map key x) rest
      → IsApartFrom map rest × (contains_key key rest ≡ false)
  unfolding contains_key
  IsApartFrom-insert map key x end new p = (tt, refl)
  IsApartFrom-insert map key x (field k y rest) new p =
      let q = IsApartFrom-insert map key x rest new p.1 in
      (
        (ground (arith, contains_key-insert map key x k new, p.0), q.0),
        ground (arith, contains_key-insert map key x k new, p.0, eq_sym k key, q.1),
      )

  visit_map_step :
      (key : String) (x v : Json) (rest map : Fields)
      → contains_key key map ≡ false
      → unique serde x ≡ some v
      → visit_map serde (field key x rest) map ≡ visit_map serde rest (serde.insert map key v)
  unfolding visit_map
  visit_map_step key x v rest map e f = ground arith

  mutual
    unfolding unique visit_seq visit_map IsUnique AreUnique AreUniqueFields

    -- A value in which no object gives a key twice is accepted.
    unique_whole : (v : Json) → IsUnique v → (w : Json) × (unique serde v ≡ some w)
    unique_whole (array items) u =
        let (list, e) = visit_seq_whole items u in (array list, rw e refl)
    unique_whole (object fields) u =
        let (map, e) = visit_map_whole fields end u (end-IsApartFrom fields) in
        (object map, rw e refl)
    unique_whole null u = (null, refl)
    unique_whole (boolean b) u = (boolean b, refl)
    unique_whole (int n) u = (int n, refl)
    unique_whole (float s) u = (float s, refl)
    unique_whole (str s) u = (str s, refl)

    visit_seq_whole :
        (items : Items) → AreUnique items → (list : Items) × (visit_seq serde items ≡ some list)
    visit_seq_whole nil u = (nil, refl)
    visit_seq_whole (cons x rest) u =
        let (w, e) = unique_whole x u.0 in
        let (list, f) = visit_seq_whole rest u.1 in (cons w list, rw (e, f) refl)

    visit_map_whole :
        (fields map : Fields)
        → AreUniqueFields fields
        → IsApartFrom map fields
        → (m : Fields) × (visit_map serde fields map ≡ some m)
    visit_map_whole end map u p = (map, refl)
    visit_map_whole (field key x rest) map u p =
        let (v, e) = unique_whole x u.1 in
        let (m, f) =
          visit_map_whole rest (serde.insert map key v) u.2
            (insert-IsApartFrom map key v rest p.0 p.1 u.0) in
        (m, visit_map_step key x v rest map p.0 e ∙ f)

  -- What a map that was built holds for a key: what it held, or the value that a field gives.
  abbrev IsPlaced : Fields → Fields → Fields → String → Type 0
  IsPlaced fields map m k =
      ((lookup k fields ≡ none) × (lookup k m ≡ lookup k map))
      ⊎ ((x : Json) × (y : Json) × (lookup k fields ≡ some x) × (lookup k m ≡ some y) × Same x y)

  IsPlaced-field :
      (map : Fields) (key : String) (x v : Json) (rest m : Fields) (k : String)
      → contains_key key map ≡ false
      → contains_key key rest ≡ false
      → Same x v
      → IsPlaced rest (serde.insert map key v) m k
      → IsPlaced (field key x rest) map m k
  unfolding lookup
  IsPlaced-field map key x v rest m k new once same (inl (gone, kept)) =
      let found = laws.lookup-insert map key v k new in
      elim (Bool-cases (key == k)) [
        | inl e ↦ inr (x, v, rw e refl, kept ∙ (found ∙ rw e refl), same)
        | inr e ↦ inl (rw e gone, kept ∙ (found ∙ rw e refl))
      ]
  IsPlaced-field map key x v rest m k new once same (inr (a, b, given, built, alike)) =
      elim (Bool-cases (key == k)) [
        | inl e ↦ absurd (
            let same_key = (eq_iff key k).0 e in
            let none_there = subst (λ k. contains_key k rest ≡ false) same_key once in
            ground (arith, contains_key-lookup k rest, none_there, given))
        | inr e ↦ inr (a, b, rw e given, built, alike)
      ]

  same_field :
      (f g : Fields) (k : String) → IsPlaced f end g k → SameField (lookup k f) (lookup k g)
  unfolding lookup
  same_field f g k (inl (gone, kept)) = rw (gone, kept) absent
  same_field f g k (inr (x, y, given, built, alike)) = rw (given, built) (present alike)

  mutual
    unfolding unique visit_seq visit_map IsUnique AreUnique AreUniqueFields

    unique_given : (v : Json) {w : Json} → unique serde v ≡ some w → Same v w × IsUnique v
    unique_given (array items) h = elim (Option-cases (visit_seq serde items)) [
      | inl e ↦ absurd (ground arith)
      | inr (list, e) ↦
          let p = visit_seq_given items e in
          (subst (Same (array items)) (some-injective (rw e at h)) (array_same p.0), p.1)
    ]
    unique_given (object fields) h = elim (Option-cases (visit_map serde fields end)) [
      | inl e ↦ absurd (ground arith)
      | inr (map, e) ↦
          let p = visit_map_given fields end e in
          (
            subst (Same (object fields)) (some-injective (rw e at h))
                (object_same (λ k. same_field fields map k (p.2 k))),
            p.0,
          )
    ]
    unique_given null h = (subst (Same null) (some-injective h) null_same, tt)
    unique_given (boolean b) h = (subst (Same (boolean b)) (some-injective h) (boolean_same b), tt)
    unique_given (int n) h = (subst (Same (int n)) (some-injective h) (int_same n), tt)
    unique_given (float s) h = (subst (Same (float s)) (some-injective h) (float_same s), tt)
    unique_given (str s) h = (subst (Same (str s)) (some-injective h) (str_same s), tt)

    visit_seq_given :
        (items : Items) {list : Items}
        → visit_seq serde items ≡ some list
        → SameItems items list × AreUnique items
    visit_seq_given nil h = (subst (SameItems nil) (some-injective h) nil_same, tt)
    visit_seq_given (cons x rest) h = elim (Option-cases (unique serde x)) [
      | inl e ↦ absurd (ground arith)
      | inr (v, e) ↦ elim (Option-cases (visit_seq serde rest)) [
        | inl f ↦ absurd (ground arith)
        | inr (list, f) ↦
            let p = unique_given x e in
            let q = visit_seq_given rest f in
            (
              subst (SameItems (cons x rest)) (some-injective (rw (e, f) at h)) (cons_same p.0 q.0),
              (p.1, q.1),
            )
      ]
    ]

    visit_map_given :
        (fields map : Fields) {m : Fields}
        → visit_map serde fields map ≡ some m
        → AreUniqueFields fields × IsApartFrom map fields × ((k : String) → IsPlaced fields map m k)
    visit_map_given end map h =
        (tt, tt, λ k. inl (nothing k, ap (lookup k) (sym (some-injective h))))
    visit_map_given (field key x rest) map {m = m} h = elim (Bool-cases (contains_key key map)) [
      | inl e ↦ absurd (ground arith)
      | inr e ↦ elim (Option-cases (unique serde x)) [
        | inl f ↦ absurd (ground arith)
        | inr (v, f) ↦
            let p = unique_given x f in
            let q =
              visit_map_given rest (serde.insert map key v) {m = m}
                (sym (visit_map_step key x v rest map e f) ∙ h) in
            let apart = IsApartFrom-insert map key v rest e q.1 in
            (
              (apart.1, p.1, q.0),
              (e, apart.0),
              λ k. IsPlaced-field map key x v rest m k e apart.1 p.0 (q.2 k),
            )
      ]
    ]

  -- A value is accepted exactly when no object in it, however deep, gives a key twice, and what is
  -- given is the value itself but for the order of the fields in its objects, which is the map's:
  -- items keep their order, and each key has its value, and no other key one.
  pub unique_lem :
      (v : Json)
      → (((w : Json) × (unique serde v ≡ some w)) ↔ IsUnique v)
        × ((w : Json) → unique serde v ≡ some w → Same v w)
  unique_lem v = (
    (λ (w, h). (unique_given v {w = w} h).1, unique_whole v),
    λ w h. (unique_given v {w = w} h).0,
  )
