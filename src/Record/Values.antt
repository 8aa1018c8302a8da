-- ===== src/Record/Values.antt =====
-- crates/core/src/record.rs: a single value reads from what it is written as, and gives no key twice.
use cases.Prelude.{
  zero, suc, String, Bool, true, false, ◌≡◌, refl, ap, Option, none, some, List, [], ◌∷◌, All,
}
use cases.Prelude.Int.{ℤ, pos, negsuc, ltb_ℤ}
use cases.Time.{Time}
use cases.Time.Text.RoundTrip.{time_from_str-time_to_string}
use cases.Time.Text.Accepted.{IsTime}
use cases.Record.Json.{Json, str, int, boolean}
use cases.Record.Fields.{
  fits_i64, from_ok, read_text, read_bool, read_int, read_count, read_time_field, read_items,
  read_list, read_some, read_given,
}
use cases.Record.Writing.{put_text, put_flag, put_int, write_items, put_list, put_some, write_time}
use cases.Record.Same.{IsUnique, AreUnique}
use cases.Record.Slots.{IsUniqueSlot}

pub read-put_text : (s : String) → read_given read_text "" (put_text s) ≡ some s
unfolding read_text put_text
read-put_text String.[] = refl
read-put_text (String.◌∷◌ c s) = refl

pub read-put_flag : (b : Bool) → read_given read_bool false (put_flag b) ≡ some b
unfolding read_bool put_flag
read-put_flag true = refl
read-put_flag false = refl

pub read-put_int : (n : ℤ) → fits_i64 n ≡ true → read_given read_int (pos 0) (put_int n) ≡ some n
unfolding read_int put_int
read-put_int (pos zero) h = refl
read-put_int (pos (suc n)) h = rw h refl
read-put_int (negsuc n) h = rw h refl

pub read_int-int : (n : ℤ) → fits_i64 n ≡ true → read_int (int n) ≡ some n
unfolding read_int
read_int-int n h = rw h refl

pub read-put_count :
    (n : ℤ)
    → fits_i64 n ≡ true
    → ltb_ℤ n (pos 0) ≡ false
    → read_given read_count (pos 0) (put_int n) ≡ some n
unfolding read_count read_int put_int
read-put_count (pos zero) h p = refl
read-put_count (pos (suc n)) h p = rw (h, p) refl
read-put_count (negsuc n) h p = rw (h, p) refl

pub read-write_time : (t : Time) → IsTime t → read_time_field (write_time t) ≡ some t
unfolding read_time_field write_time
read-write_time t (low, high, small) = ap from_ok (time_from_str-time_to_string t low high small)

pub read_text-str : (s : String) → read_text (str s) ≡ some s
unfolding read_text
read_text-str s = refl

pub read_bool-boolean : (b : Bool) → read_bool (boolean b) ≡ some b
unfolding read_bool
read_bool-boolean b = refl

module _ {A : Type 0} (read : Json → Option A) (write : A → Json) where
  -- The value reads from what it is written as.
  abbrev pub IsBack : A → Type 0
  IsBack a = read (write a) ≡ some a

  read_items-write_items :
      (xs : List A) → All IsBack xs → read_items read (write_items write xs) ≡ some xs
  unfolding read_items write_items
  read_items-write_items [] h = refl
  read_items-write_items (x ∷ xs) h = rw (h.0, read_items-write_items xs h.1) refl

  pub read-put_list :
      (xs : List A) → All IsBack xs → read_given (read_list read) [] (put_list write xs) ≡ some xs
  unfolding read_list put_list
  read-put_list [] h = refl
  read-put_list (x ∷ xs) h = read_items-write_items (x ∷ xs) h

  abbrev pub OfSome : (A → Type 0) → Option A → Type 0
  OfSome P none = Unit
  OfSome P (some a) = P a

  pub read-put_some :
      (o : Option A)
      → OfSome IsBack o
      → read_given (read_some read) none (put_some write o) ≡ some o
  unfolding read_some put_some
  read-put_some none h = refl
  read-put_some (some a) h = rw h refl

all : {A : Type 0} {P : A → Type 0} → ((a : A) → P a) → (xs : List A) → All P xs
all p [] = tt
all p (x ∷ xs) = (p x, all p xs)

pub all_back :
    {A : Type 0} (read : Json → Option A) (write : A → Json)
    → ((a : A) → read (write a) ≡ some a)
    → (xs : List A) → read_given (read_list read) [] (put_list write xs) ≡ some xs
all_back read write p xs = read-put_list read write xs (all p xs)

pub some_back :
    {A : Type 0} (read : Json → Option A) (write : A → Json)
    → ((a : A) → read (write a) ≡ some a)
    → (o : Option A) → read_given (read_some read) none (put_some write o) ≡ some o
some_back read write p none = read-put_some read write none tt
some_back read write p (some a) = read-put_some read write (some a) (p a)

-- The time that a record has, if any, is in the years 0000 to 9999.
abbrev pub HasTime : Option Time → Type 0
HasTime none = Unit
HasTime (some t) = IsTime t

pub time_back :
    (o : Option Time)
    → HasTime o
    → read_given (read_some read_time_field) none (put_some write_time o) ≡ some o
time_back none h = read-put_some read_time_field write_time none tt
time_back (some t) h = read-put_some read_time_field write_time (some t) (read-write_time t h)

pub ints_back :
    (xs : List ℤ) → All (λ n. fits_i64 n ≡ true) xs → All (λ n. read_int (int n) ≡ some n) xs
ints_back [] h = tt
ints_back (n ∷ xs) h = (read_int-int n h.0, ints_back xs h.1)

pub str-IsUnique : (s : String) → IsUnique (str s)
unfolding IsUnique
str-IsUnique s = tt

pub int-IsUnique : (n : ℤ) → IsUnique (int n)
unfolding IsUnique
int-IsUnique n = tt

pub boolean-IsUnique : (b : Bool) → IsUnique (boolean b)
unfolding IsUnique
boolean-IsUnique b = tt

pub write_time-IsUnique : (t : Time) → IsUnique (write_time t)
unfolding IsUnique write_time
write_time-IsUnique t = tt

pub unique-text : (s : String) → IsUniqueSlot (put_text s)
unfolding put_text IsUnique
unique-text String.[] = tt
unique-text (String.◌∷◌ c s) = tt

pub unique-flag : (b : Bool) → IsUniqueSlot (put_flag b)
unfolding put_flag IsUnique
unique-flag true = tt
unique-flag false = tt

pub unique-int : (n : ℤ) → IsUniqueSlot (put_int n)
unfolding put_int IsUnique
unique-int (pos zero) = tt
unique-int (pos (suc n)) = tt
unique-int (negsuc n) = tt

module _ {A : Type 0} (write : A → Json) (unique : (a : A) → IsUnique (write a)) where
  unique-items : (xs : List A) → AreUnique (write_items write xs)
  unfolding write_items AreUnique
  unique-items [] = tt
  unique-items (x ∷ xs) = (unique x, unique-items xs)

  pub unique-list : (xs : List A) → IsUniqueSlot (put_list write xs)
  unfolding put_list IsUnique
  unique-list [] = tt
  unique-list (x ∷ xs) = unique-items (x ∷ xs)

  pub unique-some : (o : Option A) → IsUniqueSlot (put_some write o)
  unfolding put_some
  unique-some none = tt
  unique-some (some a) = unique a
