-- ===== src/Record/Held.antt =====
-- crates/core/src/record.rs: what a field that reads holds.
use cases.Prelude.{
  Bool, true, false, ◌≡◌, refl, ap, some-injective, Option, none, some, List, [], All,
  if◌then◌else◌,
}
use cases.Prelude.Int.{ℤ, pos, ltb_ℤ}
use mathlib.Core.Path.{subst}
use cases.Error.{Result, ok, err}
use cases.Time.{Time}
use cases.Time.Text.{time_from_str}
use cases.Time.Text.Accepted.{IsTime, time_from_str_passed}
use cases.Record.Json.{Json, Items, null, boolean, int, float, str, array, object, nil, cons, ◌>>=◌}
use cases.Record.Fields.{
  fits_i64, from_ok, read_int, read_count, read_time_field, read_items, read_list, read_some,
  read_given,
}
use cases.Record.Values.{HasTime}

pub bind_given :
    {A B : Type 0} (o : Option A) (f : A → Option B) {b : B}
    → (o >>= f) ≡ some b
    → (a : A) × (o ≡ some a) × (f a ≡ some b)
bind_given none f h = absurd (cc h)
bind_given (some a) f h = (a, refl, h)

if_given :
    {A : Type 0} (test : Bool) (a : A) {b : A}
    → (if test then some a else none) ≡ some b
    → (test ≡ true) × (a ≡ b)
if_given true a h = (refl, some-injective h)
if_given false a h = absurd (cc h)

if_not_given :
    {A : Type 0} (test : Bool) (a : A) {b : A}
    → (if test then none else some a) ≡ some b
    → (test ≡ false) × (a ≡ b)
if_not_given true a h = absurd (cc h)
if_not_given false a h = (refl, some-injective h)

read_int_passed : (v : Json) {n : ℤ} → read_int v ≡ some n → fits_i64 n ≡ true
unfolding read_int
read_int_passed null h = absurd (cc h)
read_int_passed (boolean b) h = absurd (cc h)
read_int_passed (int m) {n = n} h =
    let (fits, same) = if_given (fits_i64 m) m {b = n} h in subst (λ n. fits_i64 n ≡ true) same fits
read_int_passed (float s) h = absurd (cc h)
read_int_passed (str s) h = absurd (cc h)
read_int_passed (array xs) h = absurd (cc h)
read_int_passed (object fields) h = absurd (cc h)

pub int_passed :
    (o : Option Json) {n : ℤ} → read_given read_int (pos 0) o ≡ some n → fits_i64 n ≡ true
int_passed none h = subst (λ n. fits_i64 n ≡ true) (some-injective h) refl
int_passed (some v) {n = n} h = read_int_passed v {n = n} h

read_count_passed :
    (v : Json) {n : ℤ} → read_count v ≡ some n → (fits_i64 n ≡ true) × (ltb_ℤ n (pos 0) ≡ false)
unfolding read_count
read_count_passed v {n = n} h =
    let (m, e, h) = bind_given (read_int v) _ {b = n} h in
    let (low, same) = if_not_given (ltb_ℤ m (pos 0)) m {b = n} h in
    subst (λ n. (fits_i64 n ≡ true) × (ltb_ℤ n (pos 0) ≡ false)) same
      (read_int_passed v {n = m} e, low)

pub count_passed :
    (o : Option Json) {n : ℤ}
    → read_given read_count (pos 0) o ≡ some n
    → (fits_i64 n ≡ true) × (ltb_ℤ n (pos 0) ≡ false)
count_passed none h =
    subst (λ n. (fits_i64 n ≡ true) × (ltb_ℤ n (pos 0) ≡ false)) (some-injective h) (refl, refl)
count_passed (some v) {n = n} h = read_count_passed v {n = n} h

AllFit : List ℤ → Type 0
AllFit ns = All (λ n. fits_i64 n ≡ true) ns

items_passed : (items : Items) {ns : List ℤ} → read_items read_int items ≡ some ns → AllFit ns
unfolding read_items AllFit
items_passed nil h = subst AllFit (some-injective h) tt
items_passed (cons v items) {ns = ns} h =
    let (m, e, h) = bind_given (read_int v) _ {b = ns} h in
    let (ms, f, h) = bind_given (read_items read_int items) _ {b = ns} h in
    subst AllFit (some-injective h) (read_int_passed v {n = m} e, items_passed items {ns = ms} f)

read_list_passed : (v : Json) {ns : List ℤ} → read_list read_int v ≡ some ns → AllFit ns
unfolding read_list
read_list_passed null h = absurd (cc h)
read_list_passed (boolean b) h = absurd (cc h)
read_list_passed (int m) h = absurd (cc h)
read_list_passed (float s) h = absurd (cc h)
read_list_passed (str s) h = absurd (cc h)
read_list_passed (array items) {ns = ns} h = items_passed items {ns = ns} h
read_list_passed (object fields) h = absurd (cc h)

pub ints_passed :
    (o : Option Json) {ns : List ℤ}
    → read_given (read_list read_int) [] o ≡ some ns
    → All (λ n. fits_i64 n ≡ true) ns
unfolding AllFit
ints_passed none h = subst AllFit (some-injective h) tt
ints_passed (some v) {ns = ns} h = read_list_passed v {ns = ns} h

from_ok_passed : {A : Type 0} (r : Result A) {a : A} → from_ok r ≡ some a → r ≡ ok a
from_ok_passed (ok a) h = ap ok (some-injective h)
from_ok_passed (err e) h = absurd (cc h)

read_time_passed : (v : Json) {t : Time} → read_time_field v ≡ some t → IsTime t
unfolding read_time_field
read_time_passed null h = absurd (cc h)
read_time_passed (boolean b) h = absurd (cc h)
read_time_passed (int m) h = absurd (cc h)
read_time_passed (float s) h = absurd (cc h)
read_time_passed (str s) {t = t} h =
    let (low, high, small, back) =
      time_from_str_passed s {t = t} (from_ok_passed (time_from_str s) {a = t} h) in
    (low, high, small)
read_time_passed (array xs) h = absurd (cc h)
read_time_passed (object fields) h = absurd (cc h)

pub time_passed :
    (o : Option Json) {t : Option Time}
    → read_given (read_some read_time_field) none o ≡ some t
    → HasTime t
unfolding read_some
time_passed none h = subst HasTime (some-injective h) tt
time_passed (some v) {t = t} h =
    let (u, e, h) = bind_given (read_time_field v) _ {b = t} h in
    subst HasTime (some-injective h) (read_time_passed v {t = u} e)
