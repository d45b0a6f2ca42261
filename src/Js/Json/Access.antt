-- ===== src/Js/Json/Access.antt =====
-- Property access on a parsed value, and the conversions that a value meets.
use near_shield.Prelude.{
  ℕ, zero, suc, length, get_elem?, Bool, true, false, not, Option, none, some, [], ◌∷◌, ◌++◌,
  list_eq, list_eq_iff, list_eq_refl, ap, ◌≡◌, if◌then◌else◌, ◌==◌, ℤ, pos, Result, ok, err,
  type_error,
}
use near_shield.Js.Text.{Text, codes, to_text}
use near_shield.Js.BigInt.{to_bigint}
use near_shield.Js.Json.{
  Json, Items, Fields, null, bool, num, real, str, arr, obj, nil, cons, end, field,
}
use near_shield.Js.Json.Parse.{Doubles}

unfoldable pub find_field : Text → Fields → Option Json
find_field k end = none
find_field k (field j v fs) = if list_eq j k then some v else find_field k fs

-- `v.k`, for a `k` that no prototype has; `none` is undefined.
unfoldable pub property : Text → Json → Result (Option Json)
property k null = err type_error
property k (bool b) = ok none
property k (num n) = ok none
property k (real t) = ok none
property k (str s) = ok none
property k (arr xs) = ok none
property k (obj fs) = ok (find_field k fs)

-- `o === s`
unfoldable pub is_text : Text → Option Json → Bool
is_text s (some (str t)) = list_eq t s
is_text s o = false

pub is_text-str : (s : Text) → is_text s (some (str s)) ≡ true
unfolding is_text
is_text-str s = list_eq_refl s

pub is_text-eq-true : (s : Text) (v : Json) → is_text s (some v) ≡ true → v ≡ str s
unfolding is_text
is_text-eq-true s null h = cc
is_text-eq-true s (bool b) h = cc
is_text-eq-true s (num n) h = cc
is_text-eq-true s (real t) h = cc
is_text-eq-true s (str t) h = ap str ((list_eq_iff t s).0 h)
is_text-eq-true s (arr xs) h = cc
is_text-eq-true s (obj fs) h = cc

-- What `join` puts for an item of an array, and for the items.
unfoldable mutual
  pub item_text : Json → Text
  item_text null = []
  item_text (bool b) = if b then codes "true" else codes "false"
  item_text (num n) = to_text 10 n
  item_text (real t) = t
  item_text (str s) = s
  item_text (arr nil) = []
  item_text (arr (cons v xs)) = item_text v ++ more_text xs
  item_text (obj fs) = codes "[object Object]"

  pub more_text : Items → Text
  more_text nil = []
  more_text (cons v xs) = b',' ∷ (item_text v ++ more_text xs)

-- `BigInt(o)`; which exception an object raises is not told apart.
unfoldable pub bigint_of : Doubles → Option Json → Result ℤ
bigint_of d none = err type_error
bigint_of d (some null) = err type_error
bigint_of d (some (bool b)) = ok (pos (if b then 1 else 0))
bigint_of d (some (num n)) = ok (pos n)
bigint_of d (some (real t)) = d.integer t
bigint_of d (some (str s)) = to_bigint s
bigint_of d (some (arr xs)) = to_bigint (item_text (arr xs))
bigint_of d (some (obj fs)) = to_bigint (item_text (obj fs))

-- A method of strings, called on `o`.
unfoldable pub text_of : Option Json → Result Text
text_of (some (str s)) = ok s
text_of o = err type_error

unfoldable pub is_truthy : Option Json → Bool
is_truthy none = false
is_truthy (some null) = false
is_truthy (some (bool b)) = b
is_truthy (some (num n)) = not (n == 0)
is_truthy (some (real t)) = not (list_eq t (codes "0"))
is_truthy (some (str s)) = not (list_eq s [])
is_truthy (some (arr xs)) = true
is_truthy (some (obj fs)) = true

-- `isRecord`, the fields of an object that is neither null nor an array
unfoldable pub record_of : Json → Option Fields
record_of (obj fs) = some fs
record_of v = none

unfoldable pub items_length : Items → ℕ
items_length nil = 0
items_length (cons v xs) = suc (items_length xs)

abbrev pub item_at : Items → ℕ → Option Json
item_at nil i = none
item_at (cons v xs) zero = some v
item_at (cons v xs) (suc i) = item_at xs i

abbrev pub unit_at : Option ℕ → Option Json
unit_at none = none
unit_at (some c) = some (str (c ∷ []))

-- `o[i]` for an integer i
unfoldable pub element : Option Json → ℕ → Result (Option Json)
element none i = err type_error
element (some null) i = err type_error
element (some (bool b)) i = ok none
element (some (num n)) i = ok none
element (some (real t)) i = ok none
element (some (str s)) i = ok (unit_at (get_elem? s i))
element (some (arr xs)) i = ok (item_at xs i)
element (some (obj fs)) i = ok (find_field (to_text 10 i) fs)

-- How often `i < v` holds, for a `length` that an object has.
abbrev pub rounds_of : Doubles → Option Json → ℕ
rounds_of d none = 0
rounds_of d (some null) = 0
rounds_of d (some (bool b)) = if b then 1 else 0
rounds_of d (some (num n)) = n
rounds_of d (some (real t)) = d.rounds (real t)
rounds_of d (some (str s)) = d.rounds (str s)
rounds_of d (some (arr xs)) = d.rounds (arr xs)
rounds_of d (some (obj fs)) = d.rounds (obj fs)

-- The number of rounds of `for (let i = 0; i < o.length; i++)`
unfoldable pub loop_length : Doubles → Option Json → Result ℕ
loop_length d none = err type_error
loop_length d (some null) = err type_error
loop_length d (some (bool b)) = ok 0
loop_length d (some (num n)) = ok 0
loop_length d (some (real t)) = ok 0
loop_length d (some (str s)) = ok (length s)
loop_length d (some (arr xs)) = ok (items_length xs)
loop_length d (some (obj fs)) = ok (rounds_of d (find_field (codes "length") fs))
