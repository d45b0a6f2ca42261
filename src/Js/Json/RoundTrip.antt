-- ===== src/Js/Json/RoundTrip.antt =====
-- What `JSON.stringify` prints, `JSON.parse` reads back.
mod Starts
use mathlib.Core.List.{append-nil, append_assoc}
use near_shield.Prelude.{
  ℕ, zero, suc, ◌+◌, ◌*◌, ◌<◌, ◌≤◌, ◌≡◌, refl, arith, ap, sym, ◌∙◌, Bool, true, false, All, [], ◌∷◌,
  ◌++◌, length, length-append, ◌==◌, ok, ◌>>=◌,
}
use near_shield.Js.Text.{Text, to_text}
use near_shield.Js.Numerals.{IsDigit, to_text-IsDigit}
use near_shield.Js.Json.{
  Json, Items, Fields, null, bool, num, real, str, arr, obj, nil, cons, end, field, quote_units,
  quote_text, stringify, items_text, fields_text,
}
use near_shield.Js.Json.Parse.{
  Doubles, is_json_space, skip_space, plain, chars, is_digit, is_number_unit, span, parse_key,
  parse_colon, parse_word, number_value, parse_scalar, parse_value, parse_array, parse_items,
  parse_items_end, parse_fields, parse_fields_end, parse,
}
use near_shield.Js.Json.Strings.{chars-quote_units}
use near_shield.Js.Json.Numbers.{Ends, number_value-to_text, span-to_text}
use near_shield.Js.Json.Keys.{IsPlain, ItemsPlain, FieldsPlain, set_fields-Distinct}
use Starts.{
  digit_start, to_text-IsDigit_first, parse_scalar-digit, printed_start, skip_space-stringify,
}

module _ (d : Doubles) where
  parse_array-stringify :
      (f : ℕ) (v : Json) (t : Text)
      → IsPlain v
      → parse_array d (suc f) (stringify v ++ t) ≡ parse_items d f (stringify v ++ t)
  unfolding parse_array
  parse_array-stringify f v t h =
      let (c, cs, e, _, bracket) = printed_start v h in rw (e, bracket) refl

  parse_key-quote_text : (k t : Text) → parse_key (skip_space (quote_text k ++ t)) ≡ ok (k, t)
  unfolding parse_key skip_space quote_text is_json_space
  parse_key-quote_text k t =
      ap (chars plain) (append_assoc (quote_units k) (b'"' ∷ []) t) ∙ chars-quote_units k t

  abbrev ReadsValue : Json → Type 0
  ReadsValue v =
      IsPlain v
      → (rest : Text) (f : ℕ) → Ends is_number_unit rest
      → 4 * length (stringify v) + 1 < f
      → parse_value d f (stringify v ++ rest) ≡ ok (v, rest)

  abbrev ReadsItems : Items → Type 0
  ReadsItems xs =
      ItemsPlain xs
      → (v : Json) (rest : Text) (f : ℕ) → 4 * length (items_text xs) < f
      → parse_items_end d f v (skip_space (items_text xs ++ rest)) ≡ ok (cons v xs, rest)

  abbrev ReadsFields : Fields → Type 0
  ReadsFields fs =
      FieldsPlain fs
      → (k : Text) (v : Json) (rest : Text) (f : ℕ) → 4 * length (fields_text fs) < f
      → parse_fields_end d f k v (skip_space (fields_text fs ++ rest)) ≡ ok (field k v fs, rest)

  Ends-items : (xs : Items) (rest : Text) → Ends is_number_unit (items_text xs ++ rest)
  unfolding items_text is_number_unit is_digit
  Ends-items nil rest = refl
  Ends-items (cons v xs) rest = refl

  Ends-fields : (fs : Fields) (rest : Text) → Ends is_number_unit (fields_text fs ++ rest)
  unfolding fields_text is_number_unit is_digit
  Ends-fields end rest = refl
  Ends-fields (field k v fs) rest = refl

  -- An item and what follows it.
  read_item :
      (v : Json) (xs : Items) (rest : Text) (f : ℕ)
      → parse_value d f (stringify v ++ (items_text xs ++ rest)) ≡ ok (v, items_text xs ++ rest)
      → parse_items_end d f v (skip_space (items_text xs ++ rest)) ≡ ok (cons v xs, rest)
      → parse_items d (suc f) (stringify v ++ (items_text xs ++ rest)) ≡ ok (cons v xs, rest)
  unfolding parse_items
  read_item v xs rest f h g = rw h g

  read_field :
      (k : Text) (v : Json) (fs : Fields) (rest : Text) (f : ℕ)
      → parse_value d f (stringify v ++ (fields_text fs ++ rest)) ≡ ok (v, fields_text fs ++ rest)
      → parse_fields_end d f k v (skip_space (fields_text fs ++ rest)) ≡ ok (field k v fs, rest)
      → parse_fields d (suc f) (quote_text k ++ (b':' ∷ (stringify v ++ (fields_text fs ++ rest))))
        ≡ ok (field k v fs, rest)
  unfolding parse_fields
  read_field k v fs rest f h g =
      rw (parse_key-quote_text k (b':' ∷ (stringify v ++ (fields_text fs ++ rest))))
        (unfold skip_space is_json_space parse_colon in rw h g)

one_more : (f : ℕ) → 0 < f → (g : ℕ) × (f ≡ suc g)
one_more zero h = elim h [ ]
one_more (suc g) h = (g, refl)

two_more : (f : ℕ) → 1 < f → (g : ℕ) × (f ≡ suc (suc g))
two_more zero h = elim h [ ]
two_more (suc zero) h = absurd (omega arith)
two_more (suc (suc g)) h = (g, refl)

four_more : (f : ℕ) → 3 < f → (g : ℕ) × (f ≡ suc (suc (suc (suc g))))
four_more f h =
    let (g, e) = two_more f (omega arith) in
    let (k, i) = two_more g (omega arith) in (k, e ∙ ap (λ (n : ℕ). suc (suc n)) i)

field_text :
    (k : Text) (v : Json) (fs : Fields) (rest : Text)
    → (quote_text k ++ (b':' ∷ (stringify v ++ fields_text fs))) ++ rest
      ≡ quote_text k ++ (b':' ∷ (stringify v ++ (fields_text fs ++ rest)))
field_text k v fs rest =
    append_assoc (quote_text k) (b':' ∷ (stringify v ++ fields_text fs)) rest
    ∙ ap (λ t. quote_text k ++ (b':' ∷ t)) (append_assoc (stringify v) (fields_text fs) rest)

field_length :
    (k : Text) (v : Json) (fs : Fields)
    → length (quote_text k ++ (b':' ∷ (stringify v ++ fields_text fs)))
      ≡ length (quote_text k) + (1 + (length (stringify v) + length (fields_text fs)))
field_length k v fs = omega (
  arith,
  length-append (quote_text k) (b':' ∷ (stringify v ++ fields_text fs)),
  length-append (stringify v) (fields_text fs),
)

module _ (d : Doubles) where
  parse_value-digit :
      (f c : ℕ) (cs : Text) → IsDigit c → parse_value d (suc (suc f)) (c ∷ cs) ≡ parse_scalar d c cs
  unfolding parse_value skip_space
  parse_value-digit f c cs h = rw (digit_start c h, parse_value) (ground arith)

  read_number :
      (n : ℕ) (rest : Text) (f : ℕ)
      → n ≤ 9007199254740992
      → Ends is_number_unit rest
      → parse_value d (suc (suc f)) (to_text 10 n ++ rest) ≡ ok (num n, rest)
  read_number n rest f h ends =
      let (c, ds, e, g) = to_text-IsDigit_first n in
      let s : span is_number_unit (c ∷ (ds ++ rest)) ≡ (to_text 10 n, rest) =
        ap (λ t. span is_number_unit (t ++ rest)) (sym e) ∙ span-to_text n rest ends in
      ap (λ t. parse_value d (suc (suc f)) (t ++ rest)) e
      ∙ parse_value-digit f c (ds ++ rest) g
      ∙ parse_scalar-digit d c (ds ++ rest) g
      ∙ rw s (rw (number_value-to_text d n h) refl)

  read_null :
      (rest : Text) (f : ℕ) → parse_value d (suc (suc f)) (stringify null ++ rest) ≡ ok (null, rest)
  unfolding parse_value stringify skip_space is_json_space parse_scalar parse_word
  read_null rest f = refl

  read_bool :
      (b : Bool) (rest : Text) (f : ℕ)
      → parse_value d (suc (suc f)) (stringify (bool b) ++ rest) ≡ ok (bool b, rest)
  unfolding parse_value stringify skip_space is_json_space parse_scalar parse_word
  read_bool true rest f = refl
  read_bool false rest f = refl

  read_text :
      (s rest : Text) → parse_scalar d b'"' (quote_units s ++ b'"' ∷ rest) ≡ ok (str s, rest)
  unfolding parse_scalar
  read_text s rest = rw (chars-quote_units s rest) refl

  mutual
    unfolding parse_value stringify IsPlain skip_space is_json_space quote_text

    reads_value : (v : Json) → ReadsValue d v
    reads_value null p rest f ends h =
        let (g, e) = two_more f (omega arith) in rw e (read_null rest g)
    reads_value (bool b) p rest f ends h =
        let (g, e) = two_more f (omega arith) in rw e (read_bool b rest g)
    reads_value (num n) p rest f ends h =
        let (g, e) = two_more f (omega arith) in rw e (read_number n rest g p ends)
    reads_value (real t) p rest f ends h = absurd p
    reads_value (str s) p rest f ends h =
        let (g, e) = two_more f (omega arith) in
        rw e (
          ap (parse_scalar d b'"') (append_assoc (quote_units s) (b'"' ∷ []) rest)
          ∙ read_text s rest)
    reads_value (arr nil) p rest f ends h = let (g, e) = four_more f (omega arith) in rw e refl
    reads_value (arr (cons v xs)) p rest f ends h =
        let (g, e) = four_more f (omega arith) in
        let t = items_text xs ++ rest in
        let n = length-append (stringify v) (items_text xs) in
        rw
          (
            e,
            append_assoc (stringify v) (items_text xs) rest,
            skip_space-stringify v t p.0,
            parse_array-stringify d (suc g) v t p.0,
            read_item d v xs rest g
                (reads_value v p.0 t g (Ends-items d xs rest) (omega (arith, n)))
                (reads_items xs p.1 v rest g (omega (arith, n))),
          )
          refl
    reads_value (obj end) p rest f ends h =
        let (g, e) = four_more f (omega arith) in rw (e, set_fields-Distinct end tt) refl
    reads_value (obj (field k v fs)) p rest f ends h =
        let (g, e) = four_more f (omega arith) in
        let t = fields_text fs ++ rest in
        let n = field_length k v fs in
        rw
          (
            e,
            field_text k v fs rest,
            read_field d k v fs rest g
                (reads_value v p.1.1 t g (Ends-fields d fs rest) (omega (arith, n)))
                (reads_fields fs p.1.2 k v rest g (omega (arith, n))),
            set_fields-Distinct (field k v fs) p.0,
          )
          refl

    reads_items : (xs : Items) → ReadsItems d xs
    reads_items nil p v rest f h = let (g, e) = one_more f (omega arith) in rw e refl
    reads_items (cons w xs) p v rest f h =
        let (g, e) = two_more f (omega arith) in
        let t = items_text xs ++ rest in
        let n = length-append (stringify w) (items_text xs) in
        rw
          (
            e,
            append_assoc (stringify w) (items_text xs) rest,
            read_item d w xs rest g
                (reads_value w p.0 t g (Ends-items d xs rest) (omega (arith, n)))
                (reads_items xs p.1 w rest g (omega (arith, n))),
          )
          refl

    reads_fields : (fs : Fields) → ReadsFields d fs
    reads_fields end p k v rest f h = let (g, e) = one_more f (omega arith) in rw e refl
    reads_fields (field j w fs) p k v rest f h =
        let (g, e) = two_more f (omega arith) in
        let t = fields_text fs ++ rest in
        let n = field_length j w fs in
        rw
          (
            e,
            field_text j w fs rest,
            read_field d j w fs rest g
                (reads_value w p.1 t g (Ends-fields d fs rest) (omega (arith, n)))
                (reads_fields fs p.2 j w rest g (omega (arith, n))),
          )
          refl

  -- `JSON.parse(JSON.stringify(v))` is `v`, for a value whose numbers are natural and exact and whose
  -- objects have distinct keys, and whose texts are any sequences of code units.
  pub parse-stringify : (v : Json) → IsPlain v → parse d (stringify v) ≡ ok v
  unfolding parse skip_space
  parse-stringify v p =
      let whole = reads_value v p [] (4 * length (stringify v) + 2) tt (omega arith) in
      rw (rw append-nil at whole) refl
