-- ===== src/Js/Json/Parse.antt =====
-- `JSON.parse`: recursive descent over the code units. An integer literal up to 2 ^ 53 is exact;
-- what any other number denotes is left to `Doubles`. The keys of an object keep the order of their
-- first occurrence, and the last value of a key stands.
mod Lex
unfoldable pub use Lex.*
use near_shield.Prelude.{
  ℕ, zero, suc, ◌+◌, ◌*◌, ◌≡◌, refl, Bool, true, false, not, ◌&&◌, ◌||◌, Option, none, some, [],
  ◌∷◌, length, ltb, leb, ◌==◌, list_eq, if◌then◌else◌, ℤ, Result, ok, err, ◌>>=◌, syntax_error,
  out_of_fuel,
}
use near_shield.Js.Text.{Text, codes}
use near_shield.Js.BigInt.{digit_value, parse_digits, parse_nat}
use near_shield.Js.Json.{
  Json, Items, Fields, null, bool, num, real, str, arr, obj, nil, cons, end, field,
}

-- Floating-point numbers: what `JSON.stringify` prints for the double of a literal, `BigInt` of the
-- double that prints so, and for how many i = 0, 1, ... the test `i < v` holds.
pub record Doubles : Type 0 where
  pub print : Text → Text
  pub integer : Text → Result ℤ
  pub rounds : Json → ℕ

module _ (d : Doubles) where
  abbrev pub integer_or_real : Text → Option ℕ → Json
  integer_or_real t none = real (d.print t)
  integer_or_real t (some n) = if leb n 9007199254740992 then num n else real (d.print t)

  unfoldable pub number_value : Text → Result Json
  number_value t =
      if is_integer t
      then ok (integer_or_real t (parse_nat 10 t))
      else if is_number t
      then ok (real (d.print t))
      else err syntax_error

  -- A value that is neither an array nor an object, from its first unit on.
  unfoldable pub parse_scalar : ℕ → Text → Result (Json × Text)
  parse_scalar c cs =
      let string = (do (s, rest) ← chars plain cs; ok (str s, rest)) in
      let nothing = (do rest ← parse_word (codes "ull") cs; ok (null, rest)) in
      let yes_word = (do rest ← parse_word (codes "rue") cs; ok (bool true, rest)) in
      let no_word = (do rest ← parse_word (codes "alse") cs; ok (bool false, rest)) in
      let number = (do
        v ← number_value (span is_number_unit (c ∷ cs)).0
        ok (v, (span is_number_unit (c ∷ cs)).1)) in
      if c == b'"'
      then string
      else if c == b'n'
      then nothing
      else if c == b't'
      then yes_word
      else if c == b'f'
      then no_word
      else number

  -- Every call costs a unit of fuel; four for each code unit are enough.
  unfoldable mutual
    pub parse_value : ℕ → Text → Result (Json × Text)
    parse_value zero cs = err out_of_fuel
    parse_value (suc f) cs = parse_start f (skip_space cs)

    pub parse_start : ℕ → Text → Result (Json × Text)
    parse_start zero cs = err out_of_fuel
    parse_start (suc f) [] = err syntax_error
    parse_start (suc f) (c ∷ cs) =
        let array = (do (xs, rest) ← parse_array f (skip_space cs); ok (arr xs, rest)) in
        let object = (do
          (fs, rest) ← parse_object f (skip_space cs)
          ok (obj (set_fields end fs), rest)) in
        if c == b'[' then array else if c == b'{' then object else parse_scalar c cs

    -- Behind the opening bracket.
    pub parse_array : ℕ → Text → Result (Items × Text)
    parse_array zero cs = err out_of_fuel
    parse_array (suc f) [] = err syntax_error
    parse_array (suc f) (c ∷ cs) =
        let more = parse_items f (c ∷ cs) in if c == b']' then ok (nil, cs) else more

    pub parse_items : ℕ → Text → Result (Items × Text)
    parse_items zero cs = err out_of_fuel
    parse_items (suc f) cs = do (v, rest) ← parse_value f cs; parse_items_end f v (skip_space rest)

    -- Behind an item.
    pub parse_items_end : ℕ → Json → Text → Result (Items × Text)
    parse_items_end zero v cs = err out_of_fuel
    parse_items_end (suc f) v [] = err syntax_error
    parse_items_end (suc f) v (c ∷ cs) =
        let more = (do (xs, rest) ← parse_items f cs; ok (cons v xs, rest)) in
        if c == b']' then ok (cons v nil, cs) else if c == b',' then more else err syntax_error

    pub parse_object : ℕ → Text → Result (Fields × Text)
    parse_object zero cs = err out_of_fuel
    parse_object (suc f) [] = err syntax_error
    parse_object (suc f) (c ∷ cs) =
        let more = parse_fields f (c ∷ cs) in if c == b'}' then ok (end, cs) else more

    pub parse_fields : ℕ → Text → Result (Fields × Text)
    parse_fields zero cs = err out_of_fuel
    parse_fields (suc f) cs = do
      (k, rest) ← parse_key (skip_space cs)
      rest ← parse_colon (skip_space rest)
      (v, rest) ← parse_value f rest
      parse_fields_end f k v (skip_space rest)

    pub parse_fields_end : ℕ → Text → Json → Text → Result (Fields × Text)
    parse_fields_end zero k v cs = err out_of_fuel
    parse_fields_end (suc f) k v [] = err syntax_error
    parse_fields_end (suc f) k v (c ∷ cs) =
        let more = (do (fs, rest) ← parse_fields f cs; ok (field k v fs, rest)) in
        if c == b'}' then ok (field k v end, cs) else if c == b',' then more else err syntax_error

  abbrev pub at_end : Json → Text → Result Json
  at_end v [] = ok v
  at_end v (c ∷ cs) = err syntax_error

  unfoldable pub parse : Text → Result Json
  parse s = do (v, rest) ← parse_value (4 * length s + 2) s; at_end v (skip_space rest)

parse_runs :
    (d : Doubles)
    → (parse d (codes " {\"a\" : [ 12, true ], \"b\":{} , \"a\":\"x\\u00e9\\n\"}")
        ≡ ok (
            obj
              (field (codes "a") (str (b'x' ∷ 0xe9 ∷ 10 ∷ [])) (field (codes "b") (obj end) end))))
      × (parse d (codes "[1,]") ≡ err syntax_error)
      × (parse d (codes "01") ≡ err syntax_error)
      × (parse d (codes "-1.5e+3") ≡ ok (real (d.print (codes "-1.5e+3"))))
      × (parse d (codes "1.") ≡ err syntax_error)
      × (parse d (codes "nul") ≡ err syntax_error)
unfolding parse parse_value parse_start parse_array parse_items parse_items_end parse_object
    parse_fields parse_fields_end parse_scalar parse_word parse_key parse_colon number_value
    set_fields set_field is_number is_integer is_number_unit is_digit span chars hex_value
    escape_value skip_space is_json_space digit_value parse_digits parse_nat list_eq
parse_runs d = (refl, refl, refl, refl, refl, refl)
