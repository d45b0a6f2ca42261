-- ===== src/Js/Json.antt =====
-- `JSON.stringify` of the values that the program serialises: texts, non-negative integers,
-- Booleans, null, arrays and objects. `real` is any other number, by the text that `toString` gives
-- it, which determines a double.
pub mod Parse
pub mod Access
pub mod Strings
pub mod Numbers
pub mod Keys
pub mod RoundTrip
pub mod Fuel
use near_shield.Prelude.{
  ℕ, ◌≡◌, refl, Bool, ◌&&◌, ◌||◌, List, [], ◌∷◌, ◌++◌, ltb, leb, ◌==◌, if◌then◌else◌,
}
use near_shield.Js.Text.{Text, codes, to_text, pad_start, digits, digit}

mutual
  pub data Json : Type 0 where
    null : Json
    bool : Bool → Json
    num : ℕ → Json
    real : Text → Json
    str : Text → Json
    arr : Items → Json
    obj : Fields → Json

  pub data Items : Type 0 where
    nil : Items
    cons : Json → Items → Items

  pub data Fields : Type 0 where
    end : Fields
    field : Text → Json → Fields → Fields

unfoldable pub escape_u : ℕ → Text
escape_u c = codes "\\u" ++ pad_start 4 b'0' (to_text 16 c)

-- QuoteJSONString of the standard: a lone surrogate is escaped too.
unfoldable pub quote_unit : ℕ → Text
quote_unit c =
    if c == b'"' || c == b'\\'
    then b'\\' ∷ c ∷ []
    else if c == 8
    then codes "\\b"
    else if c == 9
    then codes "\\t"
    else if c == 10
    then codes "\\n"
    else if c == 12
    then codes "\\f"
    else if c == 13
    then codes "\\r"
    else if ltb c 32 || leb 0xd800 c && leb c 0xdfff
    then escape_u c
    else c ∷ []

unfoldable pub quote_units : Text → Text
quote_units [] = []
quote_units (c ∷ []) = quote_unit c
quote_units (c ∷ d ∷ cs) =
    let pair = c ∷ d ∷ quote_units cs in
    let single = quote_unit c ++ quote_units (d ∷ cs) in
    if leb 0xd800 c && leb c 0xdbff && leb 0xdc00 d && leb d 0xdfff then pair else single

unfoldable pub quote_text : Text → Text
quote_text s = b'"' ∷ (quote_units s ++ b'"' ∷ [])

unfoldable mutual
  pub stringify : Json → Text
  stringify null = codes "null"
  stringify (bool b) = if b then codes "true" else codes "false"
  stringify (num n) = to_text 10 n
  stringify (real t) = t
  stringify (str s) = quote_text s
  stringify (arr nil) = codes "[]"
  stringify (arr (cons v vs)) = b'[' ∷ (stringify v ++ items_text vs)
  stringify (obj end) = codes "{}"
  stringify (obj (field k v fs)) = b'{' ∷ (quote_text k ++ (b':' ∷ (stringify v ++ fields_text fs)))

  pub items_text : Items → Text
  items_text nil = b']' ∷ []
  items_text (cons v vs) = b',' ∷ (stringify v ++ items_text vs)

  pub fields_text : Fields → Text
  fields_text end = b'}' ∷ []
  fields_text (field k v fs) = b',' ∷ (quote_text k ++ (b':' ∷ (stringify v ++ fields_text fs)))

-- An array of texts, and an array of numbers.
unfoldable pub texts : List Text → Items
texts [] = nil
texts (s ∷ ss) = cons (str s) (texts ss)

unfoldable pub numbers : List ℕ → Items
numbers [] = nil
numbers (n ∷ ns) = cons (num n) (numbers ns)

stringify_run :
    stringify (
      obj (
        field
          (codes "a")
          (arr (cons (num 10) (cons null nil)))
          (field (codes "b") (str (10 ∷ b'"' ∷ [])) end)))
    ≡ codes "{\"a\":[10,null],\"b\":\"\\n\\\"\"}"
unfolding stringify items_text fields_text quote_text quote_units quote_unit to_text digits digit
stringify_run = refl
