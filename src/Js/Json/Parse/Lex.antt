-- ===== src/Js/Json/Parse/Lex.antt =====
-- The lexical level of `JSON.parse`: white space, strings, numbers and words, over code units.
use near_shield.Prelude.{
  ℕ, zero, suc, ◌+◌, ◌*◌, Bool, true, false, not, ◌&&◌, ◌||◌, Option, none, some, [], ◌∷◌, ltb, leb,
  ◌==◌, list_eq, if◌then◌else◌, Result, ok, err, syntax_error,
}
use near_shield.Js.Text.{Text}
use near_shield.Js.BigInt.{digit_value}
use near_shield.Js.Json.{Json, Fields, end, field}

unfoldable pub is_json_space : ℕ → Bool
is_json_space c = c == 9 || c == 10 || c == 13 || c == 32

unfoldable pub skip_space : Text → Text
skip_space [] = []
skip_space (c ∷ cs) = let rest = skip_space cs in if is_json_space c then rest else c ∷ cs

-- Inside a string: after a backslash, and before n more hexadecimal digits.
pub data Mode : Type 0 where
  plain escaped : Mode
  hex : ℕ → ℕ → Mode

unfoldable pub escape_value : ℕ → Option ℕ
escape_value c =
    if c == b'"' || c == b'\\' || c == b'/'
    then some c
    else if c == b'b'
    then some 8
    else if c == b't'
    then some 9
    else if c == b'n'
    then some 10
    else if c == b'f'
    then some 12
    else if c == b'r'
    then some 13
    else none

unfoldable pub hex_value : ℕ → Option ℕ
hex_value c = elim (digit_value c) [ none ↦ none | some d ↦ if ltb d 16 then some d else none ]

abbrev pub put : ℕ → Result (Text × Text) → Result (Text × Text)
put c (ok (s, rest)) = ok (c ∷ s, rest)
put c (err e) = err e

-- The rest of a string, behind its opening quote.
unfoldable pub chars : Mode → Text → Result (Text × Text)
chars m [] = err syntax_error
chars plain (c ∷ cs) =
    let escape = chars escaped cs in
    let keep = put c (chars plain cs) in
    if c == b'"'
    then ok ([], cs)
    else if c == b'\\'
    then escape
    else if ltb c 32
    then err syntax_error
    else keep
chars escaped (c ∷ cs) =
    let unicode = chars (hex 3 0) cs in
    let simple : Result (Text × Text) = elim (escape_value c) [
      | none ↦ err syntax_error
      | some d ↦ put d (chars plain cs)
    ] in
    if c == b'u' then unicode else simple
chars (hex zero v) (c ∷ cs) = elim (hex_value c) [
  | none ↦ err syntax_error
  | some d ↦ put (v * 16 + d) (chars plain cs)
]
chars (hex (suc n) v) (c ∷ cs) = elim (hex_value c) [
  | none ↦ err syntax_error
  | some d ↦ chars (hex n (v * 16 + d)) cs
]

unfoldable pub is_digit : ℕ → Bool
is_digit c = leb b'0' c && leb c b'9'

-- The units that stand in a number.
unfoldable pub is_number_unit : ℕ → Bool
is_number_unit c = is_digit c || c == b'-' || c == b'+' || c == b'.' || c == b'e' || c == b'E'

abbrev pub before : ℕ → Text × Text → Text × Text
before c (s, rest) = (c ∷ s, rest)

-- The longest prefix of such units, and what follows it.
unfoldable pub span : (ℕ → Bool) → Text → Text × Text
span p [] = ([], [])
span p (c ∷ cs) = let more = before c (span p cs) in if p c then more else ([], c ∷ cs)

-- Digits with no zero in front of others.
unfoldable pub is_integer : Text → Bool
is_integer [] = false
is_integer (c ∷ []) = is_digit c
is_integer (c ∷ d ∷ ds) = is_digit c && not (c == b'0') && list_eq (span is_digit (d ∷ ds)).1 []

abbrev pub digits_only : Text → Bool
digits_only [] = false
digits_only (c ∷ cs) = list_eq (span is_digit (c ∷ cs)).1 []

abbrev pub is_exponent : Text → Bool
is_exponent [] = true
is_exponent (e ∷ []) = false
is_exponent (e ∷ s ∷ ds) =
    (e == b'e' || e == b'E') && (digits_only (s ∷ ds) || (s == b'+' || s == b'-') && digits_only ds)

abbrev pub after_point : Text × Text → Bool
after_point ([], rest) = false
after_point (d ∷ ds, rest) = is_exponent rest

-- An optional fraction and an optional exponent.
abbrev pub is_tail : Text → Bool
is_tail [] = true
is_tail (c ∷ cs) = if c == b'.' then after_point (span is_digit cs) else is_exponent (c ∷ cs)

abbrev pub is_unsigned : Text → Bool
is_unsigned s = let (whole, tail) = span is_digit s in is_integer whole && is_tail tail

unfoldable pub is_number : Text → Bool
is_number [] = false
is_number (c ∷ cs) = if c == b'-' then is_unsigned cs else is_unsigned (c ∷ cs)

-- `o[k] = v` on a new object.
unfoldable pub set_field : Text → Json → Fields → Fields
set_field k v end = field k v end
set_field k v (field j w fs) = if list_eq j k then field j v fs else field j w (set_field k v fs)

unfoldable pub set_fields : Fields → Fields → Fields
set_fields o end = o
set_fields o (field k v fs) = set_fields (set_field k v o) fs

-- A string behind its quote, as a key.
unfoldable pub parse_key : Text → Result (Text × Text)
parse_key [] = err syntax_error
parse_key (c ∷ cs) = if c == b'"' then chars plain cs else err syntax_error

unfoldable pub parse_colon : Text → Result Text
parse_colon [] = err syntax_error
parse_colon (c ∷ cs) = if c == b':' then ok cs else err syntax_error

-- The input behind a word that it must begin with.
unfoldable pub parse_word : Text → Text → Result Text
parse_word [] cs = ok cs
parse_word (w ∷ ws) [] = err syntax_error
parse_word (w ∷ ws) (c ∷ cs) =
    let rest = parse_word ws cs in if c == w then rest else err syntax_error
