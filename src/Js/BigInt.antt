-- ===== src/Js/BigInt.antt =====
-- `BigInt(s)` of a string: white space is trimmed, the empty text is 0, a sign goes with decimal
-- digits only, and 0x, 0o and 0b announce another radix. Anything else is a SyntaxError.
use near_shield.Prelude.{
  ℕ, zero, suc, ◌+◌, ◌-◌, ◌*◌, ◌≡◌, refl, Bool, ◌&&◌, ◌||◌, Option, none, some, [], ◌∷◌, ltb, leb,
  ◌==◌, if◌then◌else◌, ℤ, pos, negsuc, Result, ok, err, syntax_error,
}
use near_shield.Js.Text.{Text, codes}

unfoldable pub is_space : ℕ → Bool
is_space c =
    leb 9 c && leb c 13
    || c == 32
    || c == 0xa0
    || c == 0x1680
    || leb 0x2000 c && leb c 0x200a
    || c == 0x2028
    || c == 0x2029
    || c == 0x202f
    || c == 0x205f
    || c == 0x3000
    || c == 0xfeff

unfoldable pub trim_start : Text → Text
trim_start [] = []
trim_start (c ∷ cs) = let rest = trim_start cs in if is_space c then rest else c ∷ cs

-- `c` stays unless it is white space and nothing after it stays.
abbrev keep : ℕ → Text → Text
keep c [] = if is_space c then [] else c ∷ []
keep c (d ∷ ds) = c ∷ d ∷ ds

unfoldable pub trim_end : Text → Text
trim_end [] = []
trim_end (c ∷ cs) = keep c (trim_end cs)

-- The value of a digit, letters included.
unfoldable pub digit_value : ℕ → Option ℕ
digit_value c =
    if leb b'0' c && leb c b'9'
    then some (c - 48)
    else if leb b'a' c && leb c b'z'
    then some (c - 87)
    else if leb b'A' c && leb c b'Z'
    then some (c - 55)
    else none

unfoldable pub parse_digits : ℕ → ℕ → Text → Option ℕ
parse_digits r acc [] = some acc
parse_digits r acc (c ∷ cs) = elim (digit_value c) [
  | none ↦ none
  | some d ↦ if ltb d r then parse_digits r (acc * r + d) cs else none
]

unfoldable pub parse_nat : ℕ → Text → Option ℕ
parse_nat r [] = none
parse_nat r (c ∷ cs) = parse_digits r 0 (c ∷ cs)

abbrev pub negate : ℕ → ℤ
negate zero = pos 0
negate (suc n) = negsuc n

abbrev pub signed : (ℕ → ℤ) → Option ℕ → Result ℤ
signed f none = err syntax_error
signed f (some n) = ok (f n)

-- What follows a leading 0.
unfoldable pub after_zero : Text → Result ℤ
after_zero [] = signed pos (parse_nat 10 (b'0' ∷ []))
after_zero (x ∷ ds) =
    if x == b'x' || x == b'X'
    then signed pos (parse_nat 16 ds)
    else if x == b'o' || x == b'O'
    then signed pos (parse_nat 8 ds)
    else if x == b'b' || x == b'B'
    then signed pos (parse_nat 2 ds)
    else signed pos (parse_nat 10 (b'0' ∷ x ∷ ds))

unfoldable pub integer_literal : Text → Result ℤ
integer_literal [] = ok (pos 0)
integer_literal (c ∷ cs) =
    if c == b'-'
    then signed negate (parse_nat 10 cs)
    else if c == b'+'
    then signed pos (parse_nat 10 cs)
    else if c == b'0'
    then after_zero cs
    else signed pos (parse_nat 10 (c ∷ cs))

unfoldable pub to_bigint : Text → Result ℤ
to_bigint s = integer_literal (trim_end (trim_start s))

to_bigint_runs :
    (to_bigint (codes " 42 ") ≡ ok (pos 42))
    × (to_bigint (codes "-7") ≡ ok (negsuc 6))
    × (to_bigint (codes "0xff") ≡ ok (pos 255))
    × (to_bigint [] ≡ ok (pos 0))
    × (to_bigint (codes "-0x1") ≡ err syntax_error)
    × (to_bigint (codes "1n") ≡ err syntax_error)
unfolding is_space trim_start trim_end digit_value parse_digits parse_nat after_zero integer_literal
    to_bigint
to_bigint_runs = (refl, refl, refl, refl, refl, refl)
