-- ===== src/Core/Field/Wire.antt =====
-- The wire forms of a field element: 32 bytes, and the hexadecimal text of them.
use native.Mathlib.Nat.{pow-suc}
use near_shield.Prelude.{
  ℕ, zero, suc, ◌+◌, ◌*◌, ◌/◌, ◌%◌, ◌^◌, ◌<◌, ◌≡◌, refl, arith, ap, ◌∙◌, [], ◌∷◌, ◌++◌, length, All,
  some, ok, pos, false, ltb, Bool-cases, inl, inr,
}
use near_shield.Js.Text.{
  Text, Bytes, codes, digit, digits, to_text, hex_byte, hex_bytes, strip_0x, starts_with,
}
use near_shield.Js.BigInt.{
  to_bigint, parse_digits, parse_nat, is_space, integer_literal, after_zero, signed,
}
use near_shield.Js.Numerals.{parse_digits-digit, trim_plain}
use near_shield.Core.Field.{Field, new_field, from_hex, bytes_be, to_bytes_be, to_hex, IsReduced}
use near_shield.Core.Field.Laws.{new_field-pos}

abbrev pub IsByte : ℕ → Type 0
IsByte b = b < 256

-- The number that bytes stand for, most significant first, after `acc`.
be_value : ℕ → Bytes → ℕ
be_value acc [] = acc
be_value acc (b ∷ bs) = be_value (acc * 256 + b) bs

be_value-bytes_be :
    (k v : ℕ) (out : Bytes) → v < 256 ^ k → be_value 0 (bytes_be k v out) ≡ be_value v out
unfolding be_value bytes_be
be_value-bytes_be zero v out h = ap (λ (n : ℕ). be_value n out) (omega arith)
be_value-bytes_be (suc k) v out h =
    be_value-bytes_be k (v / 256) (v % 256 ∷ out) (omega (arith, pow-suc 256 k))
    ∙ ap (λ (n : ℕ). be_value n out) (omega arith)

pub bytes_be-All : (k v : ℕ) (out : Bytes) → All IsByte out → All IsByte (bytes_be k v out)
unfolding bytes_be
bytes_be-All zero v out h = h
bytes_be-All (suc k) v out h = bytes_be-All k (v / 256) (v % 256 ∷ out) (omega arith, h)

pub length-bytes_be : (k v : ℕ) (out : Bytes) → length (bytes_be k v out) ≡ k + length out
unfolding bytes_be
length-bytes_be zero v out = omega arith
length-bytes_be (suc k) v out = omega (arith, length-bytes_be k (v / 256) (v % 256 ∷ out))

pub hex_byte_lem : (b : ℕ) → IsByte b → hex_byte b ≡ digit (b / 16) ∷ digit (b % 16) ∷ []
unfolding hex_byte to_text digits digit
hex_byte_lem zero h = refl
hex_byte_lem (suc b) h = elim (Bool-cases (ltb (suc b) 16)) [
  | inl small ↦ ground arith
  | inr large ↦ ground arith
]

pub length-hex_bytes : (bs : Bytes) → All IsByte bs → length (hex_bytes bs) ≡ 2 * length bs
unfolding hex_bytes
length-hex_bytes [] h = refl
length-hex_bytes (b ∷ bs) h = rw (hex_byte_lem b h.0) (omega (arith, length-hex_bytes bs h.1))

parse_digits-hex_bytes :
    (acc : ℕ) (bs : Bytes)
    → All IsByte bs
    → parse_digits 16 acc (hex_bytes bs) ≡ some (be_value acc bs)
unfolding hex_bytes be_value
parse_digits-hex_bytes acc [] h = unfold parse_digits in refl
parse_digits-hex_bytes acc (b ∷ bs) h = rw (hex_byte_lem b h.0) (
    parse_digits-digit 16 acc (b / 16) _ (omega arith) (omega arith)
    ∙ parse_digits-digit 16 (acc * 16 + b / 16) (b % 16) _ (omega arith) (omega arith)
    ∙ ap (λ (k : ℕ). parse_digits 16 k (hex_bytes bs)) (omega arith)
    ∙ parse_digits-hex_bytes (acc * 256 + b) bs h.1)

pub length-to_hex : (f : Field) → length (to_hex f) ≡ 66
unfolding to_hex to_bytes_be
length-to_hex f = omega (
  arith,
  length-hex_bytes (bytes_be 32 f.value []) (bytes_be-All 32 f.value [] tt),
  length-bytes_be 32 f.value [],
)

-- The hexadecimal text of bytes holds no white space.
IsHex : ℕ → Type 0
IsHex c = is_space c ≡ false

digit-IsHex : (d : ℕ) → d < 16 → IsHex (digit d)
unfolding IsHex is_space digit
digit-IsHex d h = ground arith

hex_bytes-IsHex : (bs : Bytes) → All IsByte bs → All IsHex (hex_bytes bs)
unfolding hex_bytes
hex_bytes-IsHex [] h = tt
hex_bytes-IsHex (b ∷ bs) h = rw (hex_byte_lem b h.0) (
  digit-IsHex (b / 16) (omega arith),
  (digit-IsHex (b % 16) (omega arith), hex_bytes-IsHex bs h.1),
)

integer_literal-0x : (ds : Text) → integer_literal (codes "0x" ++ ds) ≡ signed pos (parse_nat 16 ds)
unfolding integer_literal after_zero
integer_literal-0x ds = refl

parse_nat-nonempty : (r : ℕ) (s : Text) → 0 < length s → parse_nat r s ≡ parse_digits r 0 s
unfolding parse_nat
parse_nat-nonempty r [] h = absurd (omega arith)
parse_nat-nonempty r (c ∷ cs) h = refl

to_bigint-hex_bytes :
    (bs : Bytes)
    → All IsByte bs
    → 0 < length bs
    → to_bigint (codes "0x" ++ hex_bytes bs) ≡ ok (pos (be_value 0 bs))
unfolding to_bigint IsHex
to_bigint-hex_bytes bs h k =
    rw
      (trim_plain (codes "0x" ++ hex_bytes bs)
        (unfold is_space in refl, (unfold is_space in refl, hex_bytes-IsHex bs h)))
      (integer_literal-0x (hex_bytes bs)
        ∙ ap (signed pos)
            (parse_nat-nonempty 16 (hex_bytes bs) (omega (arith, length-hex_bytes bs h)))
        ∙ ap (signed pos) (parse_digits-hex_bytes 0 bs h))

from_hex-0x :
    (t : Text) (n : ℕ)
    → length t ≡ 64
    → to_bigint (codes "0x" ++ t) ≡ ok (pos n)
    → from_hex (codes "0x" ++ t) ≡ ok (new_field (pos n))
unfolding from_hex strip_0x starts_with
from_hex-0x t n h e = ground arith

-- Every reduced element is read back from its hexadecimal text.
pub from_hex-to_hex : (f : Field) → IsReduced f → from_hex (to_hex f) ≡ ok f
unfolding to_hex to_bytes_be
from_hex-to_hex f h =
    let bs = bytes_be 32 f.value [] in
    let bytes = bytes_be-All 32 f.value [] tt in
    let n : length bs ≡ 32 = omega (arith, length-bytes_be 32 f.value []) in
    let v : be_value 0 bs ≡ f.value =
      be_value-bytes_be 32 f.value [] (omega arith) ∙ (unfold be_value in refl) in
    from_hex-0x (hex_bytes bs) (be_value 0 bs) (omega (arith, length-hex_bytes bs bytes))
      (to_bigint-hex_bytes bs bytes (omega arith))
    ∙ ap (λ (k : ℕ). ok (new_field (pos k))) v
    ∙ ap ok (new_field-pos f.value h)
