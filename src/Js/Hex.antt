-- ===== src/Js/Hex.antt =====
-- `parseInt(s, 16)` stored in a byte array, and pairs of digits as bytes.
use near_shield.Prelude.{
  ℕ, ◌+◌, ◌-◌, ◌*◌, ◌/◌, ◌%◌, ◌<◌, ◌≡◌, refl, arith, ap, ap₂, ◌∙◌, false, ◌||◌, All, [], ◌∷◌, none,
  some, ◌≤◌, ◌⊎◌, inl, inr, ◌==◌, if◌then◌else◌, drop, lt→ltb,
}
use near_shield.Js.Text.{Text, Bytes, codes, digit, hex_bytes, strip_0x, starts_with}
use near_shield.Js.BigInt.{trim_start, is_space}
use near_shield.Js.Json.Parse.{hex_value}
use near_shield.Js.Numerals.{digit_value-digit}
use near_shield.Core.Field.Wire.{IsByte, hex_byte_lem}

-- The value of the longest prefix of digits; NaN, of no digit, is stored as 0.
unfoldable pub prefix_value : ℕ → Text → ℕ
prefix_value acc [] = acc
prefix_value acc (c ∷ cs) = elim (hex_value c) [
  | none ↦ acc
  | some d ↦ prefix_value (acc * 16 + d) cs
]

unfoldable pub unsigned_value : Text → ℕ
unsigned_value s =
    prefix_value 0
      (if starts_with s (codes "0x") || starts_with s (codes "0X") then drop 2 s else s)

-- The value modulo 256, as a `Uint8Array` stores it.
unfoldable pub signed_byte : Text → ℕ
signed_byte [] = 0
signed_byte (c ∷ cs) =
    if c == b'-'
    then (256 - unsigned_value cs % 256) % 256
    else if c == b'+'
    then unsigned_value cs % 256
    else unsigned_value (c ∷ cs) % 256

unfoldable pub parse_byte : Text → ℕ
parse_byte s = signed_byte (trim_start s)

-- The loop over `s.slice(i * 2, i * 2 + 2)`, for as many pairs as fit.
unfoldable pub hex_pairs : Text → Bytes
hex_pairs [] = []
hex_pairs (c ∷ []) = []
hex_pairs (c ∷ d ∷ cs) = parse_byte (c ∷ d ∷ []) ∷ hex_pairs cs

-- A unit of a printed byte.
abbrev pub IsHexUnit : ℕ → Type 0
IsHexUnit c = ((48 ≤ c) × (c ≤ 57)) ⊎ ((97 ≤ c) × (c ≤ 102))

digit-IsHexUnit : (d : ℕ) → d < 16 → IsHexUnit (digit d)
unfolding digit
digit-IsHexUnit d h = ground arith

IsHexUnit-space : (c : ℕ) → IsHexUnit c → is_space c ≡ false
unfolding is_space
IsHexUnit-space c h = ground arith

-- Two such units do not announce a radix.
starts_with-IsHexUnit :
    (c d x : ℕ) (cs : Text)
    → IsHexUnit d
    → (x ≡ b'x') ⊎ (x ≡ b'X')
    → starts_with (c ∷ d ∷ cs) (b'0' ∷ x ∷ []) ≡ false
unfolding starts_with
starts_with-IsHexUnit c d x cs h g = ground arith

hex_value-digit : (d : ℕ) → d < 16 → hex_value (digit d) ≡ some d
unfolding hex_value
hex_value-digit d h = rw (hex_value, digit_value-digit d (omega arith), lt→ltb d 16 h) refl

prefix_value-digit :
    (acc d : ℕ) (cs : Text)
    → d < 16
    → prefix_value acc (digit d ∷ cs) ≡ prefix_value (acc * 16 + d) cs
unfolding prefix_value
prefix_value-digit acc d cs h = rw (prefix_value, hex_value-digit d h) refl

prefix_value-nil : (a b : ℕ) → prefix_value ((0 * 16 + a) * 16 + b) [] ≡ a * 16 + b
unfolding prefix_value
prefix_value-nil a b = omega arith

unsigned_value-digit :
    (a b : ℕ) → a < 16 → b < 16 → unsigned_value (digit a ∷ digit b ∷ []) ≡ a * 16 + b
unfolding unsigned_value
unsigned_value-digit a b ha hb =
    rw
      (
        starts_with-IsHexUnit (digit a) (digit b) b'x' [] (digit-IsHexUnit b hb) (inl refl),
        starts_with-IsHexUnit (digit a) (digit b) b'X' [] (digit-IsHexUnit b hb) (inr refl),
      )
      (prefix_value-digit 0 a (digit b ∷ []) ha
        ∙ prefix_value-digit (0 * 16 + a) b [] hb
        ∙ prefix_value-nil a b)

signed_byte-IsHexUnit :
    (c : ℕ) (cs : Text) → IsHexUnit c → signed_byte (c ∷ cs) ≡ unsigned_value (c ∷ cs) % 256
unfolding signed_byte
signed_byte-IsHexUnit c cs h = ground arith

parse_byte-digit : (a b : ℕ) → a < 16 → b < 16 → parse_byte (digit a ∷ digit b ∷ []) ≡ a * 16 + b
unfolding parse_byte trim_start
parse_byte-digit a b ha hb = rw (IsHexUnit-space (digit a) (digit-IsHexUnit a ha)) (
    signed_byte-IsHexUnit (digit a) (digit b ∷ []) (digit-IsHexUnit a ha)
    ∙ ap (λ (n : ℕ). n % 256) (unsigned_value-digit a b ha hb)
    ∙ omega arith)

pub hex_pairs-hex_bytes : (bs : Bytes) → All IsByte bs → hex_pairs (hex_bytes bs) ≡ bs
unfolding hex_pairs hex_bytes
hex_pairs-hex_bytes [] h = refl
hex_pairs-hex_bytes (b ∷ bs) h = rw (hex_byte_lem b h.0) (
    ap₂ ◌∷◌ (parse_byte-digit (b / 16) (b % 16) (omega arith) (omega arith) ∙ omega arith)
      (hex_pairs-hex_bytes bs h.1))

pub hex_bytes-IsHexUnit : (bs : Bytes) → All IsByte bs → All IsHexUnit (hex_bytes bs)
unfolding hex_bytes
hex_bytes-IsHexUnit [] h = tt
hex_bytes-IsHexUnit (b ∷ bs) h = rw (hex_byte_lem b h.0) (
  digit-IsHexUnit (b / 16) (omega arith),
  (digit-IsHexUnit (b % 16) (omega arith), hex_bytes-IsHexUnit bs h.1),
)

-- Printed bytes have no prefix.
pub strip_0x-IsHexUnit : (s : Text) → All IsHexUnit s → strip_0x s ≡ s
unfolding strip_0x starts_with
strip_0x-IsHexUnit [] h = refl
strip_0x-IsHexUnit (c ∷ []) h = ground arith
strip_0x-IsHexUnit (c ∷ d ∷ s) h = rw (starts_with-IsHexUnit c d b'x' s h.1.0 (inl refl)) refl
