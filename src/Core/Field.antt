-- ===== src/Core/Field.antt =====
-- sdk/packages/core/src/field.ts: the BN254 scalar field.
pub mod Laws
pub mod Wire
use near_shield.Prelude.{
  ℕ, zero, suc, ◌+◌, ◌*◌, ◌/◌, ◌%◌, ◌<◌, Bool, [], ◌∷◌, ◌++◌, length, ◌==◌, not, if◌then◌else◌, ℤ,
  pos, negsuc, pos_part, ◌+ℤ◌, ltb_ℤ, Result, ok, err, field_hex_length, ◌>>=◌, ◌>>◌, throw_if, ◌≡◌,
  refl,
}
use near_shield.Js.Text.{Text, Bytes, codes, hex_bytes, strip_0x}
use near_shield.Js.BigInt.{to_bigint, negate}

abbrev pub bn254_modulus : ℕ
bn254_modulus = 0x30644e72e131a029b85045b68181585d2833e84879b9709143e1f593f0000001

-- `value` is a reduced bigint, so a natural number.
pub record Field : Type 0 where
  pub value : ℕ

-- `a % m` of bigints keeps the sign of `a`.
unfoldable pub rem : ℤ → ℕ → ℤ
rem (pos n) m = pos (n % m)
rem (negsuc n) m = negate (suc n % m)

-- The constructor. Its last value is never negative.
unfoldable pub new_field : ℤ → Field
new_field v =
    let x = rem v bn254_modulus in
    record { value = pos_part (if ltb_ℤ x (pos 0) then x +ℤ pos bn254_modulus else x) }

abbrev pub zero_field : Field
zero_field = record { value = 0 }

unfoldable pub from_u64 : ℕ → Field
from_u64 x = new_field (pos x)

unfoldable pub from_hex : Text → Result Field
from_hex s = do
  let t = strip_0x s
  throw_if (not (length t == 64)) (field_hex_length (length t))
  v ← to_bigint (codes "0x" ++ t)
  ok (new_field v)

-- The loop of `toBytesBE` writes from the last byte to the first.
unfoldable pub bytes_be : ℕ → ℕ → Bytes → Bytes
bytes_be zero v out = out
bytes_be (suc k) v out = bytes_be k (v / 256) (v % 256 ∷ out)

unfoldable pub to_bytes_be : Field → Bytes
to_bytes_be f = bytes_be 32 f.value []

unfoldable pub to_hex : Field → Text
to_hex f = codes "0x" ++ hex_bytes (to_bytes_be f)

unfoldable pub equals : Field → Field → Bool
equals a b = a.value == b.value

-- The loop of `fromBytesLe`: `(v << 8) | b` is `v * 256 + b`, since `b` is a byte.
unfoldable pub le_value : Bytes → ℕ
le_value [] = 0
le_value (b ∷ bs) = le_value bs * 256 + b

unfoldable pub from_bytes_le : Bytes → Field
from_bytes_le bytes = new_field (pos (le_value bytes))

-- What the constructor ensures.
abbrev pub IsReduced : Field → Type 0
IsReduced f = f.value < bn254_modulus

from_bytes_le_run : from_bytes_le (1 ∷ 2 ∷ []) ≡ record { value = 513 }
unfolding from_bytes_le le_value new_field rem
from_bytes_le_run = refl
