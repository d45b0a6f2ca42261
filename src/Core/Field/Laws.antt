-- ===== src/Core/Field/Laws.antt =====
-- The constructor of `Field` reduces, and is compatible with congruence.
use near_shield.Prelude.{
  ℕ, zero, suc, ◌+◌, ◌-◌, ◌%◌, ◌<◌, ◌≡◌, arith, ℤ, pos, negsuc, pos_part, neg_part, ◌+ℤ◌, true, ◌↔◌,
  if◌then◌else◌, ltb_ℤ,
}
use native.Mathlib.Nat.{mod-eq_of_lt}
use near_shield.Js.BigInt.{negate}
use near_shield.Core.Field.{Field, bn254_modulus, rem, new_field, equals, IsReduced}

-- The adjustment of the constructor, at the remainder `r` of a negative number.
adjust : (m r : ℕ) → ℕ
adjust m r = pos_part (if ltb_ℤ (negate r) (pos 0) then negate r +ℤ pos m else negate r)

adjust_lem : (m r : ℕ) → r < m → adjust m r ≡ (m - r) % m
unfolding adjust ◌+ℤ◌
adjust_lem m zero h = grind arith
adjust_lem m (suc r) h = rw (mod-eq_of_lt {n = m - suc r} {m = m} (omega arith)) (ground arith)

-- `new Field(v)` holds the one number below the modulus that is congruent to `v`.
pub new_field_lem :
    (v : ℤ)
    → IsReduced (new_field v)
      × (((new_field v).value + neg_part v) % bn254_modulus ≡ pos_part v % bn254_modulus)
unfolding new_field rem ◌+ℤ◌
new_field_lem (pos n) = (ground arith, ground arith)
new_field_lem (negsuc n) =
    let e : (new_field (negsuc n)).value ≡ (bn254_modulus - suc n % bn254_modulus) % bn254_modulus =
      unfold adjust in adjust_lem bn254_modulus (suc n % bn254_modulus) (omega arith) in
    (rw e (omega arith), rw e (omega arith))

-- A reduced number is kept as it is.
pub new_field-pos : (n : ℕ) → n < bn254_modulus → new_field (pos n) ≡ record { value = n }
unfolding new_field rem ◌+ℤ◌
new_field-pos n h = ground arith

pub new_field-pos_injective :
    (n m : ℕ)
    → n < bn254_modulus
    → m < bn254_modulus
    → new_field (pos n) ≡ new_field (pos m)
    → n ≡ m
new_field-pos_injective n m hn hm e = cc (new_field-pos n hn, new_field-pos m hm)

pub equals_iff : (a b : Field) → (equals a b ≡ true) ↔ (a ≡ b)
unfolding equals
equals_iff a b = (λ h. ground arith, λ h. ground arith)
