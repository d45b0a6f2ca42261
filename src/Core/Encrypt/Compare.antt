-- ===== src/Core/Encrypt/Compare.antt =====
-- `bytesEqual` of encrypt.ts, which looks at every byte whatever it finds.
use Prim.Native.Nat.{bit_or, bit_xor}
use near_shield.Prelude.{
  ℕ, ◌≡◌, refl, arith, Bool, true, false, ◌↔◌, [], ◌∷◌, length, ◌==◌, not, if◌then◌else◌,
}
use near_shield.Js.Bits.{bit_xor-eq-zero, bit_xor_self, bit_or-eq-zero}
use near_shield.Js.Text.{Bytes}

-- The loop `diff |= a[i] ^ b[i]`, over arrays of one length.
unfoldable pub diff_from : ℕ → Bytes → Bytes → ℕ
diff_from diff [] b = diff
diff_from diff (x ∷ a) [] = diff
diff_from diff (x ∷ a) (y ∷ b) = diff_from (bit_or diff (bit_xor x y)) a b

unfoldable pub bytes_equal : Bytes → Bytes → Bool
bytes_equal a b = if not (length a == length b) then false else diff_from 0 a b == 0

diff_from-zero :
    (d : ℕ) (a b : Bytes) → length a ≡ length b → diff_from d a b ≡ 0 → (d ≡ 0) × (a ≡ b)
unfolding diff_from
diff_from-zero d [] [] l e = (e, refl)
diff_from-zero d [] (y ∷ b) l e = absurd (omega arith)
diff_from-zero d (x ∷ a) [] l e = absurd (omega arith)
diff_from-zero d (x ∷ a) (y ∷ b) l e =
    let rest = diff_from-zero (bit_or d (bit_xor x y)) a b (omega arith) e in
    let parts = bit_or-eq-zero d (bit_xor x y) rest.0 in
    let heads : x ≡ y = bit_xor-eq-zero x y parts.1 in let tails : a ≡ b = rest.1 in (parts.0, cc)

diff_from_self : (a : Bytes) → diff_from 0 a a ≡ 0
unfolding diff_from
diff_from_self [] = refl
diff_from_self (x ∷ a) = rw (bit_xor_self x) (diff_from_self a)

-- It is equality.
pub bytes_equal_iff : (a b : Bytes) → (bytes_equal a b ≡ true) ↔ (a ≡ b)
unfolding bytes_equal
bytes_equal_iff a b =
    (λ h. ground (arith, diff_from-zero 0 a b), λ e. rw (← e) (ground (arith, diff_from_self a)))
