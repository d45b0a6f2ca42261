-- ===== src/Core/HashBytes/Reduced.antt =====
-- The hash of bytes is a reduced field element, like every result of the constructor.
use near_shield.Prelude.{
  ℕ, zero, suc, ◌+◌, ◌≡◌, arith, subst, pos, All, List, [], ◌∷◌, length, ltb, Bool-cases, inl, inr,
  ok, ◌==◌, not, throw_if, auditor_key_length, >>=-eq-ok, ok_injective,
}
use near_shield.Js.Text.{Bytes}
use near_shield.Core.Field.{Field, from_bytes_le, le_value, IsReduced}
use near_shield.Core.Field.Laws.{new_field_lem}
use near_shield.Core.Packages.{Packages}
use near_shield.Core.Poseidon.{poseidon2}
use near_shield.Core.Note.{auditor_pubkey_to_field}
use near_shield.Core.HashBytes.{chunks_from, fold_chunks, hash_chunks, hash_bytes_to_field}

from_bytes_le-IsReduced : (b : Bytes) → IsReduced (from_bytes_le b)
unfolding from_bytes_le
from_bytes_le-IsReduced b = (new_field_lem (pos (le_value b))).0

chunks_from-IsReduced : (f : ℕ) (b : Bytes) (i : ℕ) → All IsReduced (chunks_from f b i)
unfolding chunks_from
chunks_from-IsReduced zero b i = tt
chunks_from-IsReduced (suc f) b i = elim (Bool-cases (ltb i (length b))) [
  | inl more ↦ rw more (from_bytes_le-IsReduced _, chunks_from-IsReduced f b (i + 31))
  | inr done ↦ rw done tt
]

module _ (k : Packages) where
  fold_chunks-IsReduced :
      (acc : Field) (cs : List Field) → IsReduced acc → IsReduced (fold_chunks k acc cs)
  unfolding fold_chunks poseidon2
  fold_chunks-IsReduced acc [] h = h
  fold_chunks-IsReduced acc (c ∷ cs) h =
      fold_chunks-IsReduced (poseidon2 k acc c) cs
        (new_field_lem (pos (k.hash2 acc.value c.value))).0

  hash_chunks-IsReduced : (cs : List Field) → All IsReduced cs → IsReduced (hash_chunks k cs)
  unfolding hash_chunks
  hash_chunks-IsReduced [] h = omega arith
  hash_chunks-IsReduced (c ∷ cs) h = fold_chunks-IsReduced c cs h.0

  hash_bytes_to_field-IsReduced : (b : Bytes) → IsReduced (hash_bytes_to_field k b)
  unfolding hash_bytes_to_field
  hash_bytes_to_field-IsReduced b = elim (Bool-cases (length b == 0)) [
    | inl empty ↦ rw empty (omega arith)
    | inr some_bytes ↦
        rw some_bytes (hash_chunks-IsReduced _ (chunks_from-IsReduced (length b) b 0))
  ]

  pub auditor_pubkey_to_field-IsReduced :
      (b : Bytes) {f : Field} → auditor_pubkey_to_field k b ≡ ok f → IsReduced f
  unfolding auditor_pubkey_to_field
  auditor_pubkey_to_field-IsReduced b {f} h =
      let (done, _, g) = >>=-eq-ok (throw_if (not (length b == 32)) auditor_key_length) _ h in
      subst (λ (x : Field). IsReduced x) (ok_injective g) (hash_bytes_to_field-IsReduced b)
