-- ===== src/Core/HashBytes.antt =====
-- sdk/packages/core/src/hash_bytes.ts and keccak_to_field.ts
pub mod Chunks
pub mod Laws
pub mod Reduced
use near_shield.Prelude.{ℕ, zero, suc, ◌+◌, Bool, List, [], ◌∷◌, length, ltb, ◌==◌, if◌then◌else◌}
use near_shield.Js.Text.{Bytes, subarray}
use near_shield.Core.Field.{Field, zero_field, from_bytes_le}
use near_shield.Core.Packages.{Packages}
use near_shield.Core.Poseidon.{poseidon2}

-- The loop `for (let i = 0; i < b.length; i += 31)`, with fuel for its rounds.
unfoldable pub chunks_from : ℕ → Bytes → ℕ → List Field
chunks_from zero b i = []
chunks_from (suc fuel) b i =
    let rest = chunks_from fuel b (i + 31) in
    if ltb i (length b) then from_bytes_le (subarray b i (i + 31)) ∷ rest else []

module _ (k : Packages) where
  -- The loop over the chunks after the first.
  unfoldable pub fold_chunks : Field → List Field → Field
  fold_chunks acc [] = acc
  fold_chunks acc (c ∷ cs) = fold_chunks (poseidon2 k acc c) cs

  unfoldable pub hash_chunks : List Field → Field
  hash_chunks [] = zero_field
  hash_chunks (c ∷ cs) = fold_chunks c cs

  -- A round for each byte is more than the loop takes.
  unfoldable pub hash_bytes_to_field : Bytes → Field
  hash_bytes_to_field b =
      if length b == 0 then zero_field else hash_chunks (chunks_from (length b) b 0)

  unfoldable pub keccak_to_field : Bytes → Field
  keccak_to_field b = from_bytes_le (subarray (k.keccak_256 b) 0 31)
