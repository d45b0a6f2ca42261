-- ===== src/Sdk/Groth16.antt =====
-- sdk/packages/sdk/src/groth16-adapter.ts: snarkjs points, proofs and keys as contract bytes. Each
-- part fills its slot of the output array, so the array is the concatenation of the parts.
pub mod Layout
pub mod Points
pub mod Slots
use near_shield.Prelude.{
  ℕ, zero, suc, ◌/◌, ◌%◌, ◌^◌, Bool, ◌&&◌, ◌||◌, List, [], ◌∷◌, ◌++◌, replicate, list_eq, leb,
  if◌then◌else◌, ℤ, pos, negsuc, pos_part, ltb_ℤ, Result, ok, err, range_error, ◌>>=◌, ◌>>◌,
  throw_if,
}
use near_shield.Js.Text.{Text, Bytes, codes}
use near_shield.Js.BigInt.{to_bigint}

-- [x, y, z] and [[x0, x1], [y0, y1], [z0, z1]], of decimal texts.
pub record G1 : Type 0 where
  pub x : Text
  pub y : Text
  pub z : Text

pub record G2 : Type 0 where
  pub x0 : Text
  pub x1 : Text
  pub y0 : Text
  pub y1 : Text
  pub z0 : Text
  pub z1 : Text

pub record SnarkjsProof : Type 0 where
  pub pi_a : G1
  pub pi_b : G2
  pub pi_c : G1

pub record SnarkjsVk : Type 0 where
  pub vk_alpha_1 : G1
  pub vk_beta_2 : G2
  pub vk_gamma_2 : G2
  pub vk_delta_2 : G2
  pub ic : List G1

-- The loop of `decToLe`.
unfoldable pub bytes_le : ℕ → ℕ → Bytes
bytes_le zero v = []
bytes_le (suc n) v = v % 256 ∷ bytes_le n (v / 256)

unfoldable pub dec_to_le : Text → Result Bytes
dec_to_le dec = do
  v0 ← to_bigint dec
  throw_if (ltb_ℤ v0 (pos 0) || leb (2 ^ 256) (pos_part v0)) range_error
  ok (bytes_le 32 (pos_part v0))

abbrev pub is_zero : Text → Bool
is_zero s = list_eq s (codes "0")

unfoldable pub finite_g1 : G1 → Result Bytes
finite_g1 p = do x ← dec_to_le p.x; y ← dec_to_le p.y; ok (x ++ y)

unfoldable pub encode_g1 : G1 → Result Bytes
encode_g1 p = if is_zero p.z then ok (replicate 64 0) else finite_g1 p

unfoldable pub finite_g2 : G2 → Result Bytes
finite_g2 p = do
  x0 ← dec_to_le p.x0
  x1 ← dec_to_le p.x1
  y0 ← dec_to_le p.y0
  y1 ← dec_to_le p.y1
  ok (x0 ++ (x1 ++ (y0 ++ y1)))

unfoldable pub encode_g2 : G2 → Result Bytes
encode_g2 p = if is_zero p.z0 && is_zero p.z1 then ok (replicate 128 0) else finite_g2 p

-- `vk.IC.map(encodeG1)`, its parts joined.
unfoldable pub encode_ic : List G1 → Result Bytes
encode_ic [] = ok []
encode_ic (p ∷ ps) = do part ← encode_g1 p; rest ← encode_ic ps; ok (part ++ rest)

unfoldable pub vk_json_to_contract_bytes : SnarkjsVk → Result Bytes
vk_json_to_contract_bytes vk = do
  alpha ← encode_g1 vk.vk_alpha_1
  beta ← encode_g2 vk.vk_beta_2
  gamma ← encode_g2 vk.vk_gamma_2
  delta ← encode_g2 vk.vk_delta_2
  ic ← encode_ic vk.ic
  ok (alpha ++ (beta ++ (gamma ++ (delta ++ ic))))

unfoldable pub snarkjs_proof_to_bytes : SnarkjsProof → Result Bytes
snarkjs_proof_to_bytes proof = do
  a ← encode_g1 proof.pi_a
  b ← encode_g2 proof.pi_b
  c ← encode_g1 proof.pi_c
  ok (a ++ (b ++ c))
