-- ===== src/Core/Note.antt =====
-- sdk/packages/core/src/note.ts
pub mod Binding
use near_shield.Prelude.{
  ℕ, ℤ, pos, not, ◌==◌, length, Result, ok, ◌>>=◌, ◌>>◌, throw_if, auditor_key_length,
}
use near_shield.Js.Text.{Bytes}
use near_shield.Core.Field.{Field, new_field}
use near_shield.Core.Packages.{Packages}
use near_shield.Core.Poseidon.{poseidon2, poseidon4}
use near_shield.Core.HashBytes.{hash_bytes_to_field}

pub record Note : Type 0 where
  pub amount : ℤ
  pub owner_pubkey : Field
  pub auditor_pubkey : Field
  pub blinding : Field

module _ (k : Packages) where
  unfoldable pub auditor_pubkey_to_field : Bytes → Result Field
  auditor_pubkey_to_field pubkey = do
    throw_if (not (length pubkey == 32)) auditor_key_length
    ok (hash_bytes_to_field k pubkey)

  unfoldable pub commit_note : Note → Field
  commit_note n = poseidon4 k (new_field n.amount) n.owner_pubkey n.auditor_pubkey n.blinding

  unfoldable pub compute_nullifier : Field → Field → ℕ → Field
  compute_nullifier spending_key commitment leaf_index =
      poseidon2 k spending_key (poseidon2 k commitment (new_field (pos leaf_index)))
