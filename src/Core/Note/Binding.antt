-- ===== src/Core/Note/Binding.antt =====
-- What a commitment, a nullifier and an auditor field bind, unless the inputs hashed for it collide.
use near_shield.Prelude.{ℕ, pos, ◌≡◌, ◌⊎◌, inl, inr, ◌<◌}
use near_shield.Core.Field.{Field, new_field, bn254_modulus}
use near_shield.Core.Field.Laws.{new_field-pos_injective}
use near_shield.Core.Packages.{Packages}
use near_shield.Core.Poseidon.{
  poseidon2, Collides2, Collides4, poseidon2-injective, poseidon4-injective,
}
use near_shield.Core.Note.{Note, commit_note, compute_nullifier}

module _ (k : Packages) where
  -- Notes with one commitment agree in every field, the amount modulo the field order, or the two
  -- quadruples of their fields are a collision of the Poseidon package.
  pub commit_note-binding :
      (n m : Note)
      → commit_note k n ≡ commit_note k m
      → ((new_field n.amount ≡ new_field m.amount)
          × (n.owner_pubkey ≡ m.owner_pubkey)
          × (n.auditor_pubkey ≡ m.auditor_pubkey)
          × (n.blinding ≡ m.blinding))
        ⊎ Collides4 k
            (new_field n.amount, n.owner_pubkey, n.auditor_pubkey, n.blinding)
            (new_field m.amount, m.owner_pubkey, m.auditor_pubkey, m.blinding)
  unfolding commit_note
  commit_note-binding n m h = poseidon4-injective k _ _ _ _ _ _ _ _ h

  -- Two equal nullifiers, at leaf indices below the field order, have one key, one commitment and
  -- one leaf index, or a collision of the Poseidon package: of the two pairs of a commitment and an
  -- index, or of the two pairs of a key and the hash of those.
  pub compute_nullifier-binding :
      (s s' c c' : Field) (i i' : ℕ)
      → i < bn254_modulus
      → i' < bn254_modulus
      → compute_nullifier k s c i ≡ compute_nullifier k s' c' i'
      → ((s ≡ s') × (c ≡ c') × (i ≡ i'))
        ⊎ (Collides2 k (c, new_field (pos i)) (c', new_field (pos i'))
            ⊎ Collides2 k
                (s, poseidon2 k c (new_field (pos i)))
                (s', poseidon2 k c' (new_field (pos i'))))
  unfolding compute_nullifier
  compute_nullifier-binding s s' c c' i i' hi hi' h = elim (poseidon2-injective k _ _ _ _ h) [
    | inr collision ↦ inr (inr collision)
    | inl (keys, inner) ↦ elim (poseidon2-injective k _ _ _ _ inner) [
      | inr collision ↦ inr (inl collision)
      | inl (commitments, leaves) ↦
          inl (keys, commitments, new_field-pos_injective i i' hi hi' leaves)
    ]
  ]
