-- ===== src/Sdk/Transfer/Inputs.antt =====
-- Transfers of sdk/packages/sdk/src/wallet.ts out of a wallet that holds no leaf twice.
use near_shield.Prelude.{
  ℕ, zero, suc, ◌<◌, ◌≡◌, ◌≢◌, ◌⊎◌, inl, inr, arith, sym, subst, ◌∙◌, some, List, [], ◌∷◌,
  get_elem?, pos, ok,
}
use near_shield.Core.Packages.{Packages}
use near_shield.Core.Field.{new_field, bn254_modulus}
use near_shield.Core.Poseidon.{Field-discrete, poseidon2, Collides2}
use near_shield.Core.Note.Binding.{compute_nullifier-binding}
use near_shield.Core.Scanner.{DiscoveredNote}
use near_shield.Sdk.Wallet.{Wallet}
use near_shield.Sdk.Transfer.{TransferRequest, TransferRandom, TransferParts, prepare_transfer}
use near_shield.Sdk.Transfer.Conservation.{prepare_transfer-IsBalanced}

-- No note of the list has this leaf index.
abbrev FreshLeaf : ℕ → List DiscoveredNote → Type 0
FreshLeaf leaf [] = Unit
FreshLeaf leaf (n ∷ ns) = (leaf ≢ n.leaf_index) × FreshLeaf leaf ns

-- The leaf indices are below the field order, and no two notes have the same.
abbrev pub DistinctLeaves : List DiscoveredNote → Type 0
DistinctLeaves [] = Unit
DistinctLeaves (n ∷ ns) =
    (n.leaf_index < bn254_modulus) × FreshLeaf n.leaf_index ns × DistinctLeaves ns

FreshLeaf-get_elem? :
    (leaf : ℕ) (ns : List DiscoveredNote) (j : ℕ) {b : DiscoveredNote}
    → FreshLeaf leaf ns
    → get_elem? ns j ≡ some b
    → leaf ≢ b.leaf_index
FreshLeaf-get_elem? leaf [] j h g = absurd (cc g)
FreshLeaf-get_elem? leaf (n ∷ ns) zero {b} h g =
    let e : n ≡ b = cc in subst (λ (x : DiscoveredNote). leaf ≢ x.leaf_index) e h.0
FreshLeaf-get_elem? leaf (n ∷ ns) (suc j) h g = FreshLeaf-get_elem? leaf ns j h.1 g

DistinctLeaves-lt :
    (ns : List DiscoveredNote) (i : ℕ) {a : DiscoveredNote}
    → DistinctLeaves ns
    → get_elem? ns i ≡ some a
    → a.leaf_index < bn254_modulus
DistinctLeaves-lt [] i h g = absurd (cc g)
DistinctLeaves-lt (n ∷ ns) zero {a} h g =
    let e : n ≡ a = cc in subst (λ (x : DiscoveredNote). x.leaf_index < bn254_modulus) e h.0
DistinctLeaves-lt (n ∷ ns) (suc i) h g = DistinctLeaves-lt ns i h.2 g

DistinctLeaves-apart :
    (ns : List DiscoveredNote) (i j : ℕ) {a b : DiscoveredNote}
    → DistinctLeaves ns
    → i < j
    → get_elem? ns i ≡ some a
    → get_elem? ns j ≡ some b
    → a.leaf_index ≢ b.leaf_index
DistinctLeaves-apart [] i j h lt p q = absurd (cc p)
DistinctLeaves-apart (n ∷ ns) i zero h lt p q = absurd (omega arith)
DistinctLeaves-apart (n ∷ ns) zero (suc j) {a} {b} h lt p q =
    let e : n ≡ a = cc in
    subst (λ (x : DiscoveredNote). x.leaf_index ≢ b.leaf_index) e
      (FreshLeaf-get_elem? n.leaf_index ns j h.1 q)
DistinctLeaves-apart (n ∷ ns) (suc i) (suc j) h lt p q =
    DistinctLeaves-apart ns i j h.2 (omega arith) p q

module _ (k : Packages) (w : Wallet) where
  -- A transfer out of a wallet whose notes have distinct leaf indices below the field order spends
  -- two different leaves; its two nullifiers differ, or they are a collision of the Poseidon package
  -- on the commitments and indices of the two inputs, or on the key and the hashes of those.
  pub prepare_transfer-distinct :
      (req : TransferRequest) (rnd : TransferRandom) (now : ℕ) {t : TransferParts}
      → DistinctLeaves w.notes
      → prepare_transfer k w req rnd now ≡ ok t
      → (t.input0.leaf_index ≢ t.input1.leaf_index)
        × ((t.nullifier0 ≢ t.nullifier1)
            ⊎ (Collides2 k
                  (t.input0.commitment, new_field (pos t.input0.leaf_index))
                  (t.input1.commitment, new_field (pos t.input1.leaf_index))
                ⊎ Collides2 k
                    (
                      w.spending_key,
                      poseidon2 k t.input0.commitment (new_field (pos t.input0.leaf_index)),
                    )
                    (
                      w.spending_key,
                      poseidon2 k t.input1.commitment (new_field (pos t.input1.leaf_index)),
                    )))
  prepare_transfer-distinct req rnd now {t} distinct h =
      let b = prepare_transfer-IsBalanced k w req rnd now h in
      let apart =
        DistinctLeaves-apart w.notes b.place0 b.place1 distinct b.different b.stored0 b.stored1 in
      (
        apart,
        elim (Field-discrete t.nullifier0 t.nullifier1) [
          | no differ ↦ inl differ
          | yes same ↦
              elim (compute_nullifier-binding k w.spending_key w.spending_key t.input0.commitment
                t.input1.commitment t.input0.leaf_index t.input1.leaf_index
                (DistinctLeaves-lt w.notes b.place0 distinct b.stored0)
                (DistinctLeaves-lt w.notes b.place1 distinct b.stored1)
                (sym b.nullifiers.0 ∙ same ∙ b.nullifiers.1)) [
                  | inl (_, _, leaves) ↦ absurd (apart leaves)
                  | inr collision ↦ inr collision
                ]
        ],
      )
