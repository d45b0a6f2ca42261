-- ===== src/Client/MerkleTree/Binding.antt =====
-- What the root of sdk/packages/client/src/merkle-tree.ts binds, unless Poseidon collides.
use near_shield.Prelude.{
  Bool, ℕ, ◌/◌, ◌%◌, ◌^◌, ◌<◌, ◌≡◌, arith, sym, ◌∙◌, true, false, List, [], ◌∷◌, length, get_or,
  ◌==◌, if◌then◌else◌, inl, inr, ◌⊎◌, ok,
}
use near_shield.Core.Field.{Field, zero_field}
use near_shield.Core.Packages.{Packages}
use near_shield.Core.Poseidon.{poseidon2, Collides2, poseidon2-injective}
use near_shield.Client.MerkleTree.{MerkleTree, root, path_for}
use near_shield.Client.MerkleTree.Inclusion.{fold_path, path_for-root}

module _ (k : Packages) where
  -- On two paths up from one index, at some level the pairs of child nodes collide.
  abbrev pub PathCollides : ℕ → Field → List Field → Field → List Field → Type 0
  PathCollides idx cur [] cur' path' = ⊥
  PathCollides idx cur (s ∷ path) cur' [] = ⊥
  PathCollides idx cur (s ∷ path) cur' (s' ∷ path') =
      Collides2 k (if idx % 2 == 1 then (s, cur) else (cur, s))
        (if idx % 2 == 1 then (s', cur') else (cur', s'))
      ⊎ PathCollides (idx / 2) (if idx % 2 == 1 then poseidon2 k s cur else poseidon2 k cur s) path
          (if idx % 2 == 1 then poseidon2 k s' cur' else poseidon2 k cur' s') path'

  parent-binding :
      (idx : ℕ) (s s' leaf leaf' : Field)
      → (if idx % 2 == 1 then poseidon2 k s leaf else poseidon2 k leaf s)
        ≡ (if idx % 2 == 1 then poseidon2 k s' leaf' else poseidon2 k leaf' s')
      → (leaf ≡ leaf')
        ⊎ Collides2 k
            (if idx % 2 == 1 then (s, leaf) else (leaf, s))
            (if idx % 2 == 1 then (s', leaf') else (leaf', s'))
  parent-binding idx s s' leaf leaf' = by_side (idx % 2 == 1)
    where
      by_side :
          (odd : Bool)
          → (if odd then poseidon2 k s leaf else poseidon2 k leaf s)
            ≡ (if odd then poseidon2 k s' leaf' else poseidon2 k leaf' s')
          → (leaf ≡ leaf')
            ⊎ Collides2 k
                (if odd then (s, leaf) else (leaf, s))
                (if odd then (s', leaf') else (leaf', s'))
      by_side true h = elim (poseidon2-injective k s leaf s' leaf' h) [
        | inl pair ↦ inl pair.1
        | inr collision ↦ inr collision
      ]
      by_side false h = elim (poseidon2-injective k leaf s leaf' s' h) [
        | inl pair ↦ inl pair.0
        | inr collision ↦ inr collision
      ]

  -- Two paths of one length that lead from one index to one node start at one leaf, or collide.
  fold_path-binding :
      (idx : ℕ) (path path' : List Field) (leaf leaf' : Field)
      → length path ≡ length path'
      → fold_path k leaf idx path ≡ fold_path k leaf' idx path'
      → (leaf ≡ leaf') ⊎ PathCollides idx leaf path leaf' path'
  unfolding fold_path
  fold_path-binding idx [] [] leaf leaf' l e = inl e
  fold_path-binding idx [] (s' ∷ path') leaf leaf' l e = absurd (omega arith)
  fold_path-binding idx (s ∷ path) [] leaf leaf' l e = absurd (omega arith)
  fold_path-binding idx (s ∷ path) (s' ∷ path') leaf leaf' l e =
      elim (fold_path-binding (idx / 2) path path' _ _ (omega arith) e) [
        | inr collision ↦ inr (inr collision)
        | inl same ↦ elim (parent-binding idx s s' leaf leaf' same) [
          | inl leaves ↦ inl leaves
          | inr collision ↦ inr (inl collision)
        ]
      ]

  -- Whoever presents 20 siblings that lead from a value at the index of a leaf, below 2^20, to the
  -- root of the tree presents that leaf, or at some level the pair that he hashes and the pair of
  -- the path that `pathFor` returns are a collision of the Poseidon package.
  pub root-binding :
      (t : MerkleTree) (idx : ℕ) (value : Field) (path : List Field)
      → idx < length t.leaves
      → idx < 2 ^ 20
      → length path ≡ 20
      → fold_path k value idx path ≡ root k t
      → (value ≡ get_or t.leaves idx zero_field)
        ⊎ ((honest : List Field) × (path_for k t idx ≡ ok honest)
            × PathCollides idx value path (get_or t.leaves idx zero_field) honest)
  root-binding t idx value path present fits l e =
      let (honest, found, n, top) = path_for-root k t idx present fits in
      elim (fold_path-binding idx path honest value (get_or t.leaves idx zero_field) (l ∙ sym n)
        (e ∙ sym top)) [ inl same ↦ inl same | inr collision ↦ inr (honest, found, collision) ]
