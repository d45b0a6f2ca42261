-- ===== src/Client/MerkleTree.antt =====
-- sdk/packages/client/src/merkle-tree.ts: the client's copy of the on-chain commitment tree.
pub mod Binding
pub mod Inclusion
use near_shield.Prelude.{
  ℕ, zero, suc, ◌+◌, ◌-◌, ◌/◌, ◌%◌, ◌<◌, ◌≡◌, refl, Bool, Option, some, none, List, [], ◌∷◌, ◌++◌,
  length, get_or, ltb, leb, ◌==◌, if◌then◌else◌, Result, ok, err, leaf_not_present, ◌>>=◌, ◌>>◌,
  throw_if,
}
use near_shield.Core.Field.{Field, zero_field}
use near_shield.Core.Packages.{Packages}
use near_shield.Core.Poseidon.{poseidon2}

abbrev pub tree_depth : ℕ
tree_depth = 20

pub record MerkleTree : Type 0 where
  pub leaves : List Field

abbrev pub empty : MerkleTree
empty = record { leaves = [] }

unfoldable pub append : MerkleTree → Field → MerkleTree × ℕ
append t commitment =
    let leaves = t.leaves ++ commitment ∷ [] in (record { leaves = leaves }, length leaves - 1)

unfoldable pub size : MerkleTree → ℕ
size t = length t.leaves

-- The sibling index of the loop of `pathFor`.
unfoldable pub sibling_index : ℕ → ℕ
sibling_index idx = if idx % 2 == 1 then idx - 1 else idx + 1

module _ (k : Packages) where
  -- `zeros[d]` of `computeZeros`: the root of an empty subtree of depth d.
  unfoldable pub zeros : ℕ → Field
  zeros zero = zero_field
  zeros (suc d) = let z = zeros d in poseidon2 k z z

  -- The loop of `nextLevel` takes two nodes a round.
  unfoldable pub next_level : List Field → ℕ → List Field
  next_level [] depth = []
  next_level (left ∷ []) depth = poseidon2 k left (zeros depth) ∷ []
  next_level (left ∷ right ∷ level) depth = poseidon2 k left right ∷ next_level level depth

  -- `n` rounds of the loop of `root`, from depth `d` on.
  unfoldable pub levels_from : ℕ → ℕ → List Field → List Field
  levels_from zero d level = level
  levels_from (suc n) d level = levels_from n (suc d) (next_level level d)

  -- The last level has a node, since the first one has.
  unfoldable pub root : MerkleTree → Field
  root t =
      if length t.leaves == 0
      then zeros tree_depth
      else get_or (levels_from tree_depth 0 t.leaves) 0 (zeros tree_depth)

  -- `n` rounds of the loop of `pathFor`, from depth `d` on.
  unfoldable pub path_from : ℕ → ℕ → List Field → ℕ → List Field
  path_from zero d level idx = []
  path_from (suc n) d level idx =
      get_or level (sibling_index idx) (zeros d)
      ∷ path_from n (suc d) (next_level level d) (idx / 2)

  unfoldable pub path_for : MerkleTree → ℕ → Result (List Field)
  path_for t leaf_index = do
    throw_if (leb (length t.leaves) leaf_index) (leaf_not_present leaf_index)
    ok (path_from tree_depth 0 t.leaves leaf_index)
