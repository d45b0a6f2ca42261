-- ===== src/Tests/ClientTests.antt =====
-- The commitment tree of the client, run on three leaves.
use near_shield.Prelude.{◌≡◌, arith, ◌⊎◌, List, [], ◌∷◌, length, get_or, ok}
use near_shield.Core.Field.{Field, zero_field}
use near_shield.Client.MerkleTree.{MerkleTree, root, path_for}
use near_shield.Client.MerkleTree.Inclusion
use near_shield.Client.MerkleTree.Inclusion.{fold_path, node}
use near_shield.Client.MerkleTree.Binding
use near_shield.Client.MerkleTree.Binding.{PathCollides}
use near_shield.Tests.Packages.{toy}

abbrev three : MerkleTree
three = record {
  leaves = record { value = 11 } ∷ record { value = 12 } ∷ record { value = 13 } ∷ [];
}

root-node_example : root toy three ≡ node toy three.leaves 20 0
root-node_example = Inclusion.root-node toy three

path_for-root_example :
    (path : List Field) × (path_for toy three 2 ≡ ok path)
    × (length path ≡ 20)
    × (fold_path toy (get_or three.leaves 2 zero_field) 2 path ≡ root toy three)
path_for-root_example = Inclusion.path_for-root toy three 2 (omega arith) (omega arith)

root-binding_example :
    (get_or three.leaves 2 zero_field ≡ get_or three.leaves 2 zero_field)
    ⊎ ((honest : List Field) × (path_for toy three 2 ≡ ok honest)
        × PathCollides toy 2
            (get_or three.leaves 2 zero_field)
            path_for-root_example.0
            (get_or three.leaves 2 zero_field)
            honest)
root-binding_example =
    Binding.root-binding toy three 2 (get_or three.leaves 2 zero_field) path_for-root_example.0
      (omega arith) (omega arith) path_for-root_example.2 path_for-root_example.3
