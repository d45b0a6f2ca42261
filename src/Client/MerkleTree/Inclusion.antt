-- ===== src/Client/MerkleTree/Inclusion.antt =====
-- The root that `root` computes level by level is that of the full tree over the padded leaves, and
-- the path of `pathFor` leads from its leaf to that root.
use native.Mathlib.Nat.{pow-suc}
use near_shield.Prelude.{
  ℕ, zero, suc, ◌+◌, ◌*◌, ◌-◌, ◌/◌, ◌%◌, ◌^◌, ◌<◌, ◌≡◌, refl, arith, ap, ap₂, sym, subst, ◌∙◌, true,
  false, List, [], ◌∷◌, length, get_or, leb, ◌==◌, if◌then◌else◌, Bool-cases, inl, inr, ok,
}
use near_shield.Core.Field.{Field, zero_field}
use near_shield.Core.Packages.{Packages}
use near_shield.Core.Poseidon.{poseidon2}
use near_shield.Client.MerkleTree.{
  MerkleTree, zeros, next_level, levels_from, root, sibling_index, path_from, path_for,
}

double : (i : ℕ) → 2 * suc i ≡ suc (suc (2 * i))
double i = omega arith

double_one : (i : ℕ) → 2 * suc i + 1 ≡ suc (suc (2 * i + 1))
double_one i = omega arith

odd_left : (idx : ℕ) → (idx % 2 == 1) ≡ true → idx - 1 ≡ 2 * (idx / 2)
odd_left idx h = ground arith

odd_right : (idx : ℕ) → (idx % 2 == 1) ≡ true → idx ≡ 2 * (idx / 2) + 1
odd_right idx h = ground arith

even_left : (idx : ℕ) → (idx % 2 == 1) ≡ false → idx ≡ 2 * (idx / 2)
even_left idx h = ground arith

even_right : (idx : ℕ) → (idx % 2 == 1) ≡ false → idx + 1 ≡ 2 * (idx / 2) + 1
even_right idx h = ground arith

lt→leb : (i n : ℕ) → i < n → leb n i ≡ false
lt→leb i n h = ground arith

module _ (k : Packages) where
  -- The reference tree: node `i` of height `d` over leaves numbered from 0, zero past the end.
  pub node : List Field → ℕ → ℕ → Field
  node leaves zero i = get_or leaves i zero_field
  node leaves (suc d) i = poseidon2 k (node leaves d (2 * i)) (node leaves d (2 * i + 1))

  -- How a verifier folds a path: the bits of the index say on which side the node is.
  unfoldable pub fold_path : Field → ℕ → List Field → Field
  fold_path cur idx [] = cur
  fold_path cur idx (sibling ∷ path) =
      fold_path (if idx % 2 == 1 then poseidon2 k sibling cur else poseidon2 k cur sibling)
        (idx / 2) path

  get_or-next_level :
      (level : List Field) (d i : ℕ)
      → get_or (next_level k level d) i (zeros k (suc d))
        ≡ poseidon2 k (get_or level (2 * i) (zeros k d)) (get_or level (2 * i + 1) (zeros k d))
  unfolding next_level zeros
  get_or-next_level [] d i = refl
  get_or-next_level (l ∷ []) d zero = refl
  get_or-next_level (l ∷ []) d (suc i) = rw (double_one i, double i)
  get_or-next_level (l ∷ r ∷ level) d zero = refl
  get_or-next_level (l ∷ r ∷ level) d (suc i) =
      rw (double_one i, double i) (get_or-next_level level d i)

  -- `level` holds the nodes of height `d`, and zero subtrees stand after them.
  abbrev IsLevel : List Field → ℕ → List Field → Type 0
  IsLevel leaves d level = (i : ℕ) → get_or level i (zeros k d) ≡ node leaves d i

  IsLevel-leaves : (leaves : List Field) → IsLevel leaves 0 leaves
  unfolding node zeros
  IsLevel-leaves leaves i = refl

  IsLevel-next_level :
      (leaves : List Field) (d : ℕ) (level : List Field)
      → IsLevel leaves d level
      → IsLevel leaves (suc d) (next_level k level d)
  unfolding node
  IsLevel-next_level leaves d level h i =
      get_or-next_level level d i ∙ ap₂ (poseidon2 k) (h (2 * i)) (h (2 * i + 1))

  IsLevel-levels_from :
      (leaves : List Field) (n d : ℕ) (level : List Field)
      → IsLevel leaves d level
      → IsLevel leaves (n + d) (levels_from k n d level)
  unfolding levels_from
  IsLevel-levels_from leaves zero d level h =
      subst (λ (m : ℕ). IsLevel leaves m level) (let e : d ≡ 0 + d = omega arith in e) h
  IsLevel-levels_from leaves (suc n) d level h =
      subst (λ (m : ℕ). IsLevel leaves m (levels_from k n (suc d) (next_level k level d)))
        (let e : n + suc d ≡ suc n + d = omega arith in e)
        (IsLevel-levels_from leaves n (suc d) (next_level k level d)
          (IsLevel-next_level leaves d level h))

  levels_from-nil : (n d : ℕ) → levels_from k n d [] ≡ []
  unfolding levels_from next_level
  levels_from-nil zero d = refl
  levels_from-nil (suc n) d = levels_from-nil n (suc d)

  -- The root is that of the tree of height 20 over the leaves padded with zeros.
  pub root-node : (t : MerkleTree) → root k t ≡ node t.leaves 20 0
  unfolding root
  root-node t = from_length t.leaves
    where
      level :
          (leaves : List Field)
          → get_or (levels_from k 20 0 leaves) 0 (zeros k 20) ≡ node leaves 20 0
      level leaves = IsLevel-levels_from leaves 20 0 leaves (IsLevel-leaves leaves) 0

      from_length :
          (leaves : List Field)
          → (if length leaves == 0
              then zeros k 20
              else get_or (levels_from k 20 0 leaves) 0 (zeros k 20))
            ≡ node leaves 20 0
      from_length [] = ap (λ l. get_or l 0 (zeros k 20)) (sym (levels_from-nil 20 0)) ∙ level []
      from_length (x ∷ xs) =
          let nonempty : (suc (length xs) == 0) ≡ false = ground arith in
          rw nonempty (level (x ∷ xs))

  -- One step of a verifier leads from a node to its parent.
  fold_step :
      (leaves : List Field) (d idx : ℕ) (sibling : Field)
      → sibling ≡ node leaves d (sibling_index idx)
      → (if idx % 2 == 1
          then poseidon2 k sibling (node leaves d idx)
          else poseidon2 k (node leaves d idx) sibling)
        ≡ node leaves (suc d) (idx / 2)
  unfolding node sibling_index
  fold_step leaves d idx sibling h = elim (Bool-cases (idx % 2 == 1)) [
    | inl odd ↦ rw odd (
        ap₂ (poseidon2 k) ((rw odd at h) ∙ ap (node leaves d) (odd_left idx odd))
          (ap (node leaves d) (odd_right idx odd)))
    | inr even ↦ rw even (
        ap₂ (poseidon2 k) (ap (node leaves d) (even_left idx even))
          ((rw even at h) ∙ ap (node leaves d) (even_right idx even)))
  ]

  -- The path that is taken from level `d` on leads to the top.
  fold_path-path_from :
      (leaves : List Field) (n d : ℕ) (level : List Field) (idx : ℕ)
      → IsLevel leaves d level
      → idx < 2 ^ n
      → fold_path (node leaves d idx) idx (path_from k n d level idx) ≡ node leaves (n + d) 0
  unfolding path_from fold_path
  fold_path-path_from leaves zero d level idx h lt = ap₂ (node leaves) (omega arith) (omega arith)
  fold_path-path_from leaves (suc n) d level idx h lt =
      ap (λ c. fold_path c (idx / 2) (path_from k n (suc d) (next_level k level d) (idx / 2)))
        (fold_step leaves d idx (get_or level (sibling_index idx) (zeros k d))
          (h (sibling_index idx)))
      ∙ fold_path-path_from leaves n (suc d) (next_level k level d) (idx / 2)
          (IsLevel-next_level leaves d level h) (omega (arith, pow-suc 2 n))
      ∙ ap (λ (m : ℕ). node leaves m 0) (omega arith)

  length-path_from :
      (n d : ℕ) (level : List Field) (idx : ℕ) → length (path_from k n d level idx) ≡ n
  unfolding path_from
  length-path_from zero d level idx = refl
  length-path_from (suc n) d level idx =
      ap suc (length-path_from n (suc d) (next_level k level d) (idx / 2))

  -- For a leaf that is present, and whose index fits the tree, `pathFor` returns 20 siblings that
  -- lead from the leaf to the root.
  pub path_for-root :
      (t : MerkleTree) (idx : ℕ)
      → idx < length t.leaves
      → idx < 2 ^ 20
      → (path : List Field) × (path_for k t idx ≡ ok path)
        × (length path ≡ 20)
        × (fold_path (get_or t.leaves idx zero_field) idx path ≡ root k t)
  unfolding path_for node
  path_for-root t idx present fits = (
    path_from k 20 0 t.leaves idx,
    rw (lt→leb idx (length t.leaves) present),
    length-path_from 20 0 t.leaves idx,
    fold_path-path_from t.leaves 20 0 t.leaves idx (IsLevel-leaves t.leaves) fits
        ∙ sym (root-node t),
  )
