-- ===== src/Core/HashBytes/Laws.antt =====
-- `hashBytesToField` is binding on byte strings of one length: the chunks of 31 bytes fit below
-- the field order, so two inputs with one hash are a collision of Poseidon.
use near_shield.Prelude.{
  ℕ, suc, ◌<◌, ◌≡◌, refl, arith, ap, sym, ◌∙◌, ◌⊎◌, inl, inr, List, [], ◌∷◌, length, All, ◌==◌,
  false,
}
use near_shield.Js.Text.{Bytes}
use near_shield.Core.Field.{Field}
use near_shield.Core.Field.Wire.{IsByte}
use near_shield.Core.Packages.{Packages}
use near_shield.Core.Poseidon.{Collides2, poseidon2, poseidon2-injective}
use near_shield.Core.HashBytes.{fold_chunks, hash_chunks, hash_bytes_to_field}
use near_shield.Core.HashBytes.Chunks.{
  chunks_of, chunks_from-chunks_of, chunks_of-injective, length-chunks_of,
}

module _ (k : Packages) where
  -- In some round of two runs of the loop, from accumulators `a` and `b`, the two pairs of
  -- accumulator and chunk collide.
  abbrev pub FoldCollides : Field → Field → List Field → List Field → Type 0
  FoldCollides a b [] ds = ⊥
  FoldCollides a b (c ∷ cs) [] = ⊥
  FoldCollides a b (c ∷ cs) (d ∷ ds) =
      Collides2 k (a, c) (b, d) ⊎ FoldCollides (poseidon2 k a c) (poseidon2 k b d) cs ds

  -- The loop starts with the first chunk as accumulator.
  abbrev pub ChunksCollide : List Field → List Field → Type 0
  ChunksCollide [] ds = ⊥
  ChunksCollide (c ∷ cs) [] = ⊥
  ChunksCollide (c ∷ cs) (d ∷ ds) = FoldCollides c d cs ds

  fold_chunks-injective :
      (a b : Field) (cs ds : List Field)
      → length cs ≡ length ds
      → fold_chunks k a cs ≡ fold_chunks k b ds
      → ((a ≡ b) × (cs ≡ ds)) ⊎ FoldCollides a b cs ds
  unfolding fold_chunks
  fold_chunks-injective a b [] [] l e = inl (e, refl)
  fold_chunks-injective a b [] (d ∷ ds) l e = absurd (omega arith)
  fold_chunks-injective a b (c ∷ cs) [] l e = absurd (omega arith)
  fold_chunks-injective a b (c ∷ cs) (d ∷ ds) l e =
      elim (fold_chunks-injective (poseidon2 k a c) (poseidon2 k b d) cs ds (omega arith) e) [
        | inr collision ↦ inr (inr collision)
        | inl (acc, rest) ↦ elim (poseidon2-injective k a c b d acc) [
          | inr collision ↦ inr (inl collision)
          | inl (p, q) ↦ inl (p, cc)
        ]
      ]

  hash_chunks-injective :
      (cs ds : List Field)
      → length cs ≡ length ds
      → hash_chunks k cs ≡ hash_chunks k ds
      → (cs ≡ ds) ⊎ ChunksCollide cs ds
  unfolding hash_chunks
  hash_chunks-injective [] [] l e = inl refl
  hash_chunks-injective [] (d ∷ ds) l e = absurd (omega arith)
  hash_chunks-injective (c ∷ cs) [] l e = absurd (omega arith)
  hash_chunks-injective (c ∷ cs) (d ∷ ds) l e =
      elim (fold_chunks-injective c d cs ds (omega arith) e) [
        | inr collision ↦ inr collision
        | inl (p, q) ↦ inl cc
      ]

  hash_bytes_to_field_chunks :
      (b : Bytes) → 0 < length b → hash_bytes_to_field k b ≡ hash_chunks k (chunks_of (length b) b)
  unfolding hash_bytes_to_field
  hash_bytes_to_field_chunks [] h = absurd (omega arith)
  hash_bytes_to_field_chunks (x ∷ xs) h =
      let nonempty : (suc (length xs) == 0) ≡ false = ground arith in
      rw nonempty (ap (hash_chunks k) (chunks_from-chunks_of (length (x ∷ xs)) (x ∷ xs) 0))

  -- Two byte strings of one length with the same hash are equal, or Poseidon collides on them: in some
  -- round the accumulator and the chunk of 31 bytes of one are hashed to what those of the other are.
  pub hash_bytes_to_field-binding :
      (xs ys : Bytes)
      → All IsByte xs
      → All IsByte ys
      → length xs ≡ length ys
      → hash_bytes_to_field k xs ≡ hash_bytes_to_field k ys
      → (xs ≡ ys) ⊎ ChunksCollide (chunks_of (length xs) xs) (chunks_of (length xs) ys)
  hash_bytes_to_field-binding [] [] hx hy l e = inl refl
  hash_bytes_to_field-binding [] (y ∷ ys) hx hy l e = absurd (omega arith)
  hash_bytes_to_field-binding (x ∷ xs) [] hx hy l e = absurd (omega arith)
  hash_bytes_to_field-binding (x ∷ xs) (y ∷ ys) hx hy l e =
      let n = length (x ∷ xs) in
      let same : hash_chunks k (chunks_of n (x ∷ xs)) ≡ hash_chunks k (chunks_of n (y ∷ ys)) =
        sym (hash_bytes_to_field_chunks (x ∷ xs) (omega arith))
        ∙ e
        ∙ hash_bytes_to_field_chunks (y ∷ ys) (omega arith)
        ∙ ap (λ (m : ℕ). hash_chunks k (chunks_of m (y ∷ ys))) (sym l) in
      elim (hash_chunks-injective _ _ (length-chunks_of n (x ∷ xs) (y ∷ ys) l) same) [
        | inl chunks ↦ inl (chunks_of-injective n (x ∷ xs) (y ∷ ys) hx hy (omega arith) l chunks)
        | inr collision ↦ inr collision
      ]
