-- ===== src/Core/Poseidon.antt =====
-- sdk/packages/core/src/poseidon.ts, and what it means for two inputs to collide.
use near_shield.Prelude.{pos, ◌≡◌, ◌≢◌, ◌⊎◌, inl, inr, ap}
use native.Mathlib.Decide.{ℕ_discrete}
use near_shield.Core.Field.{Field, new_field}
use near_shield.Core.Packages.{Packages}

module _ (k : Packages) where
  unfoldable pub poseidon2 : Field → Field → Field
  poseidon2 a b = new_field (pos (k.hash2 a.value b.value))

  unfoldable pub poseidon4 : Field → Field → Field → Field → Field
  poseidon4 a b c d = new_field (pos (k.hash4 a.value b.value c.value d.value))

-- Field elements are compared by their values.
pub Field-discrete : Discrete Field
Field-discrete = hlevel ℕ_discrete

Pair-discrete : Discrete (Field × Field)
Pair-discrete = hlevel ℕ_discrete

Quadruple-discrete : Discrete (Field × Field × Field × Field)
Quadruple-discrete = hlevel ℕ_discrete

module _ (k : Packages) where
  -- These two pairs, or quadruples, differ, and the package hashes them to one field element.
  abbrev pub Collides2 : Field × Field → Field × Field → Type 0
  Collides2 x y =
      (new_field (pos (k.hash2 x.0.value x.1.value))
        ≡ new_field (pos (k.hash2 y.0.value y.1.value)))
      × (x ≢ y)

  abbrev pub Collides4 : Field × Field × Field × Field → Field × Field × Field × Field → Type 0
  Collides4 x y =
      (new_field (pos (k.hash4 x.0.value x.1.value x.2.value x.3.value))
        ≡ new_field (pos (k.hash4 y.0.value y.1.value y.2.value y.3.value)))
      × (x ≢ y)

  -- Equal hashes have equal inputs, or these inputs collide.
  pub poseidon2-injective :
      (a b a' b' : Field)
      → poseidon2 k a b ≡ poseidon2 k a' b'
      → ((a ≡ a') × (b ≡ b')) ⊎ Collides2 (a, b) (a', b')
  unfolding poseidon2
  poseidon2-injective a b a' b' h = elim (Pair-discrete (a, b) (a', b')) [
    | no n ↦ inr (h, n)
    | yes p ↦ inl (ap (λ t. t.0) p, ap (λ t. t.1) p)
  ]

  pub poseidon4-injective :
      (a b c d a' b' c' d' : Field)
      → poseidon4 k a b c d ≡ poseidon4 k a' b' c' d'
      → ((a ≡ a') × (b ≡ b') × (c ≡ c') × (d ≡ d')) ⊎ Collides4 (a, b, c, d) (a', b', c', d')
  unfolding poseidon4
  poseidon4-injective a b c d a' b' c' d' h =
      elim (Quadruple-discrete (a, b, c, d) (a', b', c', d')) [
        | no n ↦ inr (h, n)
        | yes p ↦ inl (ap (λ t. t.0) p, ap (λ t. t.1) p, ap (λ t. t.2) p, ap (λ t. t.3) p)
      ]
