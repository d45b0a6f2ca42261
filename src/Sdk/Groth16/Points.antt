-- ===== src/Sdk/Groth16/Points.antt =====
-- The byte layout of points that the header of groth16-adapter.ts documents.
use near_shield.Prelude.{
  All, ℕ, suc, ◌+◌, ◌-◌, ◌≡◌, ◌≢◌, refl, arith, ap, sym, subst, ◌∙◌, ◌⊎◌, inl, inr, false, [], ◌∷◌,
  ◌++◌, length, take, drop, replicate, pos, ok, Bool-cases, ok_injective, >>=-eq-ok, list_eq_iff,
}
use near_shield.Js.Text.{Text, Bytes, codes, subarray}
use near_shield.Js.BigInt.{to_bigint}
use near_shield.Core.Field.{le_value}
use near_shield.Core.Field.Wire.{IsByte}
use near_shield.Core.Encrypt.Seal.{subarray_middle, subarray_end}
use near_shield.Sdk.Groth16.{G1, G2, dec_to_le, is_zero, finite_g1, encode_g1, finite_g2, encode_g2}
use near_shield.Sdk.Groth16.Layout.{dec_to_le-value, length-dec_to_le}

-- These 32 bytes, the lowest first, stand for the number of the decimal text.
abbrev pub IsLe : Text → Bytes → Type 0
IsLe s bs = (to_bigint s ≡ ok (pos (le_value bs))) × (length bs ≡ 32) × All IsByte bs

-- x and y, and zeros for the point at infinity.
abbrev pub G1Bytes : G1 → Bytes → Type 0
G1Bytes p b =
    ((p.z ≡ codes "0") × (b ≡ replicate 64 0))
    ⊎ ((p.z ≢ codes "0") × IsLe p.x (subarray b 0 32) × IsLe p.y (subarray b 32 64))

-- x.c0, x.c1, y.c0 and y.c1, and zeros for the point at infinity.
abbrev pub G2Bytes : G2 → Bytes → Type 0
G2Bytes p b =
    ((p.z0 ≡ codes "0") × (p.z1 ≡ codes "0") × (b ≡ replicate 128 0))
    ⊎ (((p.z0 ≢ codes "0") ⊎ (p.z1 ≢ codes "0"))
        × IsLe p.x0 (subarray b 0 32)
        × IsLe p.x1 (subarray b 32 64)
        × IsLe p.y0 (subarray b 64 96)
        × IsLe p.y1 (subarray b 96 128))

dec_to_le-IsLe : (s : Text) {bs : Bytes} → dec_to_le s ≡ ok bs → IsLe s bs
dec_to_le-IsLe s h = dec_to_le-value s h

-- What stands at a place of an array whose front is known.
pub drop_skip : (xs ys : Bytes) (i : ℕ) → drop (length xs + i) (xs ++ ys) ≡ drop i ys
drop_skip [] ys i = ap (λ (n : ℕ). drop n ys) (omega arith)
drop_skip (x ∷ xs) ys i =
    ap (λ (n : ℕ). drop n (x ∷ (xs ++ ys)))
      (let e : suc (length xs) + i ≡ suc (length xs + i) = omega arith in e)
    ∙ drop_skip xs ys i

subarray_skip :
    (xs ys : Bytes) (i j : ℕ)
    → subarray (xs ++ ys) (length xs + i) (length xs + j) ≡ subarray ys i j
subarray_skip xs ys i j =
    let e : length xs + j - (length xs + i) ≡ j - i = omega arith in
    rw e (ap (take (j - i)) (drop_skip xs ys i))

pub subarray_from :
    (xs ys : Bytes) (n i j : ℕ)
    → length xs ≡ n
    → subarray (xs ++ ys) (n + i) (n + j) ≡ subarray ys i j
subarray_from xs ys n i j h =
    subst (λ (n : ℕ). subarray (xs ++ ys) (n + i) (n + j) ≡ subarray ys i j) h
      (subarray_skip xs ys i j)

pub subarray_front : (xs ys : Bytes) (n : ℕ) → length xs ≡ n → subarray (xs ++ ys) 0 n ≡ xs
subarray_front xs ys n h = subarray_middle [] xs ys 0 n refl (omega arith)

pub subarray_all : (xs : Bytes) (n : ℕ) → length xs ≡ n → subarray xs 0 n ≡ xs
subarray_all xs n h = subarray_end [] xs 0 n refl (omega arith)

not_zero_lem : (s : Text) → is_zero s ≡ false → s ≢ codes "0"
not_zero_lem s h e = absurd (cc ((list_eq_iff s (codes "0")).1 e, h))

finite_g1-IsLe :
    (p : G1) {b : Bytes}
    → finite_g1 p ≡ ok b
    → IsLe p.x (subarray b 0 32) × IsLe p.y (subarray b 32 64)
unfolding finite_g1
finite_g1-IsLe p {b} h =
    let (x, hx, h) = >>=-eq-ok (dec_to_le p.x) _ h in
    let (y, hy, h) = >>=-eq-ok (dec_to_le p.y) _ h in
    subst (λ (b : Bytes). IsLe p.x (subarray b 0 32) × IsLe p.y (subarray b 32 64)) (ok_injective h)
      (
        subst (IsLe p.x) (sym (subarray_front x y 32 (length-dec_to_le p.x hx)))
            (dec_to_le-IsLe p.x hx),
        subst (IsLe p.y)
            (sym (
              subarray_from x y 32 0 32 (length-dec_to_le p.x hx)
              ∙ subarray_all y 32 (length-dec_to_le p.y hy)))
            (dec_to_le-IsLe p.y hy),
      )

pub encode_g1-G1Bytes : (p : G1) {b : Bytes} → encode_g1 p ≡ ok b → G1Bytes p b
unfolding encode_g1
encode_g1-G1Bytes p h = elim (Bool-cases (is_zero p.z)) [
  | inl infinite ↦
      inl ((list_eq_iff p.z (codes "0")).0 infinite, sym (ok_injective (rw infinite at h)))
  | inr finite ↦
      let (x, y) = finite_g1-IsLe p (rw finite at h) in inr (not_zero_lem p.z finite, x, y)
]

finite_g2-IsLe :
    (p : G2) {b : Bytes}
    → finite_g2 p ≡ ok b
    → IsLe p.x0 (subarray b 0 32)
      × IsLe p.x1 (subarray b 32 64)
      × IsLe p.y0 (subarray b 64 96)
      × IsLe p.y1 (subarray b 96 128)
unfolding finite_g2
finite_g2-IsLe p {b} h =
    let (x0, h0, h) = >>=-eq-ok (dec_to_le p.x0) _ h in
    let (x1, h1, h) = >>=-eq-ok (dec_to_le p.x1) _ h in
    let (y0, h2, h) = >>=-eq-ok (dec_to_le p.y0) _ h in
    let (y1, h3, h) = >>=-eq-ok (dec_to_le p.y1) _ h in
    let n0 = length-dec_to_le p.x0 h0 in
    let n1 = length-dec_to_le p.x1 h1 in
    let n2 = length-dec_to_le p.y0 h2 in
    subst
      (λ (b : Bytes).
        IsLe p.x0 (subarray b 0 32)
        × IsLe p.x1 (subarray b 32 64)
        × IsLe p.y0 (subarray b 64 96)
        × IsLe p.y1 (subarray b 96 128))
      (ok_injective h)
      (
        subst (IsLe p.x0) (sym (subarray_front x0 (x1 ++ (y0 ++ y1)) 32 n0))
            (dec_to_le-IsLe p.x0 h0),
        subst (IsLe p.x1)
            (sym
              (subarray_from x0 (x1 ++ (y0 ++ y1)) 32 0 32 n0 ∙ subarray_front x1 (y0 ++ y1) 32 n1))
            (dec_to_le-IsLe p.x1 h1),
        subst (IsLe p.y0)
            (sym (
              subarray_from x0 (x1 ++ (y0 ++ y1)) 32 32 64 n0
              ∙ subarray_from x1 (y0 ++ y1) 32 0 32 n1
              ∙ subarray_front y0 y1 32 n2))
            (dec_to_le-IsLe p.y0 h2),
        subst (IsLe p.y1)
            (sym (
              subarray_from x0 (x1 ++ (y0 ++ y1)) 32 64 96 n0
              ∙ subarray_from x1 (y0 ++ y1) 32 32 64 n1
              ∙ subarray_from y0 y1 32 0 32 n2
              ∙ subarray_all y1 32 (length-dec_to_le p.y1 h3)))
            (dec_to_le-IsLe p.y1 h3),
      )

pub encode_g2-G2Bytes : (p : G2) {b : Bytes} → encode_g2 p ≡ ok b → G2Bytes p b
unfolding encode_g2
encode_g2-G2Bytes p h = elim (Bool-cases (is_zero p.z0)) [
  | inl zero0 ↦ elim (Bool-cases (is_zero p.z1)) [
    | inl zero1 ↦ inl (
      (list_eq_iff p.z0 (codes "0")).0 zero0,
      (list_eq_iff p.z1 (codes "0")).0 zero1,
      sym (ok_injective (rw (zero0, zero1) at h)),
    )
    | inr finite ↦
        let (x0, x1, y0, y1) = finite_g2-IsLe p (rw (zero0, finite) at h) in
        inr (inr (not_zero_lem p.z1 finite), x0, x1, y0, y1)
  ]
  | inr finite ↦
      let (x0, x1, y0, y1) = finite_g2-IsLe p (rw finite at h) in
      inr (inl (not_zero_lem p.z0 finite), x0, x1, y0, y1)
]
