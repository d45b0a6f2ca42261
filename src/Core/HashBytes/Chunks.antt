-- ===== src/Core/HashBytes/Chunks.antt =====
-- The loop of sdk/packages/core/src/hash_bytes.ts over chunks of 31 bytes, which fit below the
-- field order, so that the chunks keep the bytes apart.
use native.Mathlib.Nat.{pow-suc, pow-le-pow_right}
use near_shield.Prelude.{
  ℕ, zero, suc, ◌+◌, ◌-◌, ◌^◌, ◌≤◌, ◌<◌, ◌≡◌, refl, arith, ap, ap₂, ltb→lt, sym, ◌∙◌, inl, inr,
  List, [], ◌∷◌, ◌++◌, length, take, drop, length-take, length-drop, take-append-drop, All, ltb,
  Bool-cases,
}
use near_shield.Js.Text.{Bytes, subarray}
use near_shield.Core.Field.{Field, le_value, from_bytes_le}
use near_shield.Core.Field.Wire.{IsByte}
use near_shield.Core.Field.Laws.{new_field-pos_injective}
use near_shield.Core.HashBytes.{chunks_from}

le_value-lt : (bs : Bytes) → All IsByte bs → le_value bs < 256 ^ length bs
unfolding le_value
le_value-lt [] h = omega arith
le_value-lt (b ∷ bs) h = omega (arith, pow-suc 256 (length bs), le_value-lt bs h.1)

le_value-injective :
    (xs ys : Bytes)
    → All IsByte xs
    → All IsByte ys
    → length xs ≡ length ys
    → le_value xs ≡ le_value ys
    → xs ≡ ys
unfolding le_value
le_value-injective [] [] h k l e = refl
le_value-injective [] (y ∷ ys) h k l e = absurd (omega arith)
le_value-injective (x ∷ xs) [] h k l e = absurd (omega arith)
le_value-injective (x ∷ xs) (y ∷ ys) h k l e =
    let tails = le_value-injective xs ys h.1 k.1 (omega arith) (omega arith) in
    let heads : x ≡ y = omega arith in cc

pow_mono : (n : ℕ) → n ≤ 31 → 256 ^ n ≤ 256 ^ 31
pow_mono n h = pow-le-pow_right (omega arith) h

-- Up to 31 bytes are kept apart by their field element.
from_bytes_le-injective :
    (xs ys : Bytes)
    → All IsByte xs
    → All IsByte ys
    → length xs ≤ 31
    → length xs ≡ length ys
    → from_bytes_le xs ≡ from_bytes_le ys
    → xs ≡ ys
unfolding from_bytes_le
from_bytes_le-injective xs ys h k short l e = le_value-injective xs ys h k l (
    new_field-pos_injective (le_value xs) (le_value ys)
      (omega (arith, le_value-lt xs h, pow_mono (length xs) short))
      (omega (arith, le_value-lt ys k, pow_mono (length ys) (omega arith))) e)

-- The chunks of what is left of the input.
pub chunks_of : ℕ → Bytes → List Field
chunks_of zero l = []
chunks_of (suc fuel) [] = []
chunks_of (suc fuel) (x ∷ l) = from_bytes_le (take 31 (x ∷ l)) ∷ chunks_of fuel (drop 31 (x ∷ l))

drop-nil : (n : ℕ) → drop {A = ℕ} n [] ≡ []
drop-nil zero = refl
drop-nil (suc n) = refl

drop-drop : (m i : ℕ) (b : Bytes) → drop m (drop i b) ≡ drop (i + m) b
drop-drop m zero b = ap (λ (n : ℕ). drop n b) (omega arith)
drop-drop m (suc i) [] = drop-nil m ∙ sym (drop-nil (suc i + m))
drop-drop m (suc i) (x ∷ b) =
    drop-drop m i b
    ∙ ap (λ (n : ℕ). drop n (x ∷ b)) (let e : suc (i + m) ≡ suc i + m = omega arith in e)

chunk-eq : (b : Bytes) (i : ℕ) → subarray b i (i + 31) ≡ take 31 (drop i b)
chunk-eq b i = let e : i + 31 - i ≡ 31 = omega arith in ap (λ (n : ℕ). take n (drop i b)) e

chunks_of-cons :
    (fuel : ℕ) (l : Bytes)
    → 0 < length l
    → chunks_of (suc fuel) l ≡ from_bytes_le (take 31 l) ∷ chunks_of fuel (drop 31 l)
unfolding chunks_of
chunks_of-cons fuel [] h = absurd (omega arith)
chunks_of-cons fuel (x ∷ l) h = refl

chunks_of-nil : (fuel : ℕ) (l : Bytes) → length l ≡ 0 → chunks_of fuel l ≡ []
unfolding chunks_of
chunks_of-nil zero l h = refl
chunks_of-nil (suc fuel) [] h = refl
chunks_of-nil (suc fuel) (x ∷ l) h = absurd (omega arith)

pub chunks_from-chunks_of :
    (fuel : ℕ) (b : Bytes) (i : ℕ) → chunks_from fuel b i ≡ chunks_of fuel (drop i b)
unfolding chunks_from
chunks_from-chunks_of zero b i = unfold chunks_of in refl
chunks_from-chunks_of (suc fuel) b i = elim (Bool-cases (ltb i (length b))) [
  | inl more ↦
      rw (more, chunk-eq b i, chunks_from-chunks_of fuel b (i + 31))
        (sym (
          chunks_of-cons fuel (drop i b) (omega (arith, length-drop i b, ltb→lt i (length b) more))
          ∙ ap (λ t. from_bytes_le (take 31 (drop i b)) ∷ chunks_of fuel t) (drop-drop 31 i b)))
  | inr done ↦ rw done (sym (chunks_of-nil (suc fuel) (drop i b) (ground (arith, length-drop i b))))
]

All-take : (n : ℕ) (xs : Bytes) → All IsByte xs → All IsByte (take n xs)
All-take zero xs h = tt
All-take (suc n) [] h = tt
All-take (suc n) (x ∷ xs) h = (h.0, All-take n xs h.1)

All-drop : (n : ℕ) (xs : Bytes) → All IsByte xs → All IsByte (drop n xs)
All-drop zero xs h = h
All-drop (suc n) [] h = tt
All-drop (suc n) (x ∷ xs) h = All-drop n xs h.1

-- With enough fuel the chunks determine the bytes.
pub chunks_of-injective :
    (fuel : ℕ) (xs ys : Bytes)
    → All IsByte xs
    → All IsByte ys
    → length xs ≤ fuel
    → length xs ≡ length ys
    → chunks_of fuel xs ≡ chunks_of fuel ys
    → xs ≡ ys
unfolding chunks_of
chunks_of-injective fuel [] [] h k f l e = refl
chunks_of-injective fuel [] (y ∷ ys) h k f l e = absurd (omega arith)
chunks_of-injective fuel (x ∷ xs) [] h k f l e = absurd (omega arith)
chunks_of-injective zero (x ∷ xs) (y ∷ ys) h k f l e = absurd (omega arith)
chunks_of-injective (suc fuel) (x ∷ xs) (y ∷ ys) h k f l e =
    let heads : take 31 (x ∷ xs) ≡ take 31 (y ∷ ys) =
      from_bytes_le-injective (take 31 (x ∷ xs)) (take 31 (y ∷ ys)) (All-take 31 (x ∷ xs) h)
        (All-take 31 (y ∷ ys) k) (omega (arith, length-take 31 (x ∷ xs)))
        (omega (arith, length-take 31 (x ∷ xs), length-take 31 (y ∷ ys))) (cc) in
    let tails : drop 31 (x ∷ xs) ≡ drop 31 (y ∷ ys) =
      chunks_of-injective fuel (drop 31 (x ∷ xs)) (drop 31 (y ∷ ys)) (All-drop 31 (x ∷ xs) h)
        (All-drop 31 (y ∷ ys) k) (omega (arith, length-drop 31 (x ∷ xs)))
        (omega (arith, length-drop 31 (x ∷ xs), length-drop 31 (y ∷ ys))) (cc) in
    sym (take-append-drop 31 (x ∷ xs)) ∙ ap₂ ◌++◌ heads tails ∙ take-append-drop 31 (y ∷ ys)

pub length-chunks_of :
    (fuel : ℕ) (xs ys : Bytes)
    → length xs ≡ length ys
    → length (chunks_of fuel xs) ≡ length (chunks_of fuel ys)
unfolding chunks_of
length-chunks_of zero xs ys l = refl
length-chunks_of (suc fuel) [] [] l = refl
length-chunks_of (suc fuel) [] (y ∷ ys) l = absurd (omega arith)
length-chunks_of (suc fuel) (x ∷ xs) [] l = absurd (omega arith)
length-chunks_of (suc fuel) (x ∷ xs) (y ∷ ys) l = ap suc (
    length-chunks_of fuel (drop 31 (x ∷ xs)) (drop 31 (y ∷ ys))
      (omega (arith, length-drop 31 (x ∷ xs), length-drop 31 (y ∷ ys))))
