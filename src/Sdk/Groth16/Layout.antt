-- ===== src/Sdk/Groth16/Layout.antt =====
-- What a coordinate decodes to, and how long points and keys are.
use native.Mathlib.Nat.{pow-suc}
use near_shield.Prelude.{
  ℕ, zero, suc, ◌+◌, ◌*◌, ◌/◌, ◌^◌, ◌<◌, ◌≡◌, refl, arith, ap, sym, subst, ◌∙◌, false, List, [],
  ◌∷◌, ◌++◌, length, length-append, All, ℤ, pos, negsuc, pos_part, ltb_ℤ, leb, ◌||◌, ok, Bool-cases,
  inl, inr, ok_injective, >>=-eq-ok, throw_if, throw_if_true, range_error, replicate, ◌&&◌,
}
use near_shield.Js.Text.{Text, Bytes}
use near_shield.Js.BigInt.{to_bigint}
use near_shield.Core.Field.{le_value}
use near_shield.Core.Field.Wire.{IsByte}
use near_shield.Sdk.Groth16.{
  G1, G2, SnarkjsVk, bytes_le, dec_to_le, is_zero, finite_g1, encode_g1, finite_g2, encode_g2,
  encode_ic, vk_json_to_contract_bytes,
}

length-bytes_le : (n v : ℕ) → length (bytes_le n v) ≡ n
unfolding bytes_le
length-bytes_le zero v = refl
length-bytes_le (suc n) v = ap suc (length-bytes_le n (v / 256))

bytes_le-All : (n v : ℕ) → All IsByte (bytes_le n v)
unfolding bytes_le
bytes_le-All zero v = tt
bytes_le-All (suc n) v = (omega arith, bytes_le-All n (v / 256))

le_value-bytes_le : (n v : ℕ) → v < 256 ^ n → le_value (bytes_le n v) ≡ v
unfolding bytes_le le_value
le_value-bytes_le zero v h = omega arith
le_value-bytes_le (suc n) v h =
    omega (arith, pow-suc 256 n, le_value-bytes_le n (v / 256) (omega (arith, pow-suc 256 n)))

in_range :
    (v : ℤ)
    → (ltb_ℤ v (pos 0) || leb (2 ^ 256) (pos_part v)) ≡ false
    → (v ≡ pos (pos_part v)) × (pos_part v < 256 ^ 32)
in_range (pos n) h = (refl, ground arith)
in_range (negsuc n) h = absurd (ground arith)

-- A coordinate that is encoded is 32 bytes that stand for the number of its decimal text.
pub dec_to_le-value :
    (s : Text) {bs : Bytes}
    → dec_to_le s ≡ ok bs
    → (to_bigint s ≡ ok (pos (le_value bs))) × (length bs ≡ 32) × All IsByte bs
unfolding dec_to_le
dec_to_le-value s {bs} h =
    let (v, read, h) = >>=-eq-ok (to_bigint s) _ h in
    let (_, checked, h) =
      >>=-eq-ok (throw_if (ltb_ℤ v (pos 0) || leb (2 ^ 256) (pos_part v)) range_error) _ h in
    let e : bs ≡ bytes_le 32 (pos_part v) = cc in
    let (positive, small) = in_range v (throw_if_true _ _ checked) in
    let value : le_value bs ≡ pos_part v =
      ap le_value e ∙ le_value-bytes_le 32 (pos_part v) small in
    (
      read ∙ ap ok (positive ∙ ap pos (sym value)),
      ap length e ∙ length-bytes_le 32 (pos_part v),
      subst (All IsByte) (sym e) (bytes_le-All 32 (pos_part v)),
    )

pub length-dec_to_le : (s : Text) {bs : Bytes} → dec_to_le s ≡ ok bs → length bs ≡ 32
length-dec_to_le s h = (dec_to_le-value s h).1

length-finite_g1 : (p : G1) {bs : Bytes} → finite_g1 p ≡ ok bs → length bs ≡ 64
unfolding finite_g1
length-finite_g1 p {bs} h =
    let (x, hx, h) = >>=-eq-ok (dec_to_le p.x) _ h in
    let (y, hy, h) = >>=-eq-ok (dec_to_le p.y) _ h in
    let e : bs ≡ x ++ y = cc in
    ap length e ∙ omega (arith, length-append x y, length-dec_to_le p.x hx, length-dec_to_le p.y hy)

pub length-encode_g1 : (p : G1) {bs : Bytes} → encode_g1 p ≡ ok bs → length bs ≡ 64
unfolding encode_g1
length-encode_g1 p {bs} h = elim (Bool-cases (is_zero p.z)) [
  | inl infinite ↦
      let e : replicate 64 0 ≡ bs = ok_injective (rw infinite at h) in ap length (sym e)
  | inr finite ↦ length-finite_g1 p (rw finite at h)
]

length-finite_g2 : (p : G2) {bs : Bytes} → finite_g2 p ≡ ok bs → length bs ≡ 128
unfolding finite_g2
length-finite_g2 p {bs} h =
    let (x0, hx0, h) = >>=-eq-ok (dec_to_le p.x0) _ h in
    let (x1, hx1, h) = >>=-eq-ok (dec_to_le p.x1) _ h in
    let (y0, hy0, h) = >>=-eq-ok (dec_to_le p.y0) _ h in
    let (y1, hy1, h) = >>=-eq-ok (dec_to_le p.y1) _ h in
    let e : bs ≡ x0 ++ (x1 ++ (y0 ++ y1)) = cc in
    ap length e
    ∙ omega (
      arith,
      length-append x0 (x1 ++ (y0 ++ y1)),
      length-append x1 (y0 ++ y1),
      length-append y0 y1,
      length-dec_to_le p.x0 hx0,
      length-dec_to_le p.x1 hx1,
      length-dec_to_le p.y0 hy0,
      length-dec_to_le p.y1 hy1,
    )

pub length-encode_g2 : (p : G2) {bs : Bytes} → encode_g2 p ≡ ok bs → length bs ≡ 128
unfolding encode_g2
length-encode_g2 p {bs} h = elim (Bool-cases (is_zero p.z0 && is_zero p.z1)) [
  | inl infinite ↦
      let e : replicate 128 0 ≡ bs = ok_injective (rw infinite at h) in ap length (sym e)
  | inr finite ↦ length-finite_g2 p (rw finite at h)
]

length-encode_ic : (ps : List G1) {bs : Bytes} → encode_ic ps ≡ ok bs → length bs ≡ 64 * length ps
unfolding encode_ic
length-encode_ic [] {bs} h = let e : [] ≡ bs = ok_injective h in ap length (sym e)
length-encode_ic (p ∷ ps) {bs} h =
    let (part, hp, h) = >>=-eq-ok (encode_g1 p) _ h in
    let (rest, hr, h) = >>=-eq-ok (encode_ic ps) _ h in
    let e : part ++ rest ≡ bs = ok_injective h in
    ap length (sym e)
    ∙ omega (arith, length-append part rest, length-encode_g1 p hp, length-encode_ic ps hr)

-- A key is 448 bytes and 64 more for each point of its IC list.
pub length-vk_json_to_contract_bytes :
    (vk : SnarkjsVk) {bs : Bytes}
    → vk_json_to_contract_bytes vk ≡ ok bs
    → length bs ≡ 448 + 64 * length vk.ic
unfolding vk_json_to_contract_bytes
length-vk_json_to_contract_bytes vk {bs} h =
    let (alpha, ha, h) = >>=-eq-ok (encode_g1 vk.vk_alpha_1) _ h in
    let (beta, hb, h) = >>=-eq-ok (encode_g2 vk.vk_beta_2) _ h in
    let (gamma, hg, h) = >>=-eq-ok (encode_g2 vk.vk_gamma_2) _ h in
    let (delta, hd, h) = >>=-eq-ok (encode_g2 vk.vk_delta_2) _ h in
    let (ic, hi, h) = >>=-eq-ok (encode_ic vk.ic) _ h in
    let e : alpha ++ (beta ++ (gamma ++ (delta ++ ic))) ≡ bs = ok_injective h in
    ap length (sym e)
    ∙ omega (
      arith,
      length-append alpha (beta ++ (gamma ++ (delta ++ ic))),
      length-append beta (gamma ++ (delta ++ ic)),
      length-append gamma (delta ++ ic),
      length-append delta ic,
      length-encode_g1 vk.vk_alpha_1 ha,
      length-encode_g2 vk.vk_beta_2 hb,
      length-encode_g2 vk.vk_gamma_2 hg,
      length-encode_g2 vk.vk_delta_2 hd,
      length-encode_ic vk.ic hi,
    )
