-- ===== src/Sdk/Groth16/Slots.antt =====
-- The byte layout of proofs and keys that the header of groth16-adapter.ts documents.
use mathlib.Core.List.{append_assoc}
use near_shield.Prelude.{
  ℕ, ◌+◌, ◌≡◌, arith, ap, sym, subst, ◌∙◌, List, [], ◌∷◌, ◌++◌, length, length-append, drop, ok,
  ok_injective, >>=-eq-ok,
}
use near_shield.Js.Text.{Bytes, subarray}
use near_shield.Core.Encrypt.Seal.{subarray_middle}
use near_shield.Sdk.Groth16.{
  G1, SnarkjsProof, SnarkjsVk, encode_g1, encode_g2, encode_ic, vk_json_to_contract_bytes,
  snarkjs_proof_to_bytes,
}
use near_shield.Sdk.Groth16.Layout.{length-encode_g1, length-encode_g2}
use near_shield.Sdk.Groth16.Points.{
  G1Bytes, G2Bytes, drop_skip, subarray_from, subarray_front, subarray_all, encode_g1-G1Bytes,
  encode_g2-G2Bytes,
}

-- The points of the IC list, in order, 64 bytes for each and nothing behind them.
abbrev pub IcBytes : List G1 → Bytes → Type 0
IcBytes [] b = b ≡ []
IcBytes (p ∷ ps) b = G1Bytes p (subarray b 0 64) × IcBytes ps (drop 64 b)

-- A part of 128 bytes, from the array that it stands in.
part_at :
    (xs ys zs : Bytes) (i : ℕ) {bs : Bytes}
    → length xs ≡ i
    → length ys ≡ 128
    → xs ++ (ys ++ zs) ≡ bs
    → ys ≡ subarray bs i (i + 128)
part_at xs ys zs i hx hy e =
    sym (subarray_middle xs ys zs i (i + 128) hx (omega arith)) ∙ ap (λ t. subarray t i (i + 128)) e

-- A proof that is encoded is 256 bytes: the point A in the first 64, B in the next 128 and C in the
-- last 64. A point of G1 is x and y; a point of G2 is x.c0, x.c1, y.c0 and y.c1, the first of a pair
-- of snarkjs being c0; each coordinate is 32 bytes, the lowest first, of the number that its text
-- denotes. The point at infinity, whose z is "0", or whose two z are, is zeros.
pub snarkjs_proof_to_bytes_layout :
    (proof : SnarkjsProof) {bs : Bytes}
    → snarkjs_proof_to_bytes proof ≡ ok bs
    → (length bs ≡ 256)
      × G1Bytes proof.pi_a (subarray bs 0 64)
      × G2Bytes proof.pi_b (subarray bs 64 192)
      × G1Bytes proof.pi_c (subarray bs 192 256)
unfolding snarkjs_proof_to_bytes
snarkjs_proof_to_bytes_layout proof {bs} h =
    let (a, ha, h) = >>=-eq-ok (encode_g1 proof.pi_a) _ h in
    let (b, hb, h) = >>=-eq-ok (encode_g2 proof.pi_b) _ h in
    let (c, hc, h) = >>=-eq-ok (encode_g1 proof.pi_c) _ h in
    let la = length-encode_g1 proof.pi_a ha in
    let lb = length-encode_g2 proof.pi_b hb in
    let lc = length-encode_g1 proof.pi_c hc in
    subst
      (λ (bs : Bytes).
        (length bs ≡ 256)
        × G1Bytes proof.pi_a (subarray bs 0 64)
        × G2Bytes proof.pi_b (subarray bs 64 192)
        × G1Bytes proof.pi_c (subarray bs 192 256))
      (ok_injective h)
      (
        omega (arith, length-append a (b ++ c), length-append b c),
        subst (G1Bytes proof.pi_a) (sym (subarray_front a (b ++ c) 64 la))
            (encode_g1-G1Bytes proof.pi_a ha),
        subst (G2Bytes proof.pi_b)
            (sym (subarray_from a (b ++ c) 64 0 128 la ∙ subarray_front b c 128 lb))
            (encode_g2-G2Bytes proof.pi_b hb),
        subst (G1Bytes proof.pi_c)
            (sym (
              subarray_from a (b ++ c) 64 128 192 la
              ∙ subarray_from b c 128 0 64 lb
              ∙ subarray_all c 64 lc))
            (encode_g1-G1Bytes proof.pi_c hc),
      )

drop_all : (xs ys : Bytes) (n : ℕ) → length xs ≡ n → drop n (xs ++ ys) ≡ ys
drop_all xs ys n h =
    ap (λ (m : ℕ). drop m (xs ++ ys)) (let e : n ≡ length xs + 0 = omega arith in e)
    ∙ drop_skip xs ys 0

encode_ic-IcBytes : (ps : List G1) {b : Bytes} → encode_ic ps ≡ ok b → IcBytes ps b
unfolding encode_ic
encode_ic-IcBytes [] h = sym (ok_injective h)
encode_ic-IcBytes (p ∷ ps) h =
    let (part, hp, h) = >>=-eq-ok (encode_g1 p) _ h in
    let (rest, hr, h) = >>=-eq-ok (encode_ic ps) _ h in
    let n = length-encode_g1 p hp in
    subst (IcBytes (p ∷ ps)) (ok_injective h) (
      subst (G1Bytes p) (sym (subarray_front part rest 64 n)) (encode_g1-G1Bytes p hp),
      subst (IcBytes ps) (sym (drop_all part rest 64 n)) (encode_ic-IcBytes ps hr),
    )

-- A verification key that is encoded is alpha in the first 64 bytes, beta, gamma and delta in the
-- next 128 each, and the points of the IC list in order, 64 bytes for each and nothing behind them.
-- Points are laid out as in a proof.
vk_json_to_contract_bytes_layout :
    (vk : SnarkjsVk) {bs : Bytes}
    → vk_json_to_contract_bytes vk ≡ ok bs
    → G1Bytes vk.vk_alpha_1 (subarray bs 0 64)
      × G2Bytes vk.vk_beta_2 (subarray bs 64 192)
      × G2Bytes vk.vk_gamma_2 (subarray bs 192 320)
      × G2Bytes vk.vk_delta_2 (subarray bs 320 448)
      × IcBytes vk.ic (drop 448 bs)
unfolding vk_json_to_contract_bytes
vk_json_to_contract_bytes_layout vk {bs} h =
    let (a, ha, h) = >>=-eq-ok (encode_g1 vk.vk_alpha_1) _ h in
    let (b, hb, h) = >>=-eq-ok (encode_g2 vk.vk_beta_2) _ h in
    let (c, hc, h) = >>=-eq-ok (encode_g2 vk.vk_gamma_2) _ h in
    let (d, hd, h) = >>=-eq-ok (encode_g2 vk.vk_delta_2) _ h in
    let (ic, hi, h) = >>=-eq-ok (encode_ic vk.ic) _ h in
    let e : a ++ (b ++ (c ++ (d ++ ic))) ≡ bs = ok_injective h in
    let la = length-encode_g1 vk.vk_alpha_1 ha in
    let lb = length-encode_g2 vk.vk_beta_2 hb in
    let lc = length-encode_g2 vk.vk_gamma_2 hc in
    let ld = length-encode_g2 vk.vk_delta_2 hd in
    (
      subst (G1Bytes vk.vk_alpha_1)
          (sym (subarray_front a (b ++ (c ++ (d ++ ic))) 64 la) ∙ ap (λ t. subarray t 0 64) e)
          (encode_g1-G1Bytes vk.vk_alpha_1 ha),
      subst (G2Bytes vk.vk_beta_2) (part_at a b (c ++ (d ++ ic)) 64 la lb e)
          (encode_g2-G2Bytes vk.vk_beta_2 hb),
      subst (G2Bytes vk.vk_gamma_2)
          (part_at (a ++ b) c (d ++ ic) 192 (omega (arith, length-append a b)) lc
            (append_assoc a b (c ++ (d ++ ic)) ∙ e))
          (encode_g2-G2Bytes vk.vk_gamma_2 hc),
      subst (G2Bytes vk.vk_delta_2)
          (part_at ((a ++ b) ++ c) d ic 320
            (omega (arith, length-append a b, length-append (a ++ b) c)) ld
            (append_assoc (a ++ b) c (d ++ ic) ∙ append_assoc a b (c ++ (d ++ ic)) ∙ e))
          (encode_g2-G2Bytes vk.vk_delta_2 hd),
      subst (IcBytes vk.ic)
          (sym (
              drop_all (((a ++ b) ++ c) ++ d) ic 448 (
                omega (
                  arith,
                  length-append a b,
                  length-append (a ++ b) c,
                  length-append ((a ++ b) ++ c) d,
                )))
            ∙ ap (drop 448) (
                append_assoc ((a ++ b) ++ c) d ic
                ∙ append_assoc (a ++ b) c (d ++ ic)
                ∙ append_assoc a b (c ++ (d ++ ic))
                ∙ e))
          (encode_ic-IcBytes vk.ic hi),
    )
