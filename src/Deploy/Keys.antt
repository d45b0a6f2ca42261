-- ===== src/Deploy/Keys.antt =====
-- The verifying keys that the gates of the deploy tool let through.
use near_shield.Prelude.{
  ◌+◌, ◌≡◌, ◌≢◌, ◌↔◌, arith, subst, false, ==_iff, length, list_eq, list_eq_iff, ok, throw_if,
  ok_injective, >>=-eq-ok, throw_if-not, throw_if_true, vk_length, dev_key,
}
use near_shield.Js.Text.{Text, Bytes}
use near_shield.Core.Disclosure.{Action, deposit, transfer, withdraw}
use near_shield.Sdk.Groth16.{SnarkjsVk, vk_json_to_contract_bytes}
use near_shield.Sdk.Groth16.Layout.{length-vk_json_to_contract_bytes}
use near_shield.Sdk.Prover.{public_names}
use near_shield.Deploy.Node.{Node}
use near_shield.Deploy.Gates.{
  vk_len, dev_vk_fingerprint, assert_vk_length, assert_not_dev_key, read_vk_json, checked_key,
  AssembleResult, assemble_init_args,
}

assert_vk_length_ok :
    (c : Action) (b : Bytes) {u : Unit {0}} → assert_vk_length c b ≡ ok u → length b ≡ vk_len c
unfolding assert_vk_length
assert_vk_length_ok c b h = (==_iff _ _).0 (throw_if-not _ vk_length h)

-- The length gate accepts the bytes of a key if and only if the key has one point more in its IC
-- list than the circuit has public inputs.
pub assert_vk_length_iff :
    (c : Action) (vk : SnarkjsVk) {b : Bytes}
    → vk_json_to_contract_bytes vk ≡ ok b
    → (assert_vk_length c b ≡ ok tt) ↔ (length vk.ic ≡ 1 + length (public_names c))
unfolding assert_vk_length
assert_vk_length_iff deposit vk {b} h =
    let n = length-vk_json_to_contract_bytes vk h in
    (λ g. omega (arith, n, assert_vk_length_ok deposit b g), λ g. ground (arith, n))
assert_vk_length_iff transfer vk {b} h =
    let n = length-vk_json_to_contract_bytes vk h in
    (λ g. omega (arith, n, assert_vk_length_ok transfer b g), λ g. ground (arith, n))
assert_vk_length_iff withdraw vk {b} h =
    let n = length-vk_json_to_contract_bytes vk h in
    (λ g. omega (arith, n, assert_vk_length_ok withdraw b g), λ g. ground (arith, n))

-- The bytes of a key that may be deployed for a circuit: read from the directory, of the circuit's
-- length and not the development key.
pub record IsVetted (node : Node) (vk_dir : Text) (c : Action) (b : Bytes) : Type 0 where
  pub vk : SnarkjsVk
  pub source : read_vk_json node vk_dir c ≡ ok vk
  pub encoded : vk_json_to_contract_bytes vk ≡ ok b
  pub right_length : length b ≡ vk_len c
  pub not_dev : node.sha256 b ≢ dev_vk_fingerprint c

differs : (s t : Text) → list_eq s t ≡ false → s ≢ t
differs s t h e = ground (arith, list_eq_iff s t)

module _ (node : Node) where
  checked_key-IsVetted :
      (vk_dir : Text) (c : Action) {b : Bytes}
      → checked_key node vk_dir c ≡ ok b
      → IsVetted node vk_dir c b
  unfolding checked_key assert_not_dev_key
  checked_key-IsVetted vk_dir c {b} h =
      let (vk, source, h) = >>=-eq-ok (read_vk_json node vk_dir c) _ h in
      let (b', encoded, h) = >>=-eq-ok (vk_json_to_contract_bytes vk) _ h in
      let (_, right_length, h) = >>=-eq-ok (assert_vk_length c b') _ h in
      let (_, not_dev, h) =
        >>=-eq-ok (throw_if (list_eq (node.sha256 b') (dev_vk_fingerprint c)) dev_key) _ h in
      subst (IsVetted node vk_dir c) (ok_injective h) (record {
        vk = vk;
        source = source;
        encoded = encoded;
        right_length = assert_vk_length_ok c b' right_length;
        not_dev = differs _ _ (throw_if_true _ dev_key not_dev);
      })

  -- The three keys of an assembled call of `new` are vetted.
  pub assemble_init_args-IsVetted :
      (vk_dir owner usdc_token : Text) {a : AssembleResult}
      → assemble_init_args node vk_dir owner usdc_token ≡ ok a
      → IsVetted node vk_dir deposit a.init_args.vk_deposit
        × IsVetted node vk_dir transfer a.init_args.vk_transfer
        × IsVetted node vk_dir withdraw a.init_args.vk_withdraw
  unfolding assemble_init_args
  assemble_init_args-IsVetted vk_dir owner usdc_token {a} h =
      let (d, hd, h) = >>=-eq-ok (checked_key node vk_dir deposit) _ h in
      let (t, ht, h) = >>=-eq-ok (checked_key node vk_dir transfer) _ h in
      let (w, hw, h) = >>=-eq-ok (checked_key node vk_dir withdraw) _ h in
      subst
        (λ (a : AssembleResult).
          IsVetted node vk_dir deposit a.init_args.vk_deposit
          × IsVetted node vk_dir transfer a.init_args.vk_transfer
          × IsVetted node vk_dir withdraw a.init_args.vk_withdraw)
        (ok_injective h)
        (
          checked_key-IsVetted vk_dir deposit hd,
          checked_key-IsVetted vk_dir transfer ht,
          checked_key-IsVetted vk_dir withdraw hw,
        )
