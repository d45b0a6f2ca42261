-- ===== src/Deploy/Gates.antt =====
-- deploy/src/gates.ts and deploy/src/assemble.ts: the checks of the verifying keys, and the
-- arguments of the contract's `new`.
use near_shield.Prelude.{
  ℕ, not, Option, none, some, [], ◌∷◌, ◌++◌, length, list_eq, ◌==◌, Result, ok, err, ◌>>=◌, ◌>>◌,
  throw_if, vk_length, dev_key, vk_missing, vk_json, readiness_failed,
}
use near_shield.Js.Text.{Text, Bytes, codes}
use near_shield.Core.Disclosure.{Action, action_text, deposit, transfer, withdraw}
use near_shield.Sdk.Groth16.{SnarkjsVk, vk_json_to_contract_bytes}
use near_shield.Deploy.Node.{Node}

abbrev pub vk_len : Action → ℕ
vk_len deposit = 768
vk_len transfer = 1088
vk_len withdraw = 1024

abbrev pub dev_vk_fingerprint : Action → Text
dev_vk_fingerprint deposit =
    codes "8abe07dc84b83e87f469c02456546cea85ec2797a4006a13af5dd5009697ba4f"
dev_vk_fingerprint transfer =
    codes "1298e44b0ed0ed6227b1b6753d548359d865005afed77dabadb134c12571f171"
dev_vk_fingerprint withdraw =
    codes "d72df6c51b91bed8558977fca485c9b1392cccddca285939d17a52d68dd9d4cb"

unfoldable pub assert_vk_length : Action → Bytes → Result (Unit {0})
assert_vk_length c bytes = throw_if (not (length bytes == vk_len c)) vk_length

pub record InitArgs : Type 0 where
  pub owner : Text
  pub usdc_token : Text
  pub vk_deposit : Bytes
  pub vk_transfer : Bytes
  pub vk_withdraw : Bytes

pub record AssembleResult : Type 0 where
  pub init_args : InitArgs
  pub vk_sha256 : Action → Text

abbrev pub fingerprints : Text → Text → Text → Action → Text
fingerprints d t w deposit = d
fingerprints d t w transfer = t
fingerprints d t w withdraw = w

module _ (node : Node) where
  unfoldable pub assert_not_dev_key : Action → Bytes → Result (Unit {0})
  assert_not_dev_key c bytes = throw_if (list_eq (node.sha256 bytes) (dev_vk_fingerprint c)) dev_key

  unfoldable pub run_readiness_check : Text → Result (Unit {0})
  run_readiness_check repo_root = throw_if (not (node.readiness repo_root)) readiness_failed

  unfoldable pub parsed : Option (Result SnarkjsVk) → Result SnarkjsVk
  parsed none = err vk_missing
  parsed (some (ok vk)) = ok vk
  parsed (some (err e)) = err vk_json

  -- The file of the circuit's own directory goes before the flat one.
  unfoldable pub read_vk_json : Text → Action → Result SnarkjsVk
  read_vk_json vk_dir c =
      let nested = node.vk_file (node.join (vk_dir ∷ action_text c ∷ codes "vk.json" ∷ [])) in
      let flat = node.vk_file (node.join (vk_dir ∷ (action_text c ++ codes "_vk.json") ∷ [])) in
      elim nested [ some r ↦ parsed (some r) | none ↦ parsed flat ]

  -- One round of the loop over the circuits.
  unfoldable pub checked_key : Text → Action → Result Bytes
  checked_key vk_dir c = do
    vk ← read_vk_json vk_dir c
    b ← vk_json_to_contract_bytes vk
    assert_vk_length c b
    assert_not_dev_key c b
    ok b

  unfoldable pub assemble_init_args : Text → Text → Text → Result AssembleResult
  assemble_init_args vk_dir owner usdc_token = do
    d ← checked_key vk_dir deposit
    t ← checked_key vk_dir transfer
    w ← checked_key vk_dir withdraw
    ok (record {
      init_args = record {
        owner = owner;
        usdc_token = usdc_token;
        vk_deposit = d;
        vk_transfer = t;
        vk_withdraw = w;
      };
      vk_sha256 = fingerprints (node.sha256 d) (node.sha256 t) (node.sha256 w);
    })
