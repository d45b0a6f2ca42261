-- ===== src/Tests/DeployTests.antt =====
-- The deploy tool, run on a machine with three keys.
use near_shield.Prelude.{
  ℕ, ◌+◌, ◌≡◌, ◌↔◌, refl, true, false, List, [], ◌∷◌, length, replicate, list_eq, Option, none,
  some, Result, ok, err, if◌then◌else◌,
}
use near_shield.Js.Text.{Text, codes, starts_with}
use near_shield.Js.BigInt.{trim_start, trim_end, is_space}
use near_shield.Core.Disclosure.{deposit}
use near_shield.Sdk.Groth16.{
  G1, G2, SnarkjsVk, encode_g1, encode_g2, encode_ic, vk_json_to_contract_bytes,
}
use near_shield.Sdk.Prover.{public_names}
use near_shield.Deploy.Node.{Node}
use near_shield.Deploy.Gates.{
  assert_vk_length, assert_not_dev_key, run_readiness_check, parsed, read_vk_json, checked_key,
  assemble_init_args,
}
use near_shield.Deploy.Config.{first_of, is_blank, file_values, load_config}
use near_shield.Deploy.Sandbox.{Chain}
use near_shield.Deploy.Run.{
  RunOpts, EmitResult, RunResult, Write, emitted, emit_deploy_command, require_canonical_wasm,
  out_dir_of, run_emit, run,
}
use near_shield.Deploy.Cli.{
  value_of, read_network, set_network, with_value, read_flag, parse_flags, keep_readiness,
  parse_args, main,
}
use near_shield.Deploy.Keys
use near_shield.Deploy.Safety
use near_shield.Deploy.Safety.{IsSafe}

-- Points at infinity make keys of every length.
abbrev zero_g1 : G1
zero_g1 = record { x = codes "0"; y = codes "1"; z = codes "0" }

abbrev zero_g2 : G2
zero_g2 = record {
  x0 = codes "0";
  x1 = codes "0";
  y0 = codes "1";
  y1 = codes "0";
  z0 = codes "0";
  z1 = codes "0";
}

abbrev vk_of : ℕ → SnarkjsVk
vk_of n = record {
  vk_alpha_1 = zero_g1;
  vk_beta_2 = zero_g2;
  vk_gamma_2 = zero_g2;
  vk_delta_2 = zero_g2;
  ic = replicate n zero_g1;
}

deposit_key : vk_json_to_contract_bytes (vk_of 5) ≡ ok (replicate 768 0)
unfolding vk_json_to_contract_bytes encode_g1 encode_g2 encode_ic list_eq
deposit_key = refl

assert_vk_length_iff_example :
    (assert_vk_length deposit (replicate 768 0) ≡ ok tt)
    ↔ (length (vk_of 5).ic ≡ 1 + length (public_names deposit))
assert_vk_length_iff_example = Keys.assert_vk_length_iff deposit (vk_of 5) deposit_key

-- The last part of a path names the file.
abbrev last : List Text → Text
last [] = []
last (p ∷ []) = p
last (p ∷ q ∷ ps) = last (q ∷ ps)

abbrev keys : Text → Option (Result SnarkjsVk)
keys p =
    if list_eq p (codes "deposit_vk.json")
    then some (ok (vk_of 5))
    else if list_eq p (codes "transfer_vk.json")
    then some (ok (vk_of 10))
    else if list_eq p (codes "withdraw_vk.json")
    then some (ok (vk_of 9))
    else none

abbrev machine : Node
machine = record {
  dirname = codes "/repo/deploy/src";
  config_dir = codes "/repo/deploy/config";
  resolve = last;
  join = last;
  sha256 = λ b. codes "ab";
  vk_file = keys;
  config_file = λ p. some (
      ok (record {
        account = some (codes "pool.near");
        owner = some (codes "owner.near");
        usdc_token = some (codes "usdc.near");
      }));
  read_file = λ p. ok (1 ∷ []);
  readiness = λ p. true;
}

abbrev chain : Chain
chain = record {
  deploy = λ p. ok false;
  call_new = λ a. ok tt;
  view_owner = λ a. ok a.owner;
  view_usdc_token = λ a. ok a.usdc_token;
  view_is_paused = λ a. ok false;
}

abbrev argv : List Text
argv = codes "--network" ∷ codes "testnet" ∷ codes "--skip-readiness" ∷ []

abbrev no_result : EmitResult
no_result = record { command = []; args_path = []; summary = []; checklist = false }

abbrev emitted_of : Result (RunResult × List Write) → EmitResult
emitted_of (ok (emitted r, ws)) = r
emitted_of r = no_result

abbrev written_of : Result (RunResult × List Write) → List Write
written_of (ok (r, ws)) = ws
written_of (err e) = []

abbrev outcome : Result (RunResult × List Write)
outcome = main machine chain argv

emits : main machine chain argv ≡ ok (emitted (emitted_of outcome), written_of outcome)
unfolding main parse_args parse_flags read_flag set_network with_value read_network value_of
    keep_readiness starts_with run run_readiness_check require_canonical_wasm load_config
    file_values first_of is_blank trim_start trim_end is_space assemble_init_args checked_key
    read_vk_json parsed assert_vk_length assert_not_dev_key run_emit emit_deploy_command out_dir_of
    vk_json_to_contract_bytes encode_g1 encode_g2 encode_ic list_eq
emits = refl

main-IsSafe_example :
    (opts : RunOpts) × (parse_args machine argv ≡ ok opts)
    × IsSafe machine opts (emitted_of outcome) (written_of outcome)
main-IsSafe_example = Safety.main-IsSafe machine chain argv emits
