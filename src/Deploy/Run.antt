-- ===== src/Deploy/Run.antt =====
-- deploy/src/emit.ts and `run` of deploy/src/deploy.ts. The files that a run writes are returned
-- with its result: nothing fails after the first of them is written.
use near_shield.Prelude.{
  Bool, true, false, not, ◌&&◌, Option, none, some, List, [], ◌∷◌, ◌++◌, list_eq, Result, ok, ◌>>=◌,
  ◌>>◌, throw_if, if◌then◌else◌, custom_wasm, not_confirmed,
}
use near_shield.Js.Text.{Text, codes}
use near_shield.Js.Json.{Json, bool, str, arr, obj, end, field, numbers}
use near_shield.Core.Disclosure.{Action, deposit, transfer, withdraw}
use near_shield.Deploy.Node.{Node}
use near_shield.Deploy.Gates.{InitArgs, AssembleResult, run_readiness_check, assemble_init_args}
use near_shield.Deploy.Config.{Network, sandbox, mainnet, network_text, load_config}
use near_shield.Deploy.Sandbox.{Chain, SandboxResult, deploy_to_sandbox}

-- An absent flag is `false`.
pub record RunOpts : Type 0 where
  pub network : Network
  pub vk_dir : Text
  pub wasm : Text
  pub repo_root : Text
  pub owner : Option Text
  pub usdc_token : Option Text
  pub account : Option Text
  pub confirm_mainnet : Bool
  pub skip_readiness : Bool
  pub out_dir : Option Text

-- The texts of the checklist are left to the caller: only its presence depends on the run.
pub record EmitResult : Type 0 where
  pub command : Text
  pub args_path : Text
  pub summary : Text
  pub checklist : Bool

pub data RunResult : Type 0 where
  deployed : SandboxResult → Text → RunResult
  emitted : EmitResult → RunResult

-- A file with the JSON text of a value.
pub record Write : Type 0 where
  pub path : Text
  pub content : Json

abbrev pub canonical_wasm : Text
canonical_wasm = codes "target/wasm32-unknown-unknown/release/shielded_pool.opt.wasm"

abbrev pub init_args_json : InitArgs → Json
init_args_json a = obj (
    field (codes "owner") (str a.owner) (
      field (codes "usdc_token") (str a.usdc_token) (
        field (codes "vk_deposit") (arr (numbers a.vk_deposit)) (
          field (codes "vk_transfer") (arr (numbers a.vk_transfer))
            (field (codes "vk_withdraw") (arr (numbers a.vk_withdraw)) end)))))

pub record EmitInput : Type 0 where
  pub network : Network
  pub account : Text
  pub wasm_path : Text
  pub wasm_sha256 : Text
  pub init_args : InitArgs
  pub vk_sha256 : Action → Text
  pub out_dir : Text

unfoldable pub deploy_command : EmitInput → Text → Text
deploy_command i args_path =
    codes "near contract deploy "
    ++ (i.account
        ++ (codes " use-file '"
            ++ (i.wasm_path
                ++ (codes "' with-init-call new json-args \"$(cat '"
                    ++ (args_path
                        ++ (codes
                              "')\" prepaid-gas '300.0 Tgas' attached-deposit '0 NEAR' network-config "
                            ++ (network_text i.network ++ codes " sign-with-keychain send")))))))

unfoldable pub deploy_summary : EmitInput → Text
deploy_summary i =
    codes "network="
    ++ (network_text i.network
        ++ (codes " account="
            ++ (i.account
                ++ (codes "\nwasm="
                    ++ (i.wasm_path
                        ++ (codes " sha256="
                            ++ (i.wasm_sha256
                                ++ (codes "\nowner="
                                    ++ (i.init_args.owner
                                        ++ (codes " usdc_token="
                                            ++ (i.init_args.usdc_token
                                                ++ (codes "\nvk sha256: deposit="
                                                    ++ (i.vk_sha256 deposit
                                                        ++ (codes " transfer="
                                                            ++ (i.vk_sha256 transfer
                                                            ++ (codes " withdraw="
                                                            ++ i.vk_sha256 withdraw))))))))))))))))

abbrev pub is_mainnet : Network → Bool
is_mainnet mainnet = true
is_mainnet n = false

unfoldable pub emit_deploy_command : Node → EmitInput → EmitResult × Write
emit_deploy_command node i =
    let args_path =
      node.join (i.out_dir ∷ (network_text i.network ++ codes "-init-args.json") ∷ []) in
    (
      record {
        command = deploy_command i args_path;
        args_path = args_path;
        summary = deploy_summary i;
        checklist = is_mainnet i.network;
      },
      record { path = args_path; content = init_args_json i.init_args },
    )

-- The receipt of a sandbox deployment; the source indents it by two spaces.
unfoldable pub receipt_json : Text → AssembleResult → SandboxResult → Json
receipt_json wasm_sha256 a s = obj (
    field (codes "network") (str (codes "sandbox")) (
      field (codes "wasmSha256") (str wasm_sha256) (
        field (codes "vkSha256")
          (obj (
            field (codes "deposit") (str (a.vk_sha256 deposit)) (
              field (codes "transfer") (str (a.vk_sha256 transfer))
                (field (codes "withdraw") (str (a.vk_sha256 withdraw)) end))))
          (field (codes "initArgs")
            (obj (
              field (codes "owner") (str a.init_args.owner)
                (field (codes "usdc_token") (str a.init_args.usdc_token) end)))
            (field (codes "sandbox")
              (obj (
                field (codes "ok") (bool true) (
                  field (codes "owner") (str s.owner) (
                    field (codes "usdcToken") (str s.usdc_token)
                      (field (codes "paused") (bool s.paused) end)))))
              end)))))

abbrev pub is_sandbox : Network → Bool
is_sandbox sandbox = true
is_sandbox n = false

module _ (node : Node) (chain : Chain) where
  -- Step 1b of `run`.
  unfoldable pub require_canonical_wasm : RunOpts → Result (Unit {0})
  require_canonical_wasm opts =
      throw_if
        (not (is_sandbox opts.network)
          && not (
              list_eq (node.resolve (opts.wasm ∷ []))
                (node.resolve (opts.repo_root ∷ canonical_wasm ∷ []))))
        custom_wasm

  unfoldable pub out_dir_of : RunOpts → Text
  out_dir_of opts = elim opts.out_dir [
    | some d ↦ d
    | none ↦ node.join (opts.repo_root ∷ codes "deploy" ∷ codes "out" ∷ [])
  ]

  -- Step 5 on the sandbox.
  unfoldable pub run_sandbox : RunOpts → AssembleResult → Text → Result (RunResult × List Write)
  run_sandbox opts a wasm_sha256 = do
    s ← deploy_to_sandbox chain opts.wasm a.init_args
    let receipt_path = node.join (out_dir_of opts ∷ codes "sandbox-receipt.json" ∷ [])
    ok (
      deployed s receipt_path,
      record { path = receipt_path; content = receipt_json wasm_sha256 a s } ∷ [],
    )

  -- Step 5 on the other networks.
  unfoldable pub run_emit : RunOpts → Text → AssembleResult → Text → Result (RunResult × List Write)
  run_emit opts account a wasm_sha256 = do
    throw_if (is_mainnet opts.network && not opts.confirm_mainnet) not_confirmed
    let (r, w) = emit_deploy_command node (record {
      network = opts.network;
      account = account;
      wasm_path = opts.wasm;
      wasm_sha256 = wasm_sha256;
      init_args = a.init_args;
      vk_sha256 = a.vk_sha256;
      out_dir = out_dir_of opts;
    })
    ok (emitted r, w ∷ [])

  unfoldable pub run : RunOpts → Result (RunResult × List Write)
  run opts = do
    (if opts.skip_readiness then ok tt else run_readiness_check node opts.repo_root)
    require_canonical_wasm opts
    cfg ←
        load_config node opts.network
          (record { account = opts.account; owner = opts.owner; usdc_token = opts.usdc_token })
    a ← assemble_init_args node opts.vk_dir cfg.owner cfg.usdc_token
    wasm ← node.read_file opts.wasm
    (if is_sandbox opts.network
        then run_sandbox opts a (node.sha256 wasm)
        else run_emit opts cfg.account a (node.sha256 wasm))
