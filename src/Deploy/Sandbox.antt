-- ===== src/Deploy/Sandbox.antt =====
-- deploy/src/sandbox.ts. The sandbox chain of near-workspaces is a parameter; the worker is torn
-- down on every path, which no result depends on.
use near_shield.Prelude.{Bool, not, list_eq, Result, ok, ◌>>=◌, ◌>>◌, throw_if, sandbox_failed}
use near_shield.Js.Text.{Text}
use near_shield.Deploy.Gates.{InitArgs}

pub record Chain : Type 0 where
  -- whether the deployment failed
  pub deploy : Text → Result Bool
  pub call_new : InitArgs → Result (Unit {0})
  -- the views after `new` was called with these arguments
  pub view_owner : InitArgs → Result Text
  pub view_usdc_token : InitArgs → Result Text
  pub view_is_paused : InitArgs → Result Bool

pub record SandboxResult : Type 0 where
  pub owner : Text
  pub usdc_token : Text
  pub paused : Bool

unfoldable pub deploy_to_sandbox : Chain → Text → InitArgs → Result SandboxResult
deploy_to_sandbox chain wasm_path init_args = do
  failed ← chain.deploy wasm_path
  throw_if failed sandbox_failed
  chain.call_new init_args
  owner ← chain.view_owner init_args
  usdc_token ← chain.view_usdc_token init_args
  paused ← chain.view_is_paused init_args
  throw_if (not (list_eq owner init_args.owner)) sandbox_failed
  throw_if (not (list_eq usdc_token init_args.usdc_token)) sandbox_failed
  throw_if paused sandbox_failed
  ok (record { owner = owner; usdc_token = usdc_token; paused = paused })
