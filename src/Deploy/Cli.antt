-- ===== src/Deploy/Cli.antt =====
-- `parseArgs` and `main` of deploy/src/deploy.ts; what `main` prints is not modelled.
use near_shield.Prelude.{
  Bool, true, false, not, ◌&&◌, Option, none, some, List, [], ◌∷◌, list_eq, Result, ok, err, ◌>>=◌,
  if◌then◌else◌, bad_flag,
}
use near_shield.Js.Text.{Text, codes, starts_with}
use near_shield.Deploy.Node.{Node}
use near_shield.Deploy.Config.{Network, sandbox, testnet, mainnet}
use near_shield.Deploy.Sandbox.{Chain}
use near_shield.Deploy.Run.{RunOpts, RunResult, Write, canonical_wasm, is_sandbox, run}

-- `next && !next.startsWith("--")`
unfoldable pub value_of : Option Text → Option Text
value_of none = none
value_of (some []) = none
value_of (some (c ∷ s)) = if starts_with (c ∷ s) (codes "--") then none else some (c ∷ s)

unfoldable pub read_network : Text → Result Network
read_network s =
    if list_eq s (codes "sandbox")
    then ok sandbox
    else if list_eq s (codes "testnet")
    then ok testnet
    else if list_eq s (codes "mainnet")
    then ok mainnet
    else err bad_flag

-- What a flag does to the options, given the value after it.
unfoldable pub set_network : RunOpts → Text → Result (RunOpts × Bool)
set_network opts v = do n ← read_network v; ok (record opts { network = n }, true)

unfoldable pub with_value : Option Text → (Text → Result (RunOpts × Bool)) → Result (RunOpts × Bool)
with_value none f = err bad_flag
with_value (some v) f = f v

module _ (node : Node) where
  abbrev pub default_opts : RunOpts
  default_opts =
      let repo_root = node.resolve (node.dirname ∷ codes "../.." ∷ []) in
      record {
        network = sandbox;
        vk_dir = node.resolve (repo_root ∷ codes "ceremony/out" ∷ []);
        wasm = node.resolve (repo_root ∷ canonical_wasm ∷ []);
        repo_root = repo_root;
        owner = none;
        usdc_token = none;
        account = none;
        confirm_mainnet = false;
        skip_readiness = false;
        out_dir = none;
      }

  -- One round of the loop: the new options, and whether the next argument was taken as well.
  unfoldable pub read_flag : RunOpts → Text → Option Text → Result (RunOpts × Bool)
  read_flag opts arg next =
      let value = value_of next in
      if list_eq arg (codes "--network")
      then with_value value (set_network opts)
      else if list_eq arg (codes "--vk-dir")
      then with_value value (λ v. ok (record opts { vk_dir = node.resolve (v ∷ []) }, true))
      else if list_eq arg (codes "--wasm")
      then with_value value (λ v. ok (record opts { wasm = node.resolve (v ∷ []) }, true))
      else if list_eq arg (codes "--owner")
      then with_value value (λ v. ok (record opts { owner = some v }, true))
      else if list_eq arg (codes "--usdc-token")
      then with_value value (λ v. ok (record opts { usdc_token = some v }, true))
      else if list_eq arg (codes "--account")
      then with_value value (λ v. ok (record opts { account = some v }, true))
      else if list_eq arg (codes "--confirm-mainnet")
      then ok (record opts { confirm_mainnet = true }, false)
      else if list_eq arg (codes "--skip-readiness")
      then ok (record opts { skip_readiness = true }, false)
      else if list_eq arg (codes "--out-dir")
      then with_value value (λ v. ok (record opts { out_dir = some (node.resolve (v ∷ [])) }, true))
      else err bad_flag

  unfoldable pub parse_flags : RunOpts → List Text → Result RunOpts
  parse_flags opts [] = ok opts
  parse_flags opts (arg ∷ []) = do (o, taken) ← read_flag opts arg none; ok o
  parse_flags opts (arg ∷ next ∷ rest) = do
    (o, taken) ← read_flag opts arg (some next)
    elim taken [ true ↦ parse_flags o rest | false ↦ parse_flags o (next ∷ rest) ]

  -- The last lines of `parseArgs`: the readiness check is skipped on the sandbox only.
  unfoldable pub keep_readiness : RunOpts → RunOpts
  keep_readiness opts =
      if opts.skip_readiness && not (is_sandbox opts.network)
      then record opts { skip_readiness = false }
      else opts

  unfoldable pub parse_args : List Text → Result RunOpts
  parse_args argv = do opts ← parse_flags default_opts argv; ok (keep_readiness opts)

  unfoldable pub main : Chain → List Text → Result (RunResult × List Write)
  main chain argv = do opts ← parse_args argv; run node chain opts
