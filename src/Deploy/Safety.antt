-- ===== src/Deploy/Safety.antt =====
-- What the deploy command line guarantees of the commands that it emits.
use near_shield.Prelude.{
  ◌≡◌, ◌≢◌, refl, arith, sym, subst, Bool, true, false, Bool-cases, inl, inr, not, ◌&&◌, List, [],
  ◌∷◌, ◌++◌, list_eq, list_eq_iff, if◌then◌else◌, Result, ok, throw_if, ok_injective, >>=-eq-ok,
  throw_if-not, throw_if_true, not_confirmed, readiness_failed,
}
use near_shield.Js.Text.{Text, codes}
use near_shield.Core.Disclosure.{deposit, transfer, withdraw}
use near_shield.Deploy.Node.{Node}
use near_shield.Deploy.Gates.{
  run_readiness_check, InitArgs, AssembleResult, checked_key, assemble_init_args,
}
use near_shield.Deploy.Config.{
  Network, sandbox, testnet, mainnet, DeployConfig, network_text, load_config,
}
use near_shield.Deploy.Sandbox.{Chain, deploy_to_sandbox}
use near_shield.Deploy.Run.{
  RunOpts, RunResult, EmitResult, Write, emitted, canonical_wasm, is_mainnet, is_sandbox,
  init_args_json, emit_deploy_command, deploy_command, require_canonical_wasm, run_sandbox,
  run_emit, run,
}
use near_shield.Deploy.Cli.{keep_readiness, default_opts, parse_flags, parse_args, main}
use near_shield.Deploy.Keys.{IsVetted, assemble_init_args-IsVetted}

-- The command that deploys the WASM `wasm` to `account`, with `new` called on the arguments that
-- stand in the file `path`.
abbrev pub near_command : Text → Text → Text → Text → Text
near_command account wasm path network =
    codes "near contract deploy "
    ++ (account
        ++ (codes " use-file '"
            ++ (wasm
                ++ (codes "' with-init-call new json-args \"$(cat '"
                    ++ (path
                        ++ (codes
                              "')\" prepaid-gas '300.0 Tgas' attached-deposit '0 NEAR' network-config "
                            ++ (network ++ codes " sign-with-keychain send")))))))

-- Options, a result and writes that the command line may end with when it emits a command.
pub record IsSafe (node : Node) (opts : RunOpts) (r : EmitResult) (writes : List Write)
    : Type 0 where
  pub config : DeployConfig
  pub loaded :
      load_config node opts.network
        (record { account = opts.account; owner = opts.owner; usdc_token = opts.usdc_token })
      ≡ ok config
  pub not_sandbox : is_sandbox opts.network ≡ false
  pub ready : node.readiness opts.repo_root ≡ true
  pub canonical :
      node.resolve (opts.wasm ∷ []) ≡ node.resolve (opts.repo_root ∷ canonical_wasm ∷ [])
  pub confirmed : opts.network ≡ mainnet → opts.confirm_mainnet ≡ true
  pub init_args : InitArgs
  pub written : writes ≡ record { path = r.args_path; content = init_args_json init_args } ∷ []
  pub args_owner : init_args.owner ≡ config.owner
  pub args_usdc_token : init_args.usdc_token ≡ config.usdc_token
  pub command :
      r.command ≡ near_command config.account opts.wasm r.args_path (network_text opts.network)
  pub vetted_deposit : IsVetted node opts.vk_dir deposit init_args.vk_deposit
  pub vetted_transfer : IsVetted node opts.vk_dir transfer init_args.vk_transfer
  pub vetted_withdraw : IsVetted node opts.vk_dir withdraw init_args.vk_withdraw

-- `parseArgs` never returns options that skip the readiness check off the sandbox.
keep_readiness_lem :
    (node : Node) (opts : RunOpts)
    → is_sandbox (keep_readiness node opts).network ≡ false
    → (keep_readiness node opts).skip_readiness ≡ false
unfolding keep_readiness
keep_readiness_lem node opts h = elim (Bool-cases (opts.skip_readiness)) [
  | inr kept ↦ rw kept refl
  | inl skipped ↦ elim (Bool-cases (is_sandbox opts.network)) [
    | inl here ↦ absurd (cc (rw (skipped, here) at h))
    | inr off ↦ rw (skipped, off) refl
  ]
]

parse_args-keeps :
    (node : Node) (argv : List Text) {opts : RunOpts}
    → parse_args node argv ≡ ok opts
    → is_sandbox opts.network ≡ false
    → opts.skip_readiness ≡ false
unfolding parse_args
parse_args-keeps node argv h =
    let (o, _, h) = >>=-eq-ok (parse_flags node (default_opts node) argv) _ h in
    subst (λ (opts : RunOpts). is_sandbox opts.network ≡ false → opts.skip_readiness ≡ false)
      (ok_injective h) (keep_readiness_lem node o)

else_of {ℓ} :
    {A : Type ℓ} (b : Bool) {x y z : A} → x ≢ z → (if b then x else y) ≡ z → (b ≡ false) × (y ≡ z)
else_of true differ h = absurd (differ h)
else_of false differ h = (refl, h)

not_skipped :
    (b : Bool) {m : Result (Unit {0})} {u : Unit {0}}
    → b ≡ false
    → (if b then ok tt else m) ≡ ok u
    → m ≡ ok u
not_skipped true e h = cc
not_skipped false e h = h

confirm_lem : (n : Network) (c : Bool) → (is_mainnet n && not c) ≡ false → n ≡ mainnet → c ≡ true
confirm_lem sandbox c h e = absurd (cc)
confirm_lem testnet c h e = absurd (cc)
confirm_lem mainnet c h e = ground arith

emitted_injective :
    {x r : EmitResult} {vs ws : List Write}
    → (◌≡◌ {A = RunResult × List Write} (emitted x, vs) (emitted r, ws))
    → (x ≡ r) × (vs ≡ ws)
emitted_injective h = (cc, cc)

assemble_init_args-keeps :
    (node : Node) (vk_dir owner usdc_token : Text) {a : AssembleResult}
    → assemble_init_args node vk_dir owner usdc_token ≡ ok a
    → (a.init_args.owner ≡ owner) × (a.init_args.usdc_token ≡ usdc_token)
unfolding assemble_init_args
assemble_init_args-keeps node vk_dir owner usdc_token {a} h =
    let (_, _, h) = >>=-eq-ok (checked_key node vk_dir deposit) _ h in
    let (_, _, h) = >>=-eq-ok (checked_key node vk_dir transfer) _ h in
    let (_, _, h) = >>=-eq-ok (checked_key node vk_dir withdraw) _ h in
    subst
      (λ (a : AssembleResult). (a.init_args.owner ≡ owner) × (a.init_args.usdc_token ≡ usdc_token))
      (ok_injective h) (refl, refl)

module _ (node : Node) (chain : Chain) (opts : RunOpts) where
  canonical_lem :
      {u : Unit {0}}
      → require_canonical_wasm node chain opts ≡ ok u
      → is_sandbox opts.network ≡ false
      → node.resolve (opts.wasm ∷ []) ≡ node.resolve (opts.repo_root ∷ canonical_wasm ∷ [])
  unfolding require_canonical_wasm
  canonical_lem h off =
      elim (Bool-cases (
        list_eq (node.resolve (opts.wasm ∷ []))
          (node.resolve (opts.repo_root ∷ canonical_wasm ∷ [])))) [
            | inl same ↦ (list_eq_iff _ _).0 same
            | inr other ↦ absurd (cc (rw (off, other) at h))
          ]

  run_sandbox-deployed :
      (a : AssembleResult) (sha : Text) {r : EmitResult} {ws : List Write}
      → run_sandbox node chain opts a sha ≢ ok (emitted r, ws)
  unfolding run_sandbox
  run_sandbox-deployed a sha h =
      let (s, _, h) = >>=-eq-ok (deploy_to_sandbox chain opts.wasm a.init_args) _ h in cc

  run_emit-written :
      (account : Text) (a : AssembleResult) (sha : Text) {r : EmitResult} {ws : List Write}
      → run_emit node chain opts account a sha ≡ ok (emitted r, ws)
      → (opts.network ≡ mainnet → opts.confirm_mainnet ≡ true)
        × (r.command ≡ near_command account opts.wasm r.args_path (network_text opts.network))
        × (ws ≡ record { path = r.args_path; content = init_args_json a.init_args } ∷ [])
  unfolding run_emit emit_deploy_command deploy_command
  run_emit-written account a sha {r} {ws} h =
      let (_, sure, h) =
        >>=-eq-ok (throw_if (is_mainnet opts.network && not opts.confirm_mainnet) not_confirmed) _
          h in
      let (same, writes) = emitted_injective (ok_injective h) in
      let result =
        subst
          (λ (x : EmitResult).
            (x.command ≡ near_command account opts.wasm x.args_path (network_text opts.network))
            × (ws ≡ record { path = x.args_path; content = init_args_json a.init_args } ∷ []))
          same (refl, sym writes) in
      (
        confirm_lem opts.network opts.confirm_mainnet (throw_if_true _ not_confirmed sure),
        result.0,
        result.1,
      )

  -- A run that keeps the readiness check emits a command only for safe options.
  run-IsSafe :
      {r : EmitResult} {ws : List Write}
      → (is_sandbox opts.network ≡ false → opts.skip_readiness ≡ false)
      → run node chain opts ≡ ok (emitted r, ws)
      → IsSafe node opts r ws
  unfolding run run_readiness_check
  run-IsSafe {r} {ws} checks h =
      let (_, ready, h) =
        >>=-eq-ok
          (if opts.skip_readiness
            then ok tt
            else throw_if (not (node.readiness opts.repo_root)) readiness_failed)
          _ h in
      let (_, wasm_ok, h) = >>=-eq-ok (require_canonical_wasm node chain opts) _ h in
      let (cfg, loaded, h) = >>=-eq-ok (load_config node opts.network _) _ h in
      let (a, assembled, h) =
        >>=-eq-ok (assemble_init_args node opts.vk_dir cfg.owner cfg.usdc_token) _ h in
      let (wasm, _, h) = >>=-eq-ok (node.read_file opts.wasm) _ h in
      let (d, t, w) =
        assemble_init_args-IsVetted node opts.vk_dir cfg.owner cfg.usdc_token assembled in
      let (owner, usdc_token) =
        assemble_init_args-keeps node opts.vk_dir cfg.owner cfg.usdc_token assembled in
      let (off, h) =
        else_of (is_sandbox opts.network) (run_sandbox-deployed a (node.sha256 wasm)) h in
      let (confirmed, command, written) = run_emit-written cfg.account a (node.sha256 wasm) h in
      record {
        config = cfg;
        loaded = loaded;
        not_sandbox = off;
        ready =
            throw_if-not _ readiness_failed (not_skipped opts.skip_readiness (checks off) ready);
        canonical = canonical_lem wasm_ok off;
        confirmed = confirmed;
        init_args = a.init_args;
        written = written;
        args_owner = owner;
        args_usdc_token = usdc_token;
        command = command;
        vetted_deposit = d;
        vetted_transfer = t;
        vetted_withdraw = w;
      }

-- If the command line ends with an emitted command, its flags name testnet or mainnet, mainnet only
-- with the confirmation, and the readiness check of the repository has passed whatever flags were
-- given. The command is the `near contract deploy` of the account of the loaded configuration, on
-- the network of the flags, of the WASM path of the flags, which is that of the canonical artifact,
-- with `new` called on the arguments file that the result names. That file is the one that was
-- written, and it holds the owner and the token of the configuration and three keys, which are the
-- encoded files of the key directory, have the lengths of their circuits and are not the
-- development keys.
pub main-IsSafe :
    (node : Node) (chain : Chain) (argv : List Text) {r : EmitResult} {ws : List Write}
    → main node chain argv ≡ ok (emitted r, ws)
    → (opts : RunOpts) × (parse_args node argv ≡ ok opts) × IsSafe node opts r ws
unfolding main
main-IsSafe node chain argv h =
    let (opts, read, h) = >>=-eq-ok (parse_args node argv) _ h in
    (opts, read, run-IsSafe node chain opts (parse_args-keeps node argv read) h)
