-- ===== src/Deploy/Config.antt =====
-- deploy/src/config.ts
use near_shield.Prelude.{
  Bool, Option, none, some, [], ◌∷◌, ◌++◌, length, ◌==◌, Result, ok, err, ◌>>=◌, ◌>>◌, throw_if,
  config_parse, config_missing,
}
use near_shield.Js.Text.{Text, codes}
use near_shield.Js.BigInt.{trim_start, trim_end}
use near_shield.Deploy.Node.{Node, ConfigFile}

pub data Network : Type 0 where
  sandbox testnet mainnet : Network

abbrev pub network_text : Network → Text
network_text sandbox = codes "sandbox"
network_text testnet = codes "testnet"
network_text mainnet = codes "mainnet"

pub record DeployConfig : Type 0 where
  pub network : Network
  pub account : Text
  pub owner : Text
  pub usdc_token : Text

-- `override ?? value ?? ""`
unfoldable pub first_of : Option Text → Option Text → Text
first_of (some a) b = a
first_of none (some b) = b
first_of none none = []

-- `!s.trim()`
unfoldable pub is_blank : Text → Bool
is_blank s = length (trim_end (trim_start s)) == 0

unfoldable pub file_values : Option (Result ConfigFile) → Result ConfigFile
file_values none = ok (record { account = none; owner = none; usdc_token = none })
file_values (some (ok f)) = ok f
file_values (some (err e)) = err config_parse

unfoldable pub load_config : Node → Network → ConfigFile → Result DeployConfig
load_config node network overrides = do
  file ← file_values (
      node.config_file (node.join (node.config_dir ∷ (network_text network ++ codes ".json") ∷ [])))
  let account = first_of overrides.account file.account
  let owner = first_of overrides.owner file.owner
  let usdc_token = first_of overrides.usdc_token file.usdc_token
  throw_if (is_blank account) config_missing
  throw_if (is_blank owner) config_missing
  throw_if (is_blank usdc_token) config_missing
  ok (record { network = network; account = account; owner = owner; usdc_token = usdc_token })
