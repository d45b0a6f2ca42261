-- ===== src/Deploy/Node.antt =====
-- What the deploy tool takes from Node.js and from the machine that it runs on.
use near_shield.Prelude.{Bool, Option, List, Result}
use near_shield.Js.Text.{Text, Bytes}
use near_shield.Sdk.Groth16.{SnarkjsVk}

-- The values of a file of deploy/config, each of which may be absent.
pub record ConfigFile : Type 0 where
  pub account : Option Text
  pub owner : Option Text
  pub usdc_token : Option Text

-- `none` is a file that does not exist, an error one that is not JSON.
pub record Node : Type 0 where
  pub dirname : Text
  pub config_dir : Text
  pub resolve : List Text → Text
  pub join : List Text → Text
  -- `createHash("sha256").update(bytes).digest("hex")`
  pub sha256 : Bytes → Text
  pub vk_file : Text → Option (Result SnarkjsVk)
  pub config_file : Text → Option (Result ConfigFile)
  pub read_file : Text → Result Bytes
  -- the exit status 0 of scripts/check-production-readiness.sh in a directory
  pub readiness : Text → Bool
