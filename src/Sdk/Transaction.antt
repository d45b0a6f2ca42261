-- ===== src/Sdk/Transaction.antt =====
-- What the builders of wallet.ts return, and the text of a ciphertext of envelopes.ts.
use Prim.Native.String.{String}
use near_shield.Prelude.{ℕ, List, ◌++◌}
use near_shield.Js.Text.{Text, Bytes, codes, hex_bytes}
use near_shield.Core.Disclosure.{Action}

-- `string | string[] | number`
pub data PublicInput : Type 0 where
  str : Text → PublicInput
  strs : List Text → PublicInput
  num : ℕ → PublicInput

pub record BuiltTx : Type 0 where
  pub method : Action
  pub public_inputs : List (String × PublicInput)
  pub proof : Bytes
  pub view_ciphertexts : List Bytes
  pub note_ciphertexts : List Bytes

unfoldable pub encode_ciphertext : Bytes → Text
encode_ciphertext b = codes "0x" ++ hex_bytes b
