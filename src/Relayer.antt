-- ===== src/Relayer.antt =====
-- sdk/packages/relayer/src/service.ts: the gas payer that submits withdrawals for a fee.
pub mod Submission
use near_shield.Prelude.{
  ℕ, ◌+◌, ◌/◌, ◌==◌, not, Bool, List, [], ◌∷◌, length, list_eq, if◌then◌else◌, ℤ, pos, ltb_ℤ, eqb_ℤ,
  Error, Result, ok, err, ◌>>=◌, ◌>>◌, throw_if, relayer_mismatch, fee_mismatch, fee_exceeds_amount,
  not_an_integer, negative_units, empty_recipient, empty_proof,
}
use near_shield.Js.Text.{Text, Bytes}
use near_shield.Js.BigInt.{to_bigint}
use near_shield.Js.Numerals.{bigint_text}

pub record RelayerConfig : Type 0 where
  pub near_account_id : Text
  pub fee_usdc_base : ℤ

pub record Quote : Type 0 where
  pub relayer : Text
  pub fee_usdc_base : Text
  pub valid_until : ℕ

pub record SubmitRequest : Type 0 where
  pub proof : Bytes
  pub merkle_root : Text
  pub nullifier : Text
  pub recipient : Text
  pub amount : Text
  pub auditor_pubkey : Text
  pub view_ct : Text
  pub relayer : Text
  pub relayer_fee : Text

-- `now` is Date.now(), in milliseconds.
unfoldable pub quote : RelayerConfig → ℕ → ℕ → Quote
quote config quote_validity_seconds now = record {
  relayer = config.near_account_id;
  fee_usdc_base = bigint_text config.fee_usdc_base;
  valid_until = now / 1000 + quote_validity_seconds;
}

abbrev pub non_negative : ℤ → Result ℤ
non_negative v = if ltb_ℤ v (pos 0) then err negative_units else ok v

abbrev pub base_units : Result ℤ → Result ℤ
base_units (ok v) = non_negative v
base_units (err e) = err not_an_integer

unfoldable pub parse_base_units : Text → Result ℤ
parse_base_units s = base_units (to_bigint s)

-- The checks of `submit`, in its order.
unfoldable pub check_request : RelayerConfig → SubmitRequest → Result (Unit {0})
check_request config req = do
  throw_if (not (list_eq req.relayer config.near_account_id)) relayer_mismatch
  fee ← parse_base_units req.relayer_fee
  amount ← parse_base_units req.amount
  throw_if (not (eqb_ℤ fee config.fee_usdc_base)) fee_mismatch
  throw_if (ltb_ℤ amount fee) fee_exceeds_amount
  throw_if (length req.recipient == 0) empty_recipient
  throw_if (length req.proof == 0) empty_proof
  ok tt

-- The calls of the submitter that `submit` makes, and its result. `send` is `submitWithdraw`.
unfoldable pub submit :
    RelayerConfig → (SubmitRequest → Result Text) → SubmitRequest → List SubmitRequest × Result Text
submit config send req = elim (check_request config req) [
  | ok _ ↦ (req ∷ [], send req)
  | err e ↦ ([], err e)
]
