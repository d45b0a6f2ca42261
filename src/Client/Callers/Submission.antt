-- ===== src/Client/Callers/Submission.antt =====
-- The submitter of near-submitter.ts beside the SDK's call for a withdrawal.
use near_shield.Prelude.{ℕ, ◌≡◌, refl, some, ok, ◌>>=◌, pos}
use near_shield.Js.Text.{Text, codes}
use near_shield.Js.BigInt.{
  to_bigint, trim_start, trim_end, integer_literal, parse_nat, parse_digits, digit_value, is_space,
}
use near_shield.Relayer.{SubmitRequest}
use near_shield.Sdk.Transaction.{BuiltTx}
use near_shield.Sdk.Envelopes.{
  WithdrawArgs, NearFunctionCall, withdraw_fields, three_hundred_tgas, one_near_yocto,
  to_withdraw_args, to_withdraw_call,
}
use near_shield.Client.Callers.{NearCaller, submit_args, submit_withdraw}

-- The request that carries the arguments.
abbrev pub request_of : WithdrawArgs → SubmitRequest
request_of a = record {
  proof = a.proof;
  merkle_root = a.merkle_root;
  nullifier = a.nullifier;
  recipient = a.recipient;
  amount = a.amount;
  auditor_pubkey = a.auditor_pubkey;
  view_ct = a.view_ct;
  relayer = a.relayer;
  relayer_fee = a.relayer_fee;
}

submit_args-withdraw_fields : (a : WithdrawArgs) → submit_args (request_of a) ≡ withdraw_fields a
unfolding submit_args
submit_args-withdraw_fields a = refl

gas_value : to_bigint three_hundred_tgas ≡ ok (pos 300000000000000)
unfolding to_bigint trim_start trim_end integer_literal parse_nat parse_digits digit_value is_space
gas_value = refl

deposit_value : to_bigint one_near_yocto ≡ ok (pos 1000000000000000000000000)
unfolding to_bigint trim_start trim_end integer_literal parse_nat parse_digits digit_value is_space
deposit_value = refl

-- For a transaction with an envelope, the submitter makes the call of the envelope: the same contract,
-- method and arguments, with the gas and the deposit that the envelope names in decimal.
pub submit_withdraw-to_withdraw_call :
    (caller : NearCaller) (pool : Text) (tx : BuiltTx) {a : WithdrawArgs}
    → to_withdraw_args tx ≡ ok a
    → (call : NearFunctionCall) × (gas : ℕ) × (attached_deposit : ℕ) × (to_withdraw_call tx pool
        ≡ ok call)
      × (to_bigint call.gas ≡ ok (pos gas))
      × (to_bigint call.attached_deposit ≡ ok (pos attached_deposit))
      × (submit_withdraw caller pool (request_of a) ≡ (do
        outcome ←
            caller.call call.contract_id call.method_name call.args
              (record { gas = some gas; attached_deposit = some attached_deposit })
        ok outcome.transaction_hash))
unfolding submit_withdraw to_withdraw_call
submit_withdraw-to_withdraw_call caller pool tx {a} h = (
  record {
    contract_id = pool;
    method_name = codes "withdraw";
    args = withdraw_fields a;
    attached_deposit = one_near_yocto;
    gas = three_hundred_tgas;
  },
  300000000000000,
  1000000000000000000000000,
  rw h refl,
  gas_value,
  deposit_value,
  rw (submit_args-withdraw_fields a) refl,
)
