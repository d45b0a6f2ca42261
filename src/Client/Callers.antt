-- ===== src/Client/Callers.antt =====
-- sdk/packages/client/src/near-caller.ts, near-submitter.ts and demo/src/workspaces-caller.ts. The
-- transports (near-api-js and near-workspaces) are arguments.
pub mod Submission
use near_shield.Prelude.{
  ℕ, ◌^◌, Bool, Option, none, some, List, [], ◌∷◌, ◌++◌, Result, ok, err, ◌>>=◌, ◌>>◌, throw_if,
  transaction_failed,
}
use near_shield.Js.Text.{Text, Bytes, codes, to_text}
use near_shield.Js.Json.{Json, Fields, str, arr, obj, end, field, numbers}
use near_shield.Relayer.{SubmitRequest}

-- The options of a call.
pub record CallOptions : Type 0 where
  pub gas : Option ℕ
  pub attached_deposit : Option ℕ

pub record CallOutcome : Type 0 where
  pub logs : List Text
  pub transaction_hash : Text

-- Contract, method, arguments and options of a call; contract and method of a view.
pub record NearCaller : Type 0 where
  pub call : Text → Text → Fields → CallOptions → Result CallOutcome
  pub view : Text → Text → Result Json

abbrev pub or_default : ℕ → Option ℕ → ℕ
or_default d none = d
or_default d (some n) = n

-- `account.functionCall` of near-api-js and the parts of its outcome that are read.
pub record FunctionCall : Type 0 where
  pub contract_id : Text
  pub method_name : Text
  pub args : Fields
  pub gas : ℕ
  pub attached_deposit : ℕ

pub record FunctionOutcome : Type 0 where
  pub receipt_logs : List (List Text)
  pub transaction_id : Text

-- `flatMap((r) => r.outcome.logs)`
unfoldable pub flatten_logs : List (List Text) → List Text
flatten_logs [] = []
flatten_logs (logs ∷ more) = logs ++ flatten_logs more

unfoldable pub near_api_call :
    (FunctionCall → Result FunctionOutcome)
    → Text
    → Text
    → Fields
    → CallOptions
    → Result CallOutcome
near_api_call function_call contract_id method args opts = do
  outcome ← function_call (record {
    contract_id = contract_id;
    method_name = method;
    args = args;
    gas = or_default 100000000000000 opts.gas;
    attached_deposit = or_default 0 opts.attached_deposit;
  })
  ok (record {
    logs = flatten_logs outcome.receipt_logs;
    transaction_hash = outcome.transaction_id;
  })

-- `account.callRaw` of near-workspaces, which does not throw on a failed receipt.
pub record RawCall : Type 0 where
  pub contract_id : Text
  pub method : Text
  pub args : Fields
  pub gas : Text
  pub attached_deposit : Text

pub record RawOutcome : Type 0 where
  pub failed : Bool
  pub logs : List Text
  pub transaction_id : Text

unfoldable pub workspaces_call :
    (RawCall → Result RawOutcome) → Text → Text → Fields → CallOptions → Result CallOutcome
workspaces_call call_raw contract_id method args opts = do
  res ← call_raw (record {
    contract_id = contract_id;
    method = method;
    args = args;
    gas = to_text 10 (or_default 100000000000000 opts.gas);
    attached_deposit = to_text 10 (or_default 0 opts.attached_deposit);
  })
  throw_if res.failed transaction_failed
  ok (record { logs = res.logs; transaction_hash = res.transaction_id })

-- The arguments of the contract's `withdraw`.
unfoldable pub submit_args : SubmitRequest → Fields
submit_args req = field (codes "merkle_root") (str req.merkle_root) (
    field (codes "nullifier") (str req.nullifier) (
      field (codes "recipient") (str req.recipient) (
        field (codes "amount") (str req.amount) (
          field (codes "auditor_pubkey") (str req.auditor_pubkey) (
            field (codes "view_ct") (str req.view_ct) (
              field (codes "relayer") (str req.relayer) (
                field (codes "relayer_fee") (str req.relayer_fee)
                  (field (codes "proof") (arr (numbers req.proof)) end))))))))

-- `NearCallerSubmitter.submitWithdraw`
unfoldable pub submit_withdraw : NearCaller → Text → SubmitRequest → Result Text
submit_withdraw caller pool_id req = do
  outcome ←
      caller.call pool_id (codes "withdraw") (submit_args req)
        (record { gas = some 300000000000000; attached_deposit = some (10 ^ 24) })
  ok outcome.transaction_hash
