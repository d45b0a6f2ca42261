-- ===== src/Sdk/Envelopes.antt =====
-- sdk/packages/sdk/src/envelopes.ts: the arguments of the pool's methods, and the calls around them.
pub mod Shape
use Prim.Native.String.{String}
use package.text.Mathlib.Text.{◌==◌ as str_eq}
use near_shield.Prelude.{
  ℕ, zero, suc, Bool, true, false, not, List, [], ◌∷◌, Option, none, some, get_elem?, Result, ok,
  err, ◌>>=◌, ◌>>◌, throw_if, if◌then◌else◌, wrong_method, bad_public_input, type_error,
}
use near_shield.Js.Text.{Text, Bytes, codes, to_text}
use near_shield.Js.Json.{
  Fields, null, str as str_json, arr, obj, end, field, texts, numbers, stringify,
}
use near_shield.Core.Disclosure.{Action, deposit, transfer, withdraw}
use near_shield.Sdk.Transaction.{BuiltTx, PublicInput, str, strs, num, encode_ciphertext}

pub record DepositArgs : Type 0 where
  pub commitment : Text
  pub amount : Text
  pub auditor_pubkey : Text
  pub view_ct : Text
  pub note_ct : Text
  pub proof : Bytes

pub record TransferArgs : Type 0 where
  pub merkle_root : Text
  pub nullifiers : Text × Text
  pub commitments : Text × Text
  pub auditor_pubkey : Text
  pub recipient_auditor_pubkey : Text
  pub view_cts : Text × Text
  pub note_cts : Text × Text
  pub proof : Bytes

pub record WithdrawArgs : Type 0 where
  pub merkle_root : Text
  pub nullifier : Text
  pub recipient : Text
  pub amount : Text
  pub auditor_pubkey : Text
  pub view_ct : Text
  pub relayer : Text
  pub relayer_fee : Text
  pub proof : Bytes

-- The object `args` is kept as its properties in order.
pub record NearFunctionCall : Type 0 where
  pub contract_id : Text
  pub method_name : Text
  pub args : Fields
  pub attached_deposit : Text
  pub gas : Text

abbrev pub three_hundred_tgas : Text
three_hundred_tgas = codes "300000000000000"

abbrev pub one_near_yocto : Text
one_near_yocto = codes "1000000000000000000000000"

abbrev pub same_method : Action → Action → Bool
same_method deposit deposit = true
same_method transfer transfer = true
same_method withdraw withdraw = true
same_method a b = false

unfoldable pub expect_method : BuiltTx → Action → Result (Unit {0})
expect_method tx expected = throw_if (not (same_method tx.method expected)) wrong_method

-- `publicInputs[key]`
unfoldable pub input_at : String → List (String × PublicInput) → Option PublicInput
input_at key [] = none
input_at key ((name, v) ∷ rest) = if str_eq name key then some v else input_at key rest

unfoldable pub as_string : Option PublicInput → Result Text
as_string (some (str s)) = ok s
as_string v = err bad_public_input

unfoldable pub as_string_pair : Option PublicInput → Result (Text × Text)
as_string_pair (some (strs (a ∷ b ∷ []))) = ok (a, b)
as_string_pair v = err bad_public_input

abbrev pub pick_string : List (String × PublicInput) → String → Result Text
pick_string pi key = as_string (input_at key pi)

abbrev pub pick_string_pair : List (String × PublicInput) → String → Result (Text × Text)
pick_string_pair pi key = as_string_pair (input_at key pi)

-- `encodeCiphertext(cts[i])`: `Array.from(undefined)` throws a TypeError.
unfoldable pub ciphertext_at : List Bytes → ℕ → Result Text
ciphertext_at [] i = err type_error
ciphertext_at (b ∷ cts) zero = ok (encode_ciphertext b)
ciphertext_at (b ∷ cts) (suc i) = ciphertext_at cts i

unfoldable pub to_deposit_args : BuiltTx → Result DepositArgs
to_deposit_args tx = do
  expect_method tx deposit
  commitment ← pick_string tx.public_inputs "commitment"
  amount ← pick_string tx.public_inputs "amount"
  auditor_pubkey ← pick_string tx.public_inputs "auditorPubkey"
  view_ct ← ciphertext_at tx.view_ciphertexts 0
  note_ct ← ciphertext_at tx.note_ciphertexts 0
  ok (record {
    commitment = commitment;
    amount = amount;
    auditor_pubkey = auditor_pubkey;
    view_ct = view_ct;
    note_ct = note_ct;
    proof = tx.proof;
  })

-- The properties of the argument objects, in the order in which the source writes them.
abbrev pub deposit_fields : DepositArgs → Fields
deposit_fields a = field (codes "commitment") (str_json a.commitment) (
    field (codes "amount") (str_json a.amount) (
      field (codes "auditor_pubkey") (str_json a.auditor_pubkey) (
        field (codes "view_ct") (str_json a.view_ct) (
          field (codes "note_ct") (str_json a.note_ct)
            (field (codes "proof") (arr (numbers a.proof)) end)))))

unfoldable pub to_ft_transfer_call_args : BuiltTx → Text → Text → Result NearFunctionCall
to_ft_transfer_call_args tx usdc_account_id pool_account_id = do
  expect_method tx deposit
  deposit_args ← to_deposit_args tx
  ok (record {
    contract_id = usdc_account_id;
    method_name = codes "ft_transfer_call";
    args = field (codes "receiver_id") (str_json pool_account_id) (
        field (codes "amount") (str_json deposit_args.amount) (
          field (codes "memo") null
            (field (codes "msg") (str_json (stringify (obj (deposit_fields deposit_args)))) end)));
    attached_deposit = codes "1";
    gas = three_hundred_tgas;
  })

unfoldable pub to_transfer_args : BuiltTx → Result TransferArgs
to_transfer_args tx = do
  expect_method tx transfer
  nullifiers ← pick_string_pair tx.public_inputs "nullifiers"
  commitments ← pick_string_pair tx.public_inputs "commitments"
  merkle_root ← pick_string tx.public_inputs "merkleRoot"
  auditor_pubkey ← pick_string tx.public_inputs "auditorPubkey"
  recipient_auditor_pubkey ← pick_string tx.public_inputs "recipientAuditorPubkey"
  view_ct0 ← ciphertext_at tx.view_ciphertexts 0
  view_ct1 ← ciphertext_at tx.view_ciphertexts 1
  note_ct0 ← ciphertext_at tx.note_ciphertexts 0
  note_ct1 ← ciphertext_at tx.note_ciphertexts 1
  ok (record {
    merkle_root = merkle_root;
    nullifiers = nullifiers;
    commitments = commitments;
    auditor_pubkey = auditor_pubkey;
    recipient_auditor_pubkey = recipient_auditor_pubkey;
    view_cts = (view_ct0, view_ct1);
    note_cts = (note_ct0, note_ct1);
    proof = tx.proof;
  })

unfoldable pub to_withdraw_args : BuiltTx → Result WithdrawArgs
to_withdraw_args tx = do
  expect_method tx withdraw
  merkle_root ← pick_string tx.public_inputs "merkleRoot"
  nullifier ← pick_string tx.public_inputs "nullifier"
  recipient ← pick_string tx.public_inputs "recipient"
  amount ← pick_string tx.public_inputs "amount"
  auditor_pubkey ← pick_string tx.public_inputs "auditorPubkey"
  view_ct ← ciphertext_at tx.view_ciphertexts 0
  relayer ← pick_string tx.public_inputs "relayer"
  relayer_fee ← pick_string tx.public_inputs "relayerFee"
  ok (record {
    merkle_root = merkle_root;
    nullifier = nullifier;
    recipient = recipient;
    amount = amount;
    auditor_pubkey = auditor_pubkey;
    view_ct = view_ct;
    relayer = relayer;
    relayer_fee = relayer_fee;
    proof = tx.proof;
  })

abbrev pub pair_fields : Text × Text → List Text
pair_fields (a, b) = a ∷ b ∷ []

abbrev pub transfer_fields : TransferArgs → Fields
transfer_fields a = field (codes "merkle_root") (str_json a.merkle_root) (
    field (codes "nullifiers") (arr (texts (pair_fields a.nullifiers))) (
      field (codes "commitments") (arr (texts (pair_fields a.commitments))) (
        field (codes "auditor_pubkey") (str_json a.auditor_pubkey) (
          field (codes "recipient_auditor_pubkey") (str_json a.recipient_auditor_pubkey) (
            field (codes "view_cts") (arr (texts (pair_fields a.view_cts))) (
              field (codes "note_cts") (arr (texts (pair_fields a.note_cts)))
                (field (codes "proof") (arr (numbers a.proof)) end)))))))

abbrev pub withdraw_fields : WithdrawArgs → Fields
withdraw_fields a = field (codes "merkle_root") (str_json a.merkle_root) (
    field (codes "nullifier") (str_json a.nullifier) (
      field (codes "recipient") (str_json a.recipient) (
        field (codes "amount") (str_json a.amount) (
          field (codes "auditor_pubkey") (str_json a.auditor_pubkey) (
            field (codes "view_ct") (str_json a.view_ct) (
              field (codes "relayer") (str_json a.relayer) (
                field (codes "relayer_fee") (str_json a.relayer_fee)
                  (field (codes "proof") (arr (numbers a.proof)) end))))))))

unfoldable pub to_transfer_call : BuiltTx → Text → Result NearFunctionCall
to_transfer_call tx pool_account_id = do
  args ← to_transfer_args tx
  ok (record {
    contract_id = pool_account_id;
    method_name = codes "transfer";
    args = transfer_fields args;
    attached_deposit = one_near_yocto;
    gas = three_hundred_tgas;
  })

unfoldable pub to_withdraw_call : BuiltTx → Text → Result NearFunctionCall
to_withdraw_call tx pool_account_id = do
  args ← to_withdraw_args tx
  ok (record {
    contract_id = pool_account_id;
    method_name = codes "withdraw";
    args = withdraw_fields args;
    attached_deposit = one_near_yocto;
    gas = three_hundred_tgas;
  })
