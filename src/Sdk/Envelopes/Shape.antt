-- ===== src/Sdk/Envelopes/Shape.antt =====
-- The calls that carry the wallet's transactions, and what a verifier reads from them.
use near_shield.Prelude.{
  ℕ, ◌≡◌, ◌≢◌, refl, false, List, [], ◌∷◌, pos, Result, ok, err, ◌>>=◌, wrong_method,
}
use near_shield.Js.Text.{Text, Bytes}
use near_shield.Js.BigInt.{to_bigint}
use near_shield.Js.Numerals.{to_bigint-bigint_text}
use near_shield.Core.Packages.{Packages}
use near_shield.Core.Field.{new_field, to_hex}
use near_shield.Core.HashBytes.{keccak_to_field}
use near_shield.Core.Encrypt.Utf8.{utf8}
use near_shield.Core.Disclosure.{Action, deposit, transfer, withdraw}
use near_shield.Sdk.Transaction.{BuiltTx}
use near_shield.Sdk.Wallet.{Wallet}
use near_shield.Sdk.Deposit.{DepositParts, deposit_tx, deposit_inputs, view_ct_hash}
use near_shield.Sdk.Transfer.{TransferParts, TransferMerkleInputs, transfer_tx, transfer_inputs}
use near_shield.Sdk.Withdraw.{
  WithdrawRequest, WithdrawParts, field_from_account_id, withdraw_tx, withdraw_inputs,
}
use near_shield.Sdk.Envelopes.{
  DepositArgs, TransferArgs, WithdrawArgs, same_method, expect_method, input_at, as_string,
  as_string_pair, ciphertext_at, to_deposit_args, to_transfer_args, to_withdraw_args,
  to_ft_transfer_call_args, to_transfer_call, to_withdraw_call,
}

-- The hash of a text that crosses the JSON boundary, over its own bytes.
abbrev pub text_hash : Packages → Text → Text
text_hash k s = to_hex (keccak_to_field k (utf8 s))

-- The public inputs that the arguments alone determine, in the order of the circuits.
abbrev pub deposit_args_inputs : Packages → DepositArgs → Result (List Text)
deposit_args_inputs k a = do
  amount ← to_bigint a.amount
  ok (a.commitment ∷ to_hex (new_field amount) ∷ a.auditor_pubkey ∷ text_hash k a.view_ct ∷ [])

abbrev pub transfer_args_inputs : Packages → TransferArgs → List Text
transfer_args_inputs k a =
    a.merkle_root
    ∷ a.nullifiers.0
    ∷ a.nullifiers.1
    ∷ a.commitments.0
    ∷ a.commitments.1
    ∷ a.auditor_pubkey
    ∷ a.recipient_auditor_pubkey
    ∷ text_hash k a.view_cts.0
    ∷ text_hash k a.view_cts.1
    ∷ []

abbrev pub withdraw_args_inputs : Packages → WithdrawArgs → Result (List Text)
withdraw_args_inputs k a = do
  amount ← to_bigint a.amount
  relayer_fee ← to_bigint a.relayer_fee
  ok (
      a.merkle_root
      ∷ a.nullifier
      ∷ to_hex (field_from_account_id k a.recipient)
      ∷ to_hex (new_field amount)
      ∷ to_hex (field_from_account_id k a.relayer)
      ∷ to_hex (new_field relayer_fee)
      ∷ a.auditor_pubkey
      ∷ text_hash k a.view_ct
      ∷ [])

module _ (k : Packages) (w : Wallet) where
  -- A deposit of the wallet with a non-negative amount becomes arguments that carry its proof, and
  -- from which the public inputs of the proof can be computed again.
  pub to_deposit_args-deposit_tx :
      (d : DepositParts) (n : ℕ) (proof : Bytes)
      → d.note.amount ≡ pos n
      → (a : DepositArgs) × (to_deposit_args (deposit_tx k w d proof) ≡ ok a)
        × (a.proof ≡ proof)
        × (deposit_args_inputs k a ≡ ok (deposit_inputs k w d))
  unfolding to_deposit_args deposit_tx deposit_inputs expect_method input_at as_string ciphertext_at
      view_ct_hash
  to_deposit_args-deposit_tx d n proof h = (_, refl, refl, rw (h, to_bigint-bigint_text n) refl)

  -- A transfer of the wallet becomes arguments that carry its proof, and from which the public
  -- inputs of the proof can be computed again.
  pub to_transfer_args-transfer_tx :
      (t : TransferParts) (m : TransferMerkleInputs) (proof : Bytes)
      → (a : TransferArgs) × (to_transfer_args (transfer_tx k w t m.merkle_root proof) ≡ ok a)
        × (a.proof ≡ proof)
        × (transfer_args_inputs k a ≡ transfer_inputs k w t m)
  unfolding to_transfer_args transfer_tx transfer_inputs expect_method input_at as_string
      as_string_pair ciphertext_at view_ct_hash
  to_transfer_args-transfer_tx t m proof = (_, refl, refl, refl)

  -- A withdrawal of the wallet with non-negative amounts becomes arguments that carry its proof, and
  -- from which the public inputs of the proof can be computed again.
  pub to_withdraw_args-withdraw_tx :
      (req : WithdrawRequest) (p : WithdrawParts) (n m : ℕ) (merkle_root : Text) (proof : Bytes)
      → req.amount ≡ pos n
      → req.relayer_fee ≡ pos m
      → (a : WithdrawArgs) × (to_withdraw_args (withdraw_tx k w req p merkle_root proof) ≡ ok a)
        × (a.proof ≡ proof)
        × (withdraw_args_inputs k a ≡ ok (withdraw_inputs k w req p merkle_root))
  unfolding to_withdraw_args withdraw_tx withdraw_inputs expect_method input_at as_string
      ciphertext_at view_ct_hash
  to_withdraw_args-withdraw_tx req p n m merkle_root proof h g =
      (_, refl, refl, rw (h, g, to_bigint-bigint_text n, to_bigint-bigint_text m) refl)

differ-same_method : (a b : Action) → a ≢ b → same_method a b ≡ false
differ-same_method deposit deposit h = absurd (h refl)
differ-same_method deposit transfer h = refl
differ-same_method deposit withdraw h = refl
differ-same_method transfer deposit h = refl
differ-same_method transfer transfer h = absurd (h refl)
differ-same_method transfer withdraw h = refl
differ-same_method withdraw deposit h = refl
differ-same_method withdraw transfer h = refl
differ-same_method withdraw withdraw h = absurd (h refl)

expect_method-err :
    (tx : BuiltTx) (expected : Action)
    → tx.method ≢ expected
    → expect_method tx expected ≡ err wrong_method
unfolding expect_method
expect_method-err tx expected h = rw (differ-same_method tx.method expected h) refl

-- Each conversion, and the calls around it, refuse a transaction of another method.
pub wrong_method_lem :
    (tx : BuiltTx) (usdc pool : Text)
    → (tx.method ≢ deposit
        → (to_deposit_args tx ≡ err wrong_method)
          × (to_ft_transfer_call_args tx usdc pool ≡ err wrong_method))
      × (tx.method ≢ transfer
          → (to_transfer_args tx ≡ err wrong_method)
            × (to_transfer_call tx pool ≡ err wrong_method))
      × (tx.method ≢ withdraw
          → (to_withdraw_args tx ≡ err wrong_method)
            × (to_withdraw_call tx pool ≡ err wrong_method))
unfolding to_deposit_args to_ft_transfer_call_args to_transfer_args to_transfer_call
    to_withdraw_args to_withdraw_call
wrong_method_lem tx usdc pool = (
  λ h. (rw (expect_method-err tx deposit h) refl, rw (expect_method-err tx deposit h) refl),
  λ h. (rw (expect_method-err tx transfer h) refl, rw (expect_method-err tx transfer h) refl),
  λ h. (rw (expect_method-err tx withdraw h) refl, rw (expect_method-err tx withdraw h) refl),
)
