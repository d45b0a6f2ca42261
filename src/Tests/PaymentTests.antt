-- ===== src/Tests/PaymentTests.antt =====
-- Withdrawals, calls and encodings of the SDK, at concrete inputs.
use Prim.Native.String.{String}
use near_shield.Prelude.{◌≡◌, refl, [], ◌∷◌, List, length, replicate, list_eq, some, All, pos, ok}
use near_shield.Js.Text.{to_text, digits, digit, starts_with, Text, Bytes, codes, subarray}
use near_shield.Js.BigInt.{
  is_space, trim_start, trim_end, digit_value, parse_digits, parse_nat, after_zero, integer_literal,
  to_bigint,
}
use near_shield.Core.Field.{le_value}
use near_shield.Core.Encrypt.{seal_to}
use near_shield.Core.Disclosure.{deposit, withdraw}
use near_shield.Sdk.Groth16.{
  G1, G2, SnarkjsProof, encode_g1, encode_g2, finite_g1, finite_g2, dec_to_le, bytes_le,
  snarkjs_proof_to_bytes,
}
use near_shield.Sdk.Groth16.Layout
use near_shield.Sdk.Groth16.Slots
use near_shield.Sdk.Groth16.Points.{G1Bytes, G2Bytes}
use near_shield.Js.Numerals.{bigint_text}
use near_shield.Sdk.Prover.Input
use near_shield.Sdk.Prover.{
  Value, text, ProveRequest, public_names, rename, to_field, conv, assign, lookup, assign_public,
  assign_witness, prove_request_to_circom_input, stub_prover,
}
use near_shield.Sdk.Wallet.{has, find_note}
use near_shield.Sdk.Transaction.{BuiltTx}
use near_shield.Sdk.Deposit.{DepositParts, deposit_tx, deposit_inputs}
use near_shield.Sdk.Transfer.{TransferMerkleInputs, transfer_tx, transfer_inputs}
use near_shield.Sdk.Withdraw.{
  WithdrawRequest, WithdrawParts, require_path, require_root, prepare_withdraw, withdraw_tx,
  withdraw_inputs, build_withdraw_proved,
}
use near_shield.Sdk.Withdraw.Guards
use near_shield.Sdk.Withdraw.Guards.{IsWithdrawal}
use near_shield.Sdk.Envelopes.{
  DepositArgs, TransferArgs, WithdrawArgs, to_deposit_args, to_transfer_args, to_withdraw_args,
}
use near_shield.Sdk.Envelopes.Shape
use near_shield.Sdk.Envelopes.Shape.{
  deposit_args_inputs, transfer_args_inputs, withdraw_args_inputs,
}
use near_shield.Core.Field.Wire.{IsByte}
use near_shield.Tests.Packages.{toy}
use near_shield.Tests.SdkTests.{value_or, f, note_of, found, wallet, sealing, transfer_parts}

abbrev twenty : List Text
twenty = replicate 20 (codes "0x00")

abbrev take_out : WithdrawRequest
take_out = record {
  amount = pos 30;
  recipient_near_account = codes "bob.near";
  relayer = codes "relay.near";
  relayer_fee = pos 5;
  merkle_path = some twenty;
  merkle_root = some (codes "0x01");
}

abbrev no_tx : BuiltTx
no_tx = record {
  method = withdraw;
  public_inputs = [];
  proof = [];
  view_ciphertexts = [];
  note_ciphertexts = [];
}

abbrev withdrawal : BuiltTx
withdrawal = value_or no_tx (build_withdraw_proved toy wallet take_out sealing 0 stub_prover)

withdrawn : build_withdraw_proved toy wallet take_out sealing 0 stub_prover ≡ ok withdrawal
unfolding build_withdraw_proved prepare_withdraw require_path require_root find_note has seal_to
withdrawn = refl

build_withdraw_proved-IsWithdrawal_example : IsWithdrawal toy wallet take_out stub_prover withdrawal
build_withdraw_proved-IsWithdrawal_example =
    Guards.build_withdraw_proved-IsWithdrawal toy wallet take_out sealing 0 stub_prover withdrawn

abbrev deposit_parts : DepositParts
deposit_parts = record {
  note = note_of 12;
  commitment = f 3;
  view_ct = 1 ∷ 2 ∷ [];
  note_ct = 3 ∷ [];
}

to_deposit_args-deposit_tx_example :
    (a : DepositArgs) × (to_deposit_args (deposit_tx toy wallet deposit_parts (1 ∷ [])) ≡ ok a)
    × (a.proof ≡ 1 ∷ [])
    × (deposit_args_inputs toy a ≡ ok (deposit_inputs toy wallet deposit_parts))
to_deposit_args-deposit_tx_example =
    Shape.to_deposit_args-deposit_tx toy wallet deposit_parts 12 (1 ∷ []) refl

abbrev merkle : TransferMerkleInputs
merkle = record { merkle_root = codes "0x01"; merkle_path0 = twenty; merkle_path1 = twenty }

to_transfer_args-transfer_tx_example :
    (a : TransferArgs) × (to_transfer_args
        (transfer_tx toy wallet transfer_parts merkle.merkle_root (1 ∷ []))
      ≡ ok a)
    × (a.proof ≡ 1 ∷ [])
    × (transfer_args_inputs toy a ≡ transfer_inputs toy wallet transfer_parts merkle)
to_transfer_args-transfer_tx_example =
    Shape.to_transfer_args-transfer_tx toy wallet transfer_parts merkle (1 ∷ [])

abbrev withdraw_parts : WithdrawParts
withdraw_parts = record { note = found 1 30; nullifier = f 77; view_ct = 1 ∷ 2 ∷ [] }

to_withdraw_args-withdraw_tx_example :
    (a : WithdrawArgs) × (to_withdraw_args
        (withdraw_tx toy wallet take_out withdraw_parts (codes "0x01") (1 ∷ []))
      ≡ ok a)
    × (a.proof ≡ 1 ∷ [])
    × (withdraw_args_inputs toy a
        ≡ ok (withdraw_inputs toy wallet take_out withdraw_parts (codes "0x01")))
to_withdraw_args-withdraw_tx_example =
    Shape.to_withdraw_args-withdraw_tx toy wallet take_out withdraw_parts 30 5 (codes "0x01")
      (1 ∷ []) refl refl

abbrev g1 : G1
g1 = record { x = codes "1"; y = codes "2"; z = codes "1" }

abbrev g2 : G2
g2 = record {
  x0 = codes "3";
  x1 = codes "4";
  y0 = codes "5";
  y1 = codes "6";
  z0 = codes "1";
  z1 = codes "0";
}

abbrev proof : SnarkjsProof
proof = record { pi_a = g1; pi_b = g2; pi_c = g1 }

abbrev proof_bytes : Bytes
proof_bytes = value_or [] (snarkjs_proof_to_bytes proof)

proof_encoded : snarkjs_proof_to_bytes proof ≡ ok proof_bytes
unfolding snarkjs_proof_to_bytes encode_g1 encode_g2 finite_g1 finite_g2 dec_to_le bytes_le
    to_bigint integer_literal after_zero parse_nat parse_digits digit_value trim_start trim_end
    is_space list_eq
proof_encoded = refl

snarkjs_proof_to_bytes_layout_example :
    (length proof_bytes ≡ 256)
    × G1Bytes g1 (subarray proof_bytes 0 64)
    × G2Bytes g2 (subarray proof_bytes 64 192)
    × G1Bytes g1 (subarray proof_bytes 192 256)
snarkjs_proof_to_bytes_layout_example = Slots.snarkjs_proof_to_bytes_layout proof proof_encoded

abbrev six : Bytes
six = value_or [] (dec_to_le (codes "6"))

six_encoded : dec_to_le (codes "6") ≡ ok six
unfolding dec_to_le bytes_le to_bigint integer_literal after_zero parse_nat parse_digits digit_value
    trim_start trim_end is_space
six_encoded = refl

dec_to_le-value_example :
    (to_bigint (codes "6") ≡ ok (pos (le_value six))) × (length six ≡ 32) × All IsByte six
dec_to_le-value_example = Layout.dec_to_le-value (codes "6") six_encoded

abbrev request : ProveRequest
request = record {
  circuit = deposit;
  public_inputs = codes "0x0a" ∷ codes "0x0b" ∷ codes "0x0c" ∷ codes "0x0d" ∷ [];
  witness = ("blinding", text (codes "0x10")) ∷ [];
}

abbrev circuit_input : List (String × Value)
circuit_input = value_or [] (prove_request_to_circom_input request)

mapped : prove_request_to_circom_input request ≡ ok circuit_input
unfolding prove_request_to_circom_input assign_public assign_witness assign rename conv to_field
    to_bigint integer_literal after_zero parse_nat parse_digits digit_value trim_start trim_end
    is_space starts_with bigint_text to_text digits digit
mapped = refl

prove_request_to_circom_input-public_example :
    (length request.public_inputs ≡ length (public_names deposit))
    × ((w : Value) × (conv (text (codes "0x0b")) ≡ ok w) × (lookup "amount" circuit_input ≡ some w))
unfolding rename
prove_request_to_circom_input-public_example =
    Input.prove_request_to_circom_input-public request 1 "amount" (codes "0x0b") mapped refl refl
      refl
