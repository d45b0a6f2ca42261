-- ===== src/Sdk/Transfer.antt =====
-- The transfer builders of sdk/packages/sdk/src/wallet.ts.
pub mod Conservation
pub mod Inputs
pub mod Delivery
use Prim.Native.String.{String}
use near_shield.Prelude.{
  ℕ, ◌-◌, ◌/◌, not, List, [], ◌∷◌, ◌++◌, length, replicate, take, some, ℤ, pos, ◌+ℤ◌, ◌-ℤ◌, ltb_ℤ,
  eqb_ℤ, Result, ok, ◌>>=◌, ◌>>◌, throw_if, amount_not_positive, no_transfer_inputs,
  missing_auditor_key, change_negative, value_not_conserved,
}
use near_shield.Js.Text.{Text, Bytes}
use near_shield.Js.Numerals.{bigint_text}
use near_shield.Core.Packages.{Packages}
use near_shield.Core.Field.{Field, zero_field, new_field, to_hex}
use near_shield.Core.Note.{Note, auditor_pubkey_to_field, commit_note, compute_nullifier}
use near_shield.Core.Encrypt.{seal_context_note, seal_context_view}
use near_shield.Core.Scanner.{DiscoveredNote, encode_note_payload}
use near_shield.Core.Disclosure.{ViewDisclosure, encode_disclosure, transfer}
use near_shield.Sdk.Prover.{Value, Prover}
use near_shield.Sdk.Prover.{text as text_value, texts as texts_value}
use near_shield.Sdk.Transaction.{BuiltTx, str, strs}
use near_shield.Sdk.Deposit.{SealRandom, seal, random_field, or_throw, view_ct_hash}
use near_shield.Sdk.Wallet.{Wallet, find_transfer_inputs}

-- `memo` is the text after `?? ""`.
pub record TransferRequest : Type 0 where
  pub amount : ℤ
  pub recipient_owner_pubkey : Field
  pub recipient_auditor_pubkey : Bytes
  pub recipient_viewing_pubkey : Bytes
  pub memo : Text

pub record TransferMerkleInputs : Type 0 where
  pub merkle_root : Text
  pub merkle_path0 : List Text
  pub merkle_path1 : List Text

pub record TransferRandom : Type 0 where
  pub recipient_blinding : Bytes
  pub change_blinding : Bytes
  pub view_sender : SealRandom
  pub view_recipient : SealRandom
  pub note_recipient : SealRandom
  pub note_change : SealRandom

-- The locals of a transfer builder.
pub record TransferParts : Type 0 where
  pub input0 : DiscoveredNote
  pub input1 : DiscoveredNote
  pub nullifier0 : Field
  pub nullifier1 : Field
  pub recipient_out : Note
  pub change_out : Note
  pub c_recipient : Field
  pub c_change : Field
  pub view_ct_sender : Bytes
  pub view_ct_recipient : Bytes
  pub note_ct_recipient : Bytes
  pub note_ct_change : Bytes

unfoldable pub assert_value_conserved : ℤ → ℤ → ℤ → Result (Unit {0})
assert_value_conserved recipient_amount change_amount input_total = do
  throw_if (ltb_ℤ change_amount (pos 0)) change_negative
  throw_if (not (eqb_ℤ (recipient_amount +ℤ change_amount) input_total)) value_not_conserved

unfoldable pub pad_path : List Text → List Text
pad_path p = take 20 (p ++ replicate (20 - length p) (to_hex zero_field))

module _ (k : Packages) (w : Wallet) where
  abbrev pub transfer_disclosure : TransferRequest → ℤ → ℕ → ViewDisclosure
  transfer_disclosure req change now = record {
    action = transfer;
    sender_owner_pubkey = to_hex w.owner_pubkey;
    recipient_owner_pubkey = to_hex req.recipient_owner_pubkey;
    amounts = bigint_text req.amount ∷ bigint_text change ∷ [];
    memo = req.memo;
    timestamp = now / 1000;
  }

  -- The two inputs, with the key of their auditor.
  unfoldable pub select_inputs : ℤ → Result (DiscoveredNote × DiscoveredNote × Bytes)
  select_inputs amount = do
    throw_if (not (ltb_ℤ (pos 0) amount)) amount_not_positive
    (input0, input1) ← or_throw no_transfer_inputs (find_transfer_inputs w amount)
    sender_key ← or_throw missing_auditor_key input0.auditor_pubkey_bytes
    ok (input0, input1, sender_key)

  -- The note for the recipient and the change.
  unfoldable pub transfer_outputs :
      TransferRequest → TransferRandom → DiscoveredNote → DiscoveredNote → Result (Note × Note)
  transfer_outputs req rnd input0 input1 = do
    let input_total = input0.note.amount +ℤ input1.note.amount
    recipient_auditor ← auditor_pubkey_to_field k req.recipient_auditor_pubkey
    recipient_blinding ← random_field rnd.recipient_blinding
    change_blinding ← random_field rnd.change_blinding
    let recipient_out : Note = record {
      amount = req.amount;
      owner_pubkey = req.recipient_owner_pubkey;
      auditor_pubkey = recipient_auditor;
      blinding = recipient_blinding;
    }
    let change_out : Note = record {
      amount = input_total -ℤ req.amount;
      owner_pubkey = w.owner_pubkey;
      auditor_pubkey = input0.note.auditor_pubkey;
      blinding = change_blinding;
    }
    assert_value_conserved recipient_out.amount change_out.amount input_total
    ok (recipient_out, change_out)

  -- The lines that both builders begin with, from the check of the amount to the sealed notes.
  unfoldable pub prepare_transfer : TransferRequest → TransferRandom → ℕ → Result TransferParts
  prepare_transfer req rnd now = do
    (input0, input1, sender_key) ← select_inputs req.amount
    (recipient_out, change_out) ← transfer_outputs req rnd input0 input1
    let disclosure = encode_disclosure (transfer_disclosure req change_out.amount now)
    view_ct_sender ← seal k rnd.view_sender sender_key disclosure seal_context_view
    view_ct_recipient ←
        seal k rnd.view_recipient req.recipient_auditor_pubkey disclosure seal_context_view
    note_ct_recipient ←
        seal k rnd.note_recipient req.recipient_viewing_pubkey
          (encode_note_payload recipient_out (some req.recipient_auditor_pubkey)) seal_context_note
    note_ct_change ←
        seal k rnd.note_change w.viewing_key.public_key
          (encode_note_payload change_out (some sender_key)) seal_context_note
    ok (record {
      input0 = input0;
      input1 = input1;
      nullifier0 = compute_nullifier k w.spending_key input0.commitment input0.leaf_index;
      nullifier1 = compute_nullifier k w.spending_key input1.commitment input1.leaf_index;
      recipient_out = recipient_out;
      change_out = change_out;
      c_recipient = commit_note k recipient_out;
      c_change = commit_note k change_out;
      view_ct_sender = view_ct_sender;
      view_ct_recipient = view_ct_recipient;
      note_ct_recipient = note_ct_recipient;
      note_ct_change = note_ct_change;
    })

  unfoldable pub transfer_tx : TransferParts → Text → Bytes → BuiltTx
  transfer_tx t merkle_root proof = record {
    method = transfer;
    public_inputs =
        ("merkleRoot", str merkle_root)
        ∷ ("nullifiers", strs (to_hex t.nullifier0 ∷ to_hex t.nullifier1 ∷ []))
        ∷ ("commitments", strs (to_hex t.c_recipient ∷ to_hex t.c_change ∷ []))
        ∷ ("auditorPubkey", str (to_hex t.change_out.auditor_pubkey))
        ∷ ("recipientAuditorPubkey", str (to_hex t.recipient_out.auditor_pubkey))
        ∷ (
          "amounts",
          strs (bigint_text t.recipient_out.amount ∷ bigint_text t.change_out.amount ∷ []),
        )
        ∷ [];
    proof = proof;
    view_ciphertexts = t.view_ct_sender ∷ t.view_ct_recipient ∷ [];
    note_ciphertexts = t.note_ct_recipient ∷ t.note_ct_change ∷ [];
  }

  unfoldable pub build_transfer : TransferRequest → TransferRandom → ℕ → Result BuiltTx
  build_transfer req rnd now = do t ← prepare_transfer req rnd now; ok (transfer_tx t [] (0 ∷ []))

  unfoldable pub transfer_inputs : TransferParts → TransferMerkleInputs → List Text
  transfer_inputs t m =
      m.merkle_root
      ∷ to_hex t.nullifier0
      ∷ to_hex t.nullifier1
      ∷ to_hex t.c_recipient
      ∷ to_hex t.c_change
      ∷ to_hex t.change_out.auditor_pubkey
      ∷ to_hex t.recipient_out.auditor_pubkey
      ∷ view_ct_hash k t.view_ct_sender
      ∷ view_ct_hash k t.view_ct_recipient
      ∷ []

  unfoldable pub transfer_witness : TransferParts → TransferMerkleInputs → List (String × Value)
  transfer_witness t m =
      ("in0Amount", text_value (to_hex (new_field t.input0.note.amount)))
      ∷ ("in0OwnerPubkey", text_value (to_hex t.input0.note.owner_pubkey))
      ∷ ("in0Blinding", text_value (to_hex t.input0.note.blinding))
      ∷ ("in0LeafIndex", text_value (to_hex (new_field (pos t.input0.leaf_index))))
      ∷ ("in0Path", texts_value (pad_path m.merkle_path0))
      ∷ ("in1Amount", text_value (to_hex (new_field t.input1.note.amount)))
      ∷ ("in1OwnerPubkey", text_value (to_hex t.input1.note.owner_pubkey))
      ∷ ("in1Blinding", text_value (to_hex t.input1.note.blinding))
      ∷ ("in1LeafIndex", text_value (to_hex (new_field (pos t.input1.leaf_index))))
      ∷ ("in1Path", texts_value (pad_path m.merkle_path1))
      ∷ ("spendingKey", text_value (to_hex w.spending_key))
      ∷ ("out0Amount", text_value (to_hex (new_field t.recipient_out.amount)))
      ∷ ("out0OwnerPubkey", text_value (to_hex t.recipient_out.owner_pubkey))
      ∷ ("out0Blinding", text_value (to_hex t.recipient_out.blinding))
      ∷ ("out1Amount", text_value (to_hex (new_field t.change_out.amount)))
      ∷ ("out1OwnerPubkey", text_value (to_hex t.change_out.owner_pubkey))
      ∷ ("out1Blinding", text_value (to_hex t.change_out.blinding))
      ∷ ("viewCtHashSenderWitness", text_value (view_ct_hash k t.view_ct_sender))
      ∷ ("viewCtHashRecipientWitness", text_value (view_ct_hash k t.view_ct_recipient))
      ∷ []

  unfoldable pub build_transfer_proved :
      TransferRequest → TransferRandom → ℕ → Prover → TransferMerkleInputs → Result BuiltTx
  build_transfer_proved req rnd now prover m = do
    t ← prepare_transfer req rnd now
    proof ← prover (record {
      circuit = transfer;
      public_inputs = transfer_inputs t m;
      witness = transfer_witness t m;
    })
    ok (transfer_tx t m.merkle_root proof)
