-- ===== src/Sdk/Withdraw.antt =====
-- The withdrawal builders of sdk/packages/sdk/src/wallet.ts.
pub mod Guards
use Prim.Native.String.{String}
use near_shield.Prelude.{
  ℕ, ◌/◌, ◌==◌, not, List, [], ◌∷◌, length, Option, none, some, ℤ, pos, ltb_ℤ, Result, ok, err,
  ◌>>=◌, ◌>>◌, throw_if, if◌then◌else◌, fee_exceeds_amount, no_withdraw_note, missing_auditor_key,
  merkle_path_length, no_merkle_root,
}
use near_shield.Js.Text.{Text, Bytes}
use near_shield.Js.Numerals.{bigint_text}
use near_shield.Core.Packages.{Packages}
use near_shield.Core.Field.{Field, new_field, to_hex}
use near_shield.Core.HashBytes.{hash_bytes_to_field}
use near_shield.Core.Note.{Note, compute_nullifier}
use near_shield.Core.Encrypt.{seal_context_view}
use near_shield.Core.Encrypt.Utf8.{utf8}
use near_shield.Core.Scanner.{DiscoveredNote}
use near_shield.Core.Disclosure.{ViewDisclosure, encode_disclosure, withdraw}
use near_shield.Sdk.Prover.{Value, Prover}
use near_shield.Sdk.Prover.{text as text_value, texts as texts_value}
use near_shield.Sdk.Transaction.{BuiltTx, str}
use near_shield.Sdk.Deposit.{SealRandom, seal, or_throw, view_ct_hash}
use near_shield.Sdk.Wallet.{Wallet, find_note}

pub record WithdrawRequest : Type 0 where
  pub amount : ℤ
  pub recipient_near_account : Text
  pub relayer : Text
  pub relayer_fee : ℤ
  pub merkle_path : Option (List Text)
  pub merkle_root : Option Text

-- The locals of a withdrawal builder.
pub record WithdrawParts : Type 0 where
  pub note : DiscoveredNote
  pub nullifier : Field
  pub view_ct : Bytes

unfoldable pub field_from_account_id : Packages → Text → Field
field_from_account_id k account_id = hash_bytes_to_field k (utf8 account_id)

-- `!req.merklePath || req.merklePath.length !== 20`
unfoldable pub require_path : Option (List Text) → Result (List Text)
require_path none = err merkle_path_length
require_path (some path) = if length path == 20 then ok path else err merkle_path_length

-- `!req.merkleRoot`: the empty text is falsy as well.
unfoldable pub require_root : Option Text → Result Text
require_root none = err no_merkle_root
require_root (some []) = err no_merkle_root
require_root (some (c ∷ root)) = ok (c ∷ root)

module _ (k : Packages) (w : Wallet) where
  abbrev pub withdraw_disclosure : WithdrawRequest → ℕ → ViewDisclosure
  withdraw_disclosure req now = record {
    action = withdraw;
    sender_owner_pubkey = to_hex w.owner_pubkey;
    recipient_owner_pubkey = req.recipient_near_account;
    amounts = bigint_text req.amount ∷ bigint_text req.relayer_fee ∷ [];
    memo = [];
    timestamp = now / 1000;
  }

  -- From the search for the note to the sealed disclosure.
  unfoldable pub prepare_withdraw : WithdrawRequest → SealRandom → ℕ → Result WithdrawParts
  prepare_withdraw req rnd now = do
    note ← or_throw no_withdraw_note (find_note w.spent req.amount w.notes)
    auditor_key ← or_throw missing_auditor_key note.auditor_pubkey_bytes
    view_ct ←
        seal k rnd auditor_key (encode_disclosure (withdraw_disclosure req now)) seal_context_view
    ok (record {
      note = note;
      nullifier = compute_nullifier k w.spending_key note.commitment note.leaf_index;
      view_ct = view_ct;
    })

  unfoldable pub withdraw_tx : WithdrawRequest → WithdrawParts → Text → Bytes → BuiltTx
  withdraw_tx req p merkle_root proof = record {
    method = withdraw;
    public_inputs =
        ("merkleRoot", str merkle_root)
        ∷ ("nullifier", str (to_hex p.nullifier))
        ∷ ("recipient", str req.recipient_near_account)
        ∷ ("amount", str (bigint_text req.amount))
        ∷ ("relayer", str req.relayer)
        ∷ ("relayerFee", str (bigint_text req.relayer_fee))
        ∷ ("auditorPubkey", str (to_hex p.note.note.auditor_pubkey))
        ∷ [];
    proof = proof;
    view_ciphertexts = p.view_ct ∷ [];
    note_ciphertexts = [];
  }

  unfoldable pub build_withdraw : WithdrawRequest → SealRandom → ℕ → Result BuiltTx
  build_withdraw req rnd now = do
    throw_if (ltb_ℤ req.amount req.relayer_fee) fee_exceeds_amount
    p ← prepare_withdraw req rnd now
    ok (withdraw_tx req p [] (0 ∷ []))

  unfoldable pub withdraw_inputs : WithdrawRequest → WithdrawParts → Text → List Text
  withdraw_inputs req p merkle_root =
      merkle_root
      ∷ to_hex p.nullifier
      ∷ to_hex (field_from_account_id k req.recipient_near_account)
      ∷ to_hex (new_field req.amount)
      ∷ to_hex (field_from_account_id k req.relayer)
      ∷ to_hex (new_field req.relayer_fee)
      ∷ to_hex p.note.note.auditor_pubkey
      ∷ view_ct_hash k p.view_ct
      ∷ []

  unfoldable pub withdraw_witness : WithdrawParts → List Text → List (String × Value)
  withdraw_witness p merkle_path =
      ("noteAmount", text_value (to_hex (new_field p.note.note.amount)))
      ∷ ("noteOwnerPubkey", text_value (to_hex p.note.note.owner_pubkey))
      ∷ ("noteAuditorPubkey", text_value (to_hex p.note.note.auditor_pubkey))
      ∷ ("noteBlinding", text_value (to_hex p.note.note.blinding))
      ∷ ("spendingKey", text_value (to_hex w.spending_key))
      ∷ ("leafIndex", text_value (to_hex (new_field (pos p.note.leaf_index))))
      ∷ ("merklePath", texts_value merkle_path)
      ∷ ("viewCtHashWitness", text_value (view_ct_hash k p.view_ct))
      ∷ []

  unfoldable pub build_withdraw_proved : WithdrawRequest → SealRandom → ℕ → Prover → Result BuiltTx
  build_withdraw_proved req rnd now prover = do
    throw_if (ltb_ℤ req.amount req.relayer_fee) fee_exceeds_amount
    merkle_path ← require_path req.merkle_path
    merkle_root ← require_root req.merkle_root
    p ← prepare_withdraw req rnd now
    proof ← prover (record {
      circuit = withdraw;
      public_inputs = withdraw_inputs req p merkle_root;
      witness = withdraw_witness p merkle_path;
    })
    ok (withdraw_tx req p merkle_root proof)
