-- ===== src/Sdk/Deposit.antt =====
-- The deposit builders of sdk/packages/sdk/src/wallet.ts and the helpers of all builders. Random
-- bytes and the clock (milliseconds) are arguments.
use Prim.Native.String.{String}
use near_shield.Prelude.{
  ℕ, ◌/◌, List, [], ◌∷◌, ◌++◌, Option, none, some, length, ℤ, Error, Result, ok, err, ◌>>=◌,
}
use near_shield.Js.Text.{Text, Bytes, codes, hex_bytes}
use near_shield.Js.BigInt.{to_bigint}
use near_shield.Js.Numerals.{bigint_text}
use near_shield.Core.Packages.{Packages}
use near_shield.Core.Field.{Field, new_field, to_hex}
use near_shield.Core.HashBytes.{keccak_to_field}
use near_shield.Core.Note.{Note, auditor_pubkey_to_field, commit_note}
use near_shield.Core.Encrypt.{seal_to, seal_context_note, seal_context_view}
use near_shield.Core.Encrypt.Utf8.{utf8}
use near_shield.Core.Scanner.{encode_note_payload}
use near_shield.Core.Disclosure.{ViewDisclosure, encode_disclosure, deposit}
use near_shield.Sdk.Prover.{Value, Prover}
use near_shield.Sdk.Prover.{text as text_value}
use near_shield.Sdk.Transaction.{BuiltTx, str, num, encode_ciphertext}
use near_shield.Sdk.Wallet.{Wallet}

-- What one `sealTo` draws.
pub record SealRandom : Type 0 where
  pub eph : Bytes
  pub nonce : Bytes

abbrev pub seal : Packages → SealRandom → Bytes → Bytes → Text → Result Bytes
seal k r = seal_to k r.eph r.nonce

-- `BigInt("0x" + hex(bytes))` reduced.
unfoldable pub random_field : Bytes → Result Field
random_field bytes = do v ← to_bigint (codes "0x" ++ hex_bytes bytes); ok (new_field v)

-- `if (!x) throw e`
abbrev pub or_throw {ℓ} : {A : Type ℓ} → Error → Option A → Result A
or_throw e none = err e
or_throw e (some a) = ok a

unfoldable pub view_ct_hash : Packages → Bytes → Text
view_ct_hash k sealed = to_hex (keccak_to_field k (utf8 (encode_ciphertext sealed)))

pub record DepositRequest : Type 0 where
  pub amount : ℤ
  pub auditor_pubkey : Bytes

pub record DepositRandom : Type 0 where
  pub blinding : Bytes
  pub view : SealRandom
  pub note : SealRandom

-- The locals of a deposit builder.
pub record DepositParts : Type 0 where
  pub note : Note
  pub commitment : Field
  pub view_ct : Bytes
  pub note_ct : Bytes

module _ (k : Packages) (w : Wallet) where
  abbrev pub deposit_disclosure : DepositRequest → ℕ → ViewDisclosure
  deposit_disclosure req now = record {
    action = deposit;
    sender_owner_pubkey = to_hex w.owner_pubkey;
    recipient_owner_pubkey = to_hex w.owner_pubkey;
    amounts = bigint_text req.amount ∷ [];
    memo = [];
    timestamp = now / 1000;
  }

  -- The lines that both builders begin with.
  unfoldable pub prepare_deposit : DepositRequest → DepositRandom → ℕ → Result DepositParts
  prepare_deposit req rnd now = do
    auditor ← auditor_pubkey_to_field k req.auditor_pubkey
    blinding ← random_field rnd.blinding
    let note : Note = record {
      amount = req.amount;
      owner_pubkey = w.owner_pubkey;
      auditor_pubkey = auditor;
      blinding = blinding;
    }
    view_ct ←
        seal k rnd.view req.auditor_pubkey (encode_disclosure (deposit_disclosure req now))
          seal_context_view
    note_ct ←
        seal k rnd.note w.viewing_key.public_key
          (encode_note_payload note (some req.auditor_pubkey)) seal_context_note
    ok (record {
      note = note;
      commitment = commit_note k note;
      view_ct = view_ct;
      note_ct = note_ct;
    })

  unfoldable pub deposit_tx : DepositParts → Bytes → BuiltTx
  deposit_tx d proof = record {
    method = deposit;
    public_inputs =
        ("commitment", str (to_hex d.commitment))
        ∷ ("amount", str (bigint_text d.note.amount))
        ∷ ("auditorPubkey", str (to_hex d.note.auditor_pubkey))
        ∷ ("viewCtLen", num (length d.view_ct))
        ∷ [];
    proof = proof;
    view_ciphertexts = d.view_ct ∷ [];
    note_ciphertexts = d.note_ct ∷ [];
  }

  unfoldable pub build_deposit : DepositRequest → DepositRandom → ℕ → Result BuiltTx
  build_deposit req rnd now = do d ← prepare_deposit req rnd now; ok (deposit_tx d (0 ∷ []))

  unfoldable pub deposit_inputs : DepositParts → List Text
  deposit_inputs d =
      to_hex d.commitment
      ∷ to_hex (new_field d.note.amount)
      ∷ to_hex d.note.auditor_pubkey
      ∷ view_ct_hash k d.view_ct
      ∷ []

  unfoldable pub deposit_witness : DepositParts → List (String × Value)
  deposit_witness d =
      ("ownerPubkey", text_value (to_hex w.owner_pubkey))
      ∷ ("blinding", text_value (to_hex d.note.blinding))
      ∷ ("viewCtHashWitness", text_value (view_ct_hash k d.view_ct))
      ∷ []

  unfoldable pub build_deposit_proved : DepositRequest → DepositRandom → ℕ → Prover → Result BuiltTx
  build_deposit_proved req rnd now prover = do
    d ← prepare_deposit req rnd now
    proof ← prover (record {
      circuit = deposit;
      public_inputs = deposit_inputs d;
      witness = deposit_witness d;
    })
    ok (deposit_tx d proof)
