-- ===== src/Tests/SdkTests.antt =====
-- The wallet and its transfers, at concrete inputs.
use near_shield.Prelude.{
  ℕ, ◌+◌, ◌<◌, ◌≡◌, ◌≢◌, ◌⊎◌, refl, arith, [], ◌∷◌, replicate, get_elem?, list_eq, none, some, pos,
  ◌+ℤ◌, ◌-ℤ◌, Result, ok, err,
}
use near_shield.Js.Text.{Bytes, hex_bytes, hex_byte, to_text, digits, digit}
use near_shield.Js.BigInt.{
  is_space, trim_start, trim_end, digit_value, parse_digits, parse_nat, after_zero, integer_literal,
  to_bigint,
}
use near_shield.Core.Field.{Field, equals, new_field}
use near_shield.Core.Poseidon.{poseidon2, Collides2}
use near_shield.Core.Note.{Note, auditor_pubkey_to_field}
use near_shield.Core.Encrypt.{seal_to}
use near_shield.Core.Scanner.{DiscoveredNote}
use near_shield.Sdk.Wallet.{
  Wallet, has, covers, same_bytes, find_partner, find_inputs, find_transfer_inputs, balance,
  push_notes, mark_spent,
}
use near_shield.Sdk.Wallet.Selection
use near_shield.Sdk.Wallet.Selection.{IsPair}
use near_shield.Sdk.Wallet.Balance
use near_shield.Sdk.Wallet.Balance.{total, unspent, unspent_at}
use near_shield.Sdk.Deposit.{SealRandom, random_field}
use near_shield.Sdk.Transfer.{
  TransferRequest, TransferRandom, TransferParts, select_inputs, transfer_outputs,
  assert_value_conserved, prepare_transfer,
}
use near_shield.Sdk.Transfer.Inputs
use near_shield.Sdk.Transfer.Inputs.{DistinctLeaves}
use near_shield.Sdk.Transfer.Conservation
use near_shield.Sdk.Transfer.Conservation.{IsBalanced}
use near_shield.Tests.Packages.{toy}

abbrev pub value_or {ℓ} : {A : Type ℓ} → A → Result A → A
value_or a (ok b) = b
value_or a (err e) = a

abbrev pub f : ℕ → Field
f n = record { value = n }

abbrev pub key : Bytes
key = replicate 32 9

abbrev pub note_of : ℕ → Note
note_of n = record { amount = pos n; owner_pubkey = f 5; auditor_pubkey = f 6; blinding = f n }

abbrev pub found : ℕ → ℕ → DiscoveredNote
found i n = record {
  leaf_index = i;
  note = note_of n;
  commitment = f (100 + i);
  auditor_pubkey_bytes = some key;
}

abbrev pub wallet : Wallet
wallet = record {
  spending_key = f 4;
  owner_pubkey = f 5;
  viewing_key = record { public_key = replicate 32 3; private_key = replicate 32 3 };
  notes = found 0 10 ∷ found 1 30 ∷ found 2 25 ∷ [];
  spent = 0 ∷ [];
}

find_inputs_cases_example :
    ((a b : DiscoveredNote) × (i : ℕ) × (j : ℕ) × (find_inputs (0 ∷ []) (pos 40) wallet.notes
        ≡ some (a, b))
      × (i < j)
      × (get_elem? wallet.notes i ≡ some a)
      × (get_elem? wallet.notes j ≡ some b)
      × IsPair (0 ∷ []) (pos 40) a b)
    ⊎ ((find_inputs (0 ∷ []) (pos 40) wallet.notes ≡ none)
        × ((i j : ℕ) (a b : DiscoveredNote)
            → i < j
            → get_elem? wallet.notes i ≡ some a
            → get_elem? wallet.notes j ≡ some b
            → ¬ IsPair (0 ∷ []) (pos 40) a b))
find_inputs_cases_example = Selection.find_inputs_cases (0 ∷ []) (pos 40) wallet.notes

balance-mark_spent_example :
    balance wallet ≡ balance (mark_spent wallet 1) +ℤ total (unspent_at wallet.spent 1) wallet.notes
balance-mark_spent_example = Balance.balance-mark_spent wallet 1

balance-push_notes_example :
    balance (push_notes wallet (found 1 30 ∷ [])).0
    ≡ balance wallet +ℤ total (unspent wallet.spent) (found 1 30 ∷ [])
balance-push_notes_example = Balance.balance-push_notes wallet (found 1 30 ∷ [])

abbrev pub sealing : SealRandom
sealing = record { eph = replicate 32 1; nonce = replicate 12 2 }

abbrev pub pay : TransferRequest
pay = record {
  amount = pos 40;
  recipient_owner_pubkey = f 8;
  recipient_auditor_pubkey = replicate 32 7;
  recipient_viewing_pubkey = replicate 32 6;
  memo = [];
}

abbrev pub draws : TransferRandom
draws = record {
  recipient_blinding = 1 ∷ [];
  change_blinding = 2 ∷ [];
  view_sender = sealing;
  view_recipient = sealing;
  note_recipient = sealing;
  note_change = sealing;
}

abbrev no_parts : TransferParts
no_parts = record {
  input0 = found 0 0;
  input1 = found 0 0;
  nullifier0 = f 0;
  nullifier1 = f 0;
  recipient_out = note_of 0;
  change_out = note_of 0;
  c_recipient = f 0;
  c_change = f 0;
  view_ct_sender = [];
  view_ct_recipient = [];
  note_ct_recipient = [];
  note_ct_change = [];
}

abbrev pub transfer_parts : TransferParts
transfer_parts = value_or no_parts (prepare_transfer toy wallet pay draws 0)

pub prepared : prepare_transfer toy wallet pay draws 0 ≡ ok transfer_parts
unfolding prepare_transfer select_inputs transfer_outputs assert_value_conserved
    find_transfer_inputs find_inputs find_partner covers same_bytes has equals
    auditor_pubkey_to_field random_field seal_to to_bigint integer_literal after_zero parse_nat
    parse_digits digit_value trim_start trim_end is_space hex_bytes hex_byte to_text digits digit
    ◌+ℤ◌ ◌-ℤ◌ list_eq
prepared = refl

prepare_transfer-IsBalanced_example : IsBalanced toy wallet pay transfer_parts
prepare_transfer-IsBalanced_example =
    Conservation.prepare_transfer-IsBalanced toy wallet pay draws 0 prepared

wallet-DistinctLeaves : DistinctLeaves wallet.notes
wallet-DistinctLeaves = (
  omega arith,
  (omega arith, (omega arith, tt)),
  (omega arith, (omega arith, tt), (omega arith, tt, tt)),
)

prepare_transfer-distinct_example :
    let a = transfer_parts.input0 in
    let b = transfer_parts.input1 in
    (a.leaf_index ≢ b.leaf_index)
    × ((transfer_parts.nullifier0 ≢ transfer_parts.nullifier1)
        ⊎ (Collides2 toy
              (a.commitment, new_field (pos a.leaf_index))
              (b.commitment, new_field (pos b.leaf_index))
            ⊎ Collides2 toy
                (f 4, poseidon2 toy a.commitment (new_field (pos a.leaf_index)))
                (f 4, poseidon2 toy b.commitment (new_field (pos b.leaf_index)))))
prepare_transfer-distinct_example =
    Inputs.prepare_transfer-distinct toy wallet pay draws 0 wallet-DistinctLeaves prepared
