-- ===== src/Sdk/Wallet.antt =====
-- sdk/packages/sdk/src/wallet.ts: the wallet's state, key derivation, balance and note selection.
pub mod Selection
pub mod Balance
use near_shield.Prelude.{
  ℕ, suc, ◌==◌, not, Bool, true, false, ◌&&◌, ◌||◌, Option, none, some, List, [], ◌∷◌, ◌++◌, length,
  list_eq, ltb, if◌then◌else◌, ℤ, pos, ◌+ℤ◌, ltb_ℤ, eqb_ℤ, Result, ok, ◌>>=◌, ◌>>◌, throw_if,
  short_seed,
}
use near_shield.Js.Text.{Text, Bytes, codes, hex_bytes, subarray}
use near_shield.Js.Json.Parse.{Doubles}
use near_shield.Core.Packages.{Packages}
use near_shield.Core.Field.{Field, zero_field, from_hex, to_hex, equals}
use near_shield.Core.Poseidon.{poseidon2}
use near_shield.Core.Note.{Note}
use near_shield.Core.Encrypt.{KeyPair, generate_key_pair}
use near_shield.Core.Scanner.{NoteCiphertext, DiscoveredNote, scan_notes}

-- `notes` in the order of discovery; `spent` is a set of leaf indices.
pub record Wallet : Type 0 where
  pub spending_key : Field
  pub owner_pubkey : Field
  pub viewing_key : KeyPair
  pub notes : List DiscoveredNote
  pub spent : List ℕ

-- `this.spent.has(i)` and `this.spent.add(i)`
unfoldable pub has : List ℕ → ℕ → Bool
has [] i = false
has (j ∷ s) i = j == i || has s i

unfoldable pub add : List ℕ → ℕ → List ℕ
add s i = if has s i then s else s ++ i ∷ []

module _ (k : Packages) where
  -- `random` is the private key that a short seed leaves to chance.
  unfoldable pub viewing_key_of : Bytes → Bytes → Result KeyPair
  viewing_key_of seed random =
      let derived = (do
        public ← k.get_public_key (subarray seed 32 64)
        ok (record { public_key = public; private_key = subarray seed 32 64 })) in
      if ltb (length seed) 64 then generate_key_pair k random else derived

  unfoldable pub new_wallet : Bytes → Bytes → Result Wallet
  new_wallet seed random = do
    throw_if (ltb (length seed) 32) short_seed
    spending_key ← from_hex (codes "0x" ++ hex_bytes (subarray seed 0 32))
    viewing_key ← viewing_key_of seed random
    ok (record {
      spending_key = spending_key;
      owner_pubkey = poseidon2 k spending_key zero_field;
      viewing_key = viewing_key;
      notes = [];
      spent = [];
    })

unfoldable pub address : Wallet → Text × Text
address w = (to_hex w.owner_pubkey, hex_bytes w.viewing_key.public_key)

-- `this.notes.push(...found)` and the number of them.
unfoldable pub push_notes : Wallet → List DiscoveredNote → Wallet × ℕ
push_notes w found = (record w { notes = w.notes ++ found }, length found)

unfoldable pub scan : Packages → Doubles → Wallet → List NoteCiphertext → Wallet × ℕ
scan k doubles w cts = push_notes w (scan_notes k doubles w.viewing_key.private_key cts)

unfoldable pub mark_spent : Wallet → ℕ → Wallet
mark_spent w leaf_index = record w { spent = add w.spent leaf_index }

-- The `reduce` of `balance`, from a running sum.
unfoldable pub balance_from : List ℕ → ℤ → List DiscoveredNote → ℤ
balance_from spent sum [] = sum
balance_from spent sum (n ∷ ns) =
    balance_from spent (if has spent n.leaf_index then sum else sum +ℤ n.note.amount) ns

unfoldable pub balance : Wallet → ℤ
balance w = balance_from w.spent (pos 0) w.notes

-- `a.every((x, i) => x === b[i])` behind the tests on length and on undefined.
unfoldable pub same_bytes : Option Bytes → Option Bytes → Bool
same_bytes none b = false
same_bytes (some a) none = false
same_bytes (some a) (some b) = if not (length a == length b) then false else list_eq a b

-- The three `continue` tests of `findTransferInputs` and its last test, all passed.
unfoldable pub covers : List ℕ → ℤ → DiscoveredNote → DiscoveredNote → Bool
covers spent amount a b =
    if has spent a.leaf_index || has spent b.leaf_index
    then false
    else if not (equals a.note.auditor_pubkey b.note.auditor_pubkey)
    then false
    else if not (same_bytes a.auditor_pubkey_bytes b.auditor_pubkey_bytes)
    then false
    else not (ltb_ℤ (a.note.amount +ℤ b.note.amount) amount)

-- The inner loop, over the notes after `a`.
unfoldable pub find_partner :
    List ℕ → ℤ → DiscoveredNote → List DiscoveredNote → Option DiscoveredNote
find_partner spent amount a [] = none
find_partner spent amount a (b ∷ ns) =
    if covers spent amount a b then some b else find_partner spent amount a ns

-- The outer loop.
unfoldable pub find_inputs :
    List ℕ → ℤ → List DiscoveredNote → Option (DiscoveredNote × DiscoveredNote)
find_inputs spent amount [] = none
find_inputs spent amount (a ∷ ns) = elim (find_partner spent amount a ns) [
  | some b ↦ some (a, b)
  | none ↦ find_inputs spent amount ns
]

unfoldable pub find_transfer_inputs : Wallet → ℤ → Option (DiscoveredNote × DiscoveredNote)
find_transfer_inputs w amount = find_inputs w.spent amount w.notes

-- `this.notes.find(...)` of the withdrawals.
unfoldable pub find_note : List ℕ → ℤ → List DiscoveredNote → Option DiscoveredNote
find_note spent amount [] = none
find_note spent amount (n ∷ ns) =
    if eqb_ℤ n.note.amount amount && not (has spent n.leaf_index)
    then some n
    else find_note spent amount ns
