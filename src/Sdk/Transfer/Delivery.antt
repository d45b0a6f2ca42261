-- ===== src/Sdk/Transfer/Delivery.antt =====
-- A built transfer and the scan of its recipient (sdk/packages/sdk/src/wallet.ts, core/src/scanner.ts).
use mathlib.Core.List.{Memᴰ}
use near_shield.Prelude.{
  ℕ, ◌≡◌, refl, ap, sym, subst, ◌∙◌, All, List, ◌++◌, length, some, ℤ, pos, negsuc, ◌<ℤ◌, ok,
  ok_injective, >>=-eq-ok, arith, Mem-append_right,
}
use near_shield.Js.Text.{Bytes, codes, hex_bytes}
use near_shield.Js.BigInt.{to_bigint}
use near_shield.Js.Json.Parse.{Doubles}
use near_shield.Core.Packages.{Packages, SealLaws}
use near_shield.Core.Field.{Field, IsReduced}
use near_shield.Core.Field.Laws.{new_field_lem}
use near_shield.Core.HashBytes.Reduced.{auditor_pubkey_to_field-IsReduced}
use near_shield.Core.Field.Wire.{IsByte}
use near_shield.Core.Note.{Note, auditor_pubkey_to_field}
use near_shield.Core.Encrypt.{seal_context_note}
use near_shield.Core.Scanner.{NoteCiphertext, DiscoveredNote, encode_note_payload, scan_notes}
use near_shield.Core.Scanner.Decoding.{IsNote, KeyMatches}
use near_shield.Core.Scanner.Discovery.{discovery, scan_notes-seal_to}
use near_shield.Sdk.Deposit.{seal, random_field}
use near_shield.Sdk.Wallet.{Wallet, push_notes, scan}
use near_shield.Sdk.Transfer.{
  TransferRequest, TransferRandom, TransferParts, assert_value_conserved, select_inputs,
  transfer_outputs, prepare_transfer,
}
use near_shield.Sdk.Transfer.Conservation.{prepare_transfer-IsBalanced}

positive_amount : (a : ℤ) → pos 0 <ℤ a → (n : ℕ) × (a ≡ pos n)
positive_amount (pos n) h = (n, refl)
positive_amount (negsuc n) h = absurd (omega arith)

random_field-IsReduced : (b : Bytes) {f : Field} → random_field b ≡ ok f → IsReduced f
unfolding random_field
random_field-IsReduced b h =
    let (v, _, g) = >>=-eq-ok (to_bigint (codes "0x" ++ hex_bytes b)) _ h in
    subst (λ (x : Field). IsReduced x) (ok_injective g) (new_field_lem v).0

module _ (k : Packages) (w : Wallet) where
  transfer_outputs-recipient :
      (req : TransferRequest) (rnd : TransferRandom) (a b : DiscoveredNote) {r c : Note}
      → transfer_outputs k w req rnd a b ≡ ok (r, c)
      → (auditor_pubkey_to_field k req.recipient_auditor_pubkey ≡ ok r.auditor_pubkey)
        × IsReduced r.blinding
  unfolding transfer_outputs
  transfer_outputs-recipient req rnd a b {r} {c} h =
      let (auditor, h0, h) =
        >>=-eq-ok (auditor_pubkey_to_field k req.recipient_auditor_pubkey) _ h in
      let (b0, h1, h) = >>=-eq-ok (random_field rnd.recipient_blinding) _ h in
      let (b1, _, h) = >>=-eq-ok (random_field rnd.change_blinding) _ h in
      let (_, _, h) = >>=-eq-ok (assert_value_conserved _ _ _) _ h in
      let e : auditor ≡ r.auditor_pubkey = cc in
      let f : b0 ≡ r.blinding = cc in
      (
        h0 ∙ ap ok e,
        subst (λ (x : Field). IsReduced x) f (random_field-IsReduced rnd.recipient_blinding h1),
      )

  -- What a successful preparation sealed for the recipient.
  abbrev SealedNote : TransferRequest → TransferRandom → TransferParts → Type 0
  SealedNote req rnd t =
      (seal k rnd.note_recipient req.recipient_viewing_pubkey
          (encode_note_payload t.recipient_out (some req.recipient_auditor_pubkey))
          seal_context_note
        ≡ ok t.note_ct_recipient)
      × (auditor_pubkey_to_field k req.recipient_auditor_pubkey ≡ ok t.recipient_out.auditor_pubkey)
      × IsReduced t.recipient_out.blinding

  prepare_transfer-SealedNote :
      (req : TransferRequest) (rnd : TransferRandom) (now : ℕ) {t : TransferParts}
      → prepare_transfer k w req rnd now ≡ ok t
      → SealedNote req rnd t
  unfolding prepare_transfer
  prepare_transfer-SealedNote req rnd now {t} h =
      let ((a, b, key), h0, h) = >>=-eq-ok (select_inputs k w req.amount) _ h in
      let ((r, c), h1, h) = >>=-eq-ok (transfer_outputs k w req rnd a b) _ h in
      let (_, _, h) = >>=-eq-ok (seal k rnd.view_sender _ _ _) _ h in
      let (_, _, h) = >>=-eq-ok (seal k rnd.view_recipient _ _ _) _ h in
      let (_, h2, h) = >>=-eq-ok (seal k rnd.note_recipient _ _ _) _ h in
      let (_, _, h) = >>=-eq-ok (seal k rnd.note_change _ _ _) _ h in
      let (auditor, blinding) = transfer_outputs-recipient req rnd a b h1 in
      subst (λ (t : TransferParts). SealedNote req rnd t) (ok_injective h) (h2, auditor, blinding)

  recipient_out-IsNote :
      (req : TransferRequest) (rnd : TransferRandom) (now : ℕ) {t : TransferParts}
      → IsReduced req.recipient_owner_pubkey
      → prepare_transfer k w req rnd now ≡ ok t
      → IsNote t.recipient_out
  recipient_out-IsNote req rnd now {t} owner h =
      let balanced = prepare_transfer-IsBalanced k w req rnd now h in
      let (sealed, auditor, blinding) = prepare_transfer-SealedNote req rnd now h in
      let (n, e) = positive_amount req.amount balanced.positive in
      record {
        amount = n;
        amount_value = balanced.recipient ∙ e;
        owner = subst (λ (x : Field). IsReduced x) (sym balanced.recipient_owner) owner;
        auditor = auditor_pubkey_to_field-IsReduced k req.recipient_auditor_pubkey auditor;
        blinding = blinding;
      }

  -- If a transfer is built for a wallet's viewing key, that wallet holds the note for the recipient
  -- after a scan of any list with its ciphertext: the transferred amount under the recipient's owner
  -- key, with the commitment of the transfer and the key of the recipient's auditor.
  pub scan-prepare_transfer :
      (doubles : Doubles)
      → SealLaws k
      → (req : TransferRequest) (rnd : TransferRandom) (now : ℕ) (r : Wallet) {t : TransferParts}
      → prepare_transfer k w req rnd now ≡ ok t
      → IsReduced req.recipient_owner_pubkey
      → All IsByte req.recipient_auditor_pubkey
      → k.get_public_key r.viewing_key.private_key ≡ ok req.recipient_viewing_pubkey
      → length rnd.note_recipient.nonce ≡ 12
      → (i : ℕ) (cts : List NoteCiphertext)
      → Memᴰ (record { leaf_index = i; sealed = t.note_ct_recipient }) cts
      → (d : DiscoveredNote) × Memᴰ d (scan k doubles r cts).0.notes
        × (d.leaf_index ≡ i)
        × (d.note.amount ≡ req.amount)
        × (d.note.owner_pubkey ≡ req.recipient_owner_pubkey)
        × (d.commitment ≡ t.c_recipient)
        × (d.auditor_pubkey_bytes ≡ some req.recipient_auditor_pubkey)
  unfolding KeyMatches scan push_notes
  scan-prepare_transfer doubles laws req rnd now r {t} h owner bytes hp hn i cts m =
      let balanced = prepare_transfer-IsBalanced k w req rnd now h in
      let (sealed, auditor, blinding) = prepare_transfer-SealedNote req rnd now h in
      let found =
        scan_notes-seal_to k doubles laws r.viewing_key.private_key req.recipient_viewing_pubkey
          rnd.note_recipient.eph rnd.note_recipient.nonce t.recipient_out
          (some req.recipient_auditor_pubkey)
          (record { leaf_index = i; sealed = t.note_ct_recipient })
          (recipient_out-IsNote req rnd now owner h) (bytes, auditor) hp hn sealed cts m in
      (
        discovery k i t.recipient_out (some req.recipient_auditor_pubkey),
        Mem-append_right r.notes (scan_notes k doubles r.viewing_key.private_key cts) found,
        refl,
        balanced.recipient,
        balanced.recipient_owner,
        sym balanced.commitments.0,
        refl,
      )
