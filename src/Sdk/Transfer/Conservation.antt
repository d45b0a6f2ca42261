-- ===== src/Sdk/Transfer/Conservation.antt =====
-- What a transfer spends and creates.
use near_shield.Prelude.{
  ℕ, ◌≡◌, refl, arith, ap, ap₂, subst, ◌∙◌, inl, inr, ◌<◌, true, false, not, Option, none, some,
  get_elem?, ℤ, pos, ◌+ℤ◌, ◌-ℤ◌, ◌≤ℤ◌, ◌<ℤ◌, ltb_ℤ, eqb_ℤ, int_laws, Error, ok, throw_if,
  ok_injective, >>=-eq-ok, throw_if-not, amount_not_positive, no_transfer_inputs,
  missing_auditor_key,
}
use near_shield.Js.Text.{Bytes}
use near_shield.Core.Packages.{Packages}
use near_shield.Core.Field.{Field}
use near_shield.Core.Note.{Note, auditor_pubkey_to_field, commit_note, compute_nullifier}
use near_shield.Core.Scanner.{DiscoveredNote}
use near_shield.Sdk.Deposit.{seal, random_field, or_throw}
use near_shield.Sdk.Wallet.{Wallet, find_transfer_inputs}
use near_shield.Sdk.Wallet.Selection.{IsPair, find_inputs_cases}
use near_shield.Sdk.Transfer.{
  TransferRequest, TransferRandom, TransferParts, assert_value_conserved, select_inputs,
  transfer_outputs, prepare_transfer,
}

-- The locals of a transfer that is worth its inputs: two unspent notes of one auditor, at different
-- places of the wallet; outputs that add up to them, none negative; the nullifiers of the inputs
-- and the commitments of the outputs.
pub record IsBalanced (k : Packages) (w : Wallet) (req : TransferRequest) (t : TransferParts)
    : Type 0 where
  pub place0 : ℕ
  pub place1 : ℕ
  pub different : place0 < place1
  pub stored0 : get_elem? w.notes place0 ≡ some t.input0
  pub stored1 : get_elem? w.notes place1 ≡ some t.input1
  pub pair : IsPair w.spent req.amount t.input0 t.input1
  pub positive : pos 0 <ℤ req.amount
  pub recipient : t.recipient_out.amount ≡ req.amount
  pub recipient_owner : t.recipient_out.owner_pubkey ≡ req.recipient_owner_pubkey
  pub conserved :
      t.recipient_out.amount +ℤ t.change_out.amount ≡ t.input0.note.amount +ℤ t.input1.note.amount
  pub change_non_negative : pos 0 ≤ℤ t.change_out.amount
  pub change_owner : t.change_out.owner_pubkey ≡ w.owner_pubkey
  pub change_auditor : t.change_out.auditor_pubkey ≡ t.input0.note.auditor_pubkey
  pub nullifiers :
      (t.nullifier0 ≡ compute_nullifier k w.spending_key t.input0.commitment t.input0.leaf_index)
      × (t.nullifier1 ≡ compute_nullifier k w.spending_key t.input1.commitment t.input1.leaf_index)
  pub commitments :
      (t.c_recipient ≡ commit_note k t.recipient_out) × (t.c_change ≡ commit_note k t.change_out)

or_throw-eq-ok {ℓ} :
    {A : Type ℓ} (e : Error) (m : Option A) {a : A} → or_throw e m ≡ ok a → m ≡ some a
or_throw-eq-ok e none h = cc
or_throw-eq-ok e (some b) {a} h = let e : b ≡ a = cc in ap some e

find_transfer_inputs-IsPair :
    (w : Wallet) (amount : ℤ) {a b : DiscoveredNote}
    → find_transfer_inputs w amount ≡ some (a, b)
    → (i : ℕ) × (j : ℕ) × (i < j)
      × (get_elem? w.notes i ≡ some a)
      × (get_elem? w.notes j ≡ some b)
      × IsPair w.spent amount a b
unfolding find_transfer_inputs
find_transfer_inputs-IsPair w amount {a} {b} h = elim (find_inputs_cases w.spent amount w.notes) [
  | inr (none_found, _) ↦ absurd (cc)
  | inl (c, d, i, j, found, lt, first, second, pair) ↦
      let e : c ≡ a = cc in
      let f : d ≡ b = cc in
      (
        i,
        j,
        lt,
        first ∙ ap some e,
        second ∙ ap some f,
        subst (λ x. IsPair w.spent amount x b) e (subst (λ x. IsPair w.spent amount c x) f pair),
      )
]

change_sum : (total amount : ℤ) → amount +ℤ (total -ℤ amount) ≡ total
change_sum total amount = omega int_laws

change_sign : (total amount : ℤ) → amount ≤ℤ total → pos 0 ≤ℤ total -ℤ amount
change_sign total amount h = omega int_laws

positive_lem : (a : ℤ) → ltb_ℤ (pos 0) a ≡ true → pos 0 <ℤ a
positive_lem a h = ground arith

no_negative_change : (total amount : ℤ) → amount ≤ℤ total → ltb_ℤ (total -ℤ amount) (pos 0) ≡ false
no_negative_change total amount h = ground (arith, change_sign total amount h)

exact_change : (total amount : ℤ) → not (eqb_ℤ (amount +ℤ (total -ℤ amount)) total) ≡ false
exact_change total amount = rw (change_sum total amount) (ground arith)

module _ (k : Packages) (w : Wallet) where
  select_inputs-IsPair :
      (amount : ℤ) {a b : DiscoveredNote} {key : Bytes}
      → select_inputs k w amount ≡ ok (a, b, key)
      → (pos 0 <ℤ amount) × (find_transfer_inputs w amount ≡ some (a, b))
  unfolding select_inputs
  select_inputs-IsPair amount {a} {b} {key} h =
      let (_, h0, h) = >>=-eq-ok (throw_if (not (ltb_ℤ (pos 0) amount)) amount_not_positive) _ h in
      let ((c, d), h1, h) =
        >>=-eq-ok (or_throw no_transfer_inputs (find_transfer_inputs w amount)) _ h in
      let (_, h2, h) = >>=-eq-ok (or_throw missing_auditor_key c.auditor_pubkey_bytes) _ h in
      let e : c ≡ a = cc in
      let f : d ≡ b = cc in
      (
        positive_lem amount (throw_if-not _ amount_not_positive h0),
        or_throw-eq-ok no_transfer_inputs _ h1 ∙ ap some (ap₂ (λ x y. (x, y)) e f),
      )

  -- What the outputs are.
  transfer_outputs-fields :
      (req : TransferRequest) (rnd : TransferRandom) (a b : DiscoveredNote) {r c : Note}
      → transfer_outputs k w req rnd a b ≡ ok (r, c)
      → (r.amount ≡ req.amount)
        × (r.owner_pubkey ≡ req.recipient_owner_pubkey)
        × (c.amount ≡ a.note.amount +ℤ b.note.amount -ℤ req.amount)
        × (c.owner_pubkey ≡ w.owner_pubkey)
        × (c.auditor_pubkey ≡ a.note.auditor_pubkey)
  unfolding transfer_outputs
  transfer_outputs-fields req rnd a b {r} {c} h =
      let (auditor, _, h) =
        >>=-eq-ok (auditor_pubkey_to_field k req.recipient_auditor_pubkey) _ h in
      let (b0, _, h) = >>=-eq-ok (random_field rnd.recipient_blinding) _ h in
      let (b1, _, h) = >>=-eq-ok (random_field rnd.change_blinding) _ h in
      let (_, _, h) = >>=-eq-ok (assert_value_conserved _ _ _) _ h in (cc, cc, cc, cc, cc)

  -- The steps that a successful preparation has taken.
  prepare_transfer-steps :
      (req : TransferRequest) (rnd : TransferRandom) (now : ℕ) {t : TransferParts}
      → prepare_transfer k w req rnd now ≡ ok t
      → (key : Bytes) × (select_inputs k w req.amount ≡ ok (t.input0, t.input1, key))
        × (transfer_outputs k w req rnd t.input0 t.input1 ≡ ok (t.recipient_out, t.change_out))
        × (t.nullifier0
            ≡ compute_nullifier k w.spending_key t.input0.commitment t.input0.leaf_index)
        × (t.nullifier1
            ≡ compute_nullifier k w.spending_key t.input1.commitment t.input1.leaf_index)
        × (t.c_recipient ≡ commit_note k t.recipient_out)
        × (t.c_change ≡ commit_note k t.change_out)
  unfolding prepare_transfer
  prepare_transfer-steps req rnd now {t} h =
      let ((a, b, key), h0, h) = >>=-eq-ok (select_inputs k w req.amount) _ h in
      let ((r, c), h1, h) = >>=-eq-ok (transfer_outputs k w req rnd a b) _ h in
      let (_, _, h) = >>=-eq-ok (seal k rnd.view_sender _ _ _) _ h in
      let (_, _, h) = >>=-eq-ok (seal k rnd.view_recipient _ _ _) _ h in
      let (_, _, h) = >>=-eq-ok (seal k rnd.note_recipient _ _ _) _ h in
      let (_, _, h) = >>=-eq-ok (seal k rnd.note_change _ _ _) _ h in
      subst
        (λ (t : TransferParts).
          (key : Bytes) × (select_inputs k w req.amount ≡ ok (t.input0, t.input1, key))
          × (transfer_outputs k w req rnd t.input0 t.input1 ≡ ok (t.recipient_out, t.change_out))
          × (t.nullifier0
              ≡ compute_nullifier k w.spending_key t.input0.commitment t.input0.leaf_index)
          × (t.nullifier1
              ≡ compute_nullifier k w.spending_key t.input1.commitment t.input1.leaf_index)
          × (t.c_recipient ≡ commit_note k t.recipient_out)
          × (t.c_change ≡ commit_note k t.change_out))
        (ok_injective h) (key, h0, h1, refl, refl, refl, refl)

  -- A transfer is built only from two unspent notes of one auditor at different places of the
  -- wallet that cover a positive amount; the recipient gets the amount, the change goes back to the
  -- wallet under the input's auditor, is not negative and makes up the sum of the inputs; the
  -- nullifiers are those of the two inputs and the commitments those of the two outputs.
  pub prepare_transfer-IsBalanced :
      (req : TransferRequest) (rnd : TransferRandom) (now : ℕ) {t : TransferParts}
      → prepare_transfer k w req rnd now ≡ ok t
      → IsBalanced k w req t
  prepare_transfer-IsBalanced req rnd now {t} h =
      let (key, selected, outputs, n0, n1, c0, c1) = prepare_transfer-steps req rnd now h in
      let (positive, found) = select_inputs-IsPair req.amount selected in
      let (i, j, lt, first, second, pair) = find_transfer_inputs-IsPair w req.amount found in
      let (paid, owner, change, change_owner, auditor) =
        transfer_outputs-fields req rnd t.input0 t.input1 outputs in
      record {
        place0 = i;
        place1 = j;
        different = lt;
        stored0 = first;
        stored1 = second;
        pair = pair;
        positive = positive;
        recipient = paid;
        recipient_owner = owner;
        conserved = rw (paid, change) (change_sum _ req.amount);
        change_non_negative = rw change (change_sign _ req.amount pair.enough);
        change_owner = change_owner;
        change_auditor = auditor;
        nullifiers = (n0, n1);
        commitments = (c0, c1);
      }

  -- The checks of value never fail: for a positive amount that two notes of the wallet can pay, the
  -- outputs are built as soon as the recipient's auditor key has 32 bytes and the blindings are read.
  pub transfer_outputs-eq-ok :
      (req : TransferRequest) (rnd : TransferRandom) (a b : DiscoveredNote) {x y z : Field}
      → req.amount ≤ℤ a.note.amount +ℤ b.note.amount
      → auditor_pubkey_to_field k req.recipient_auditor_pubkey ≡ ok x
      → random_field rnd.recipient_blinding ≡ ok y
      → random_field rnd.change_blinding ≡ ok z
      → transfer_outputs k w req rnd a b
        ≡ ok (
          record {
            amount = req.amount;
            owner_pubkey = req.recipient_owner_pubkey;
            auditor_pubkey = x;
            blinding = y;
          },
          record {
            amount = a.note.amount +ℤ b.note.amount -ℤ req.amount;
            owner_pubkey = w.owner_pubkey;
            auditor_pubkey = a.note.auditor_pubkey;
            blinding = z;
          },
        )
  unfolding transfer_outputs assert_value_conserved
  transfer_outputs-eq-ok req rnd a b enough hx hy hz =
      rw
        (
          hx,
          hy,
          hz,
          no_negative_change _ req.amount enough,
          exact_change (a.note.amount +ℤ b.note.amount) req.amount,
        )
        refl
