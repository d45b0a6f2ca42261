-- ===== src/Sdk/Withdraw/Guards.antt =====
-- What a withdrawal spends, and when it is refused.
use near_shield.Prelude.{
  ℕ, ◌≡◌, refl, arith, ap, suc, subst, ◌∙◌, true, false, Bool, Bool-cases, inl, inr, not, ◌&&◌,
  ◌==◌, List, [], ◌∷◌, length, Option, none, some, get_elem?, sym, ◌≢◌, Error, ℤ, ◌≤ℤ◌, ltb_ℤ,
  eqb_ℤ, eqb_ℤ_iff, ok, throw_if, ok_injective, >>=-eq-ok, throw_if_true, fee_exceeds_amount,
  no_withdraw_note, missing_auditor_key,
}
use near_shield.Js.Text.{Text, Bytes}
use near_shield.Core.Packages.{Packages}
use near_shield.Core.Note.{compute_nullifier}
use near_shield.Core.Scanner.{DiscoveredNote}
use near_shield.Core.Disclosure.{withdraw}
use near_shield.Sdk.Prover.{Prover}
use near_shield.Sdk.Transaction.{BuiltTx}
use near_shield.Sdk.Deposit.{SealRandom, seal, or_throw}
use near_shield.Sdk.Wallet.{Wallet, has, find_note}
use near_shield.Sdk.Withdraw.{
  WithdrawRequest, WithdrawParts, require_path, require_root, prepare_withdraw, withdraw_inputs,
  withdraw_witness, withdraw_tx, build_withdraw_proved,
}

-- The note that a withdrawal spends: stored, not spent, of the exact amount.
pub record IsSpendable (w : Wallet) (amount : ℤ) (n : DiscoveredNote) : Type 0 where
  pub place : ℕ
  pub stored : get_elem? w.notes place ≡ some n
  pub fresh : has w.spent n.leaf_index ≡ false
  pub exact : n.note.amount ≡ amount

chosen_lem : (s t : Bool) → (s && not t) ≡ true → (s ≡ true) × (t ≡ false)
chosen_lem s t h = ground arith

find_note-eq-some :
    (spent : List ℕ) (amount : ℤ) (ns : List DiscoveredNote) {n : DiscoveredNote}
    → find_note spent amount ns ≡ some n
    → (i : ℕ) × (get_elem? ns i ≡ some n)
      × (has spent n.leaf_index ≡ false)
      × (n.note.amount ≡ amount)
unfolding find_note
find_note-eq-some spent amount [] h = absurd (cc)
find_note-eq-some spent amount (m ∷ ns) {n} h =
    elim (Bool-cases (eqb_ℤ m.note.amount amount && not (has spent m.leaf_index))) [
      | inl fits ↦
          let e : m ≡ n = cc (rw fits at h) in
          let (exact, fresh) = chosen_lem _ _ fits in
          subst
            (λ (n : DiscoveredNote).
              (i : ℕ) × (get_elem? (m ∷ ns) i ≡ some n)
              × (has spent n.leaf_index ≡ false)
              × (n.note.amount ≡ amount))
            e (0, refl, fresh, (eqb_ℤ_iff _ _).0 exact)
      | inr misfits ↦
          let (i, place, fresh, exact) = find_note-eq-some spent amount ns (rw misfits at h) in
          (suc i, place, fresh, exact)
    ]

or_throw-eq-ok {ℓ} :
    {A : Type ℓ} (e : Error) (m : Option A) {a : A} → or_throw e m ≡ ok a → m ≡ some a
or_throw-eq-ok e none h = cc
or_throw-eq-ok e (some b) {a} h = let e : b ≡ a = cc in ap some e

require_path-eq-ok :
    (m : Option (List Text)) {path : List Text}
    → require_path m ≡ ok path
    → (m ≡ some path) × (length path ≡ 20)
unfolding require_path
require_path-eq-ok none h = cc
require_path-eq-ok (some p) {path} h = elim (Bool-cases (length p == 20)) [
  | inl full ↦
      let e : p ≡ path = cc (rw full at h) in
      let n : length p ≡ 20 = ground arith in (ap some e, ap length (sym e) ∙ n)
  | inr other ↦ absurd (cc (rw other at h))
]

require_root-eq-ok :
    (m : Option Text) {root : Text} → require_root m ≡ ok root → (m ≡ some root) × (root ≢ [])
unfolding require_root
require_root-eq-ok none h = cc
require_root-eq-ok (some []) h = cc
require_root-eq-ok (some (c ∷ cs)) {root} h =
    let e : c ∷ cs ≡ root = cc in (ap some e, λ empty. absurd (cc))

fee_lem : (amount fee : ℤ) → ltb_ℤ amount fee ≡ false → fee ≤ℤ amount
fee_lem amount fee h = ground arith

-- A proved withdrawal: the fee is within the amount, the note has that amount exactly and is not
-- spent, the path has 20 siblings and the root is there, and the transaction is that of the proof
-- which the prover gave for the public inputs and the witness of this note.
pub record IsWithdrawal (k : Packages) (w : Wallet) (req : WithdrawRequest) (prover : Prover)
    (tx : BuiltTx) : Type 0 where
  pub parts : WithdrawParts
  pub merkle_path : List Text
  pub merkle_root : Text
  pub proof : Bytes
  pub fee_covered : req.relayer_fee ≤ℤ req.amount
  pub path_given : req.merkle_path ≡ some merkle_path
  pub path_length : length merkle_path ≡ 20
  pub root_given : req.merkle_root ≡ some merkle_root
  pub root_nonempty : merkle_root ≢ []
  pub spendable : IsSpendable w req.amount parts.note
  pub has_auditor_key : (key : Bytes) × (parts.note.auditor_pubkey_bytes ≡ some key)
  pub nullifier :
      parts.nullifier
      ≡ compute_nullifier k w.spending_key parts.note.commitment parts.note.leaf_index
  pub proved :
      prover (record {
        circuit = withdraw;
        public_inputs = withdraw_inputs k w req parts merkle_root;
        witness = withdraw_witness k w parts merkle_path;
      })
      ≡ ok proof
  pub built : tx ≡ withdraw_tx k w req parts merkle_root proof

module _ (k : Packages) (w : Wallet) (req : WithdrawRequest) (rnd : SealRandom) (now : ℕ) where
  prepare_withdraw-eq-ok :
      {p : WithdrawParts}
      → prepare_withdraw k w req rnd now ≡ ok p
      → IsSpendable w req.amount p.note
        × ((key : Bytes) × (p.note.auditor_pubkey_bytes ≡ some key))
        × (p.nullifier ≡ compute_nullifier k w.spending_key p.note.commitment p.note.leaf_index)
  unfolding prepare_withdraw
  prepare_withdraw-eq-ok {p} h =
      let (n, h0, h) =
        >>=-eq-ok (or_throw no_withdraw_note (find_note w.spent req.amount w.notes)) _ h in
      let (key, h1, h) = >>=-eq-ok (or_throw missing_auditor_key n.auditor_pubkey_bytes) _ h in
      let (_, _, h) = >>=-eq-ok (seal k rnd _ _ _) _ h in
      let (i, stored, fresh, exact) =
        find_note-eq-some w.spent req.amount w.notes (or_throw-eq-ok no_withdraw_note _ h0) in
      subst
        (λ (p : WithdrawParts).
          IsSpendable w req.amount p.note
          × ((key : Bytes) × (p.note.auditor_pubkey_bytes ≡ some key))
          × (p.nullifier ≡ compute_nullifier k w.spending_key p.note.commitment p.note.leaf_index))
        (ok_injective h)
        (
          record { place = i; stored = stored; fresh = fresh; exact = exact },
          (key, or_throw-eq-ok missing_auditor_key _ h1),
          refl,
        )

  -- A proved withdrawal is built only with a fee within the amount, a path of 20 siblings, a
  -- nonempty root and an unspent stored note of exactly the amount whose auditor key is known; its
  -- nullifier is that of the note, and its proof is what the prover returned for the public inputs
  -- and the witness of this very note.
  pub build_withdraw_proved-IsWithdrawal :
      (prover : Prover) {tx : BuiltTx}
      → build_withdraw_proved k w req rnd now prover ≡ ok tx
      → IsWithdrawal k w req prover tx
  unfolding build_withdraw_proved
  build_withdraw_proved-IsWithdrawal prover {tx} h =
      let (_, h0, h) =
        >>=-eq-ok (throw_if (ltb_ℤ req.amount req.relayer_fee) fee_exceeds_amount) _ h in
      let (path, h1, h) = >>=-eq-ok (require_path req.merkle_path) _ h in
      let (root, h2, h) = >>=-eq-ok (require_root req.merkle_root) _ h in
      let (p, h3, h) = >>=-eq-ok (prepare_withdraw k w req rnd now) _ h in
      let (proof, h4, h) = >>=-eq-ok (prover _) _ h in
      let (path_given, path_length) = require_path-eq-ok req.merkle_path h1 in
      let (root_given, root_nonempty) = require_root-eq-ok req.merkle_root h2 in
      let (spendable, key, nullifier) = prepare_withdraw-eq-ok h3 in
      record {
        parts = p;
        merkle_path = path;
        merkle_root = root;
        proof = proof;
        fee_covered = fee_lem req.amount req.relayer_fee (throw_if_true _ fee_exceeds_amount h0);
        path_given = path_given;
        path_length = path_length;
        root_given = root_given;
        root_nonempty = root_nonempty;
        spendable = spendable;
        has_auditor_key = key;
        nullifier = nullifier;
        proved = h4;
        built = cc;
      }
