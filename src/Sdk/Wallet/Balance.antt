-- ===== src/Sdk/Wallet/Balance.antt =====
-- The balance under new notes and under spending.
use near_shield.Prelude.{
  ℕ, ◌≡◌, arith, ◌∙◌, true, false, Bool, Bool-cases, inl, inr, List, [], ◌∷◌, ◌++◌, ◌==◌, ◌||◌, ℤ,
  pos, ◌+ℤ◌, int_laws, if◌then◌else◌,
}
use near_shield.Core.Scanner.{DiscoveredNote}
use near_shield.Sdk.Wallet.{Wallet, has, add, push_notes, mark_spent, balance_from, balance}

-- The amounts of the notes that `keep` selects.
pub total : (DiscoveredNote → Bool) → List DiscoveredNote → ℤ
total keep [] = pos 0
total keep (n ∷ ns) = if keep n then n.note.amount +ℤ total keep ns else total keep ns

abbrev pub unspent : List ℕ → DiscoveredNote → Bool
unspent spent n = if has spent n.leaf_index then false else true

abbrev pub unspent_at : List ℕ → ℕ → DiscoveredNote → Bool
unspent_at spent i n =
    if has spent n.leaf_index then false else if i == n.leaf_index then true else false

balance_from-total :
    (spent : List ℕ) (sum : ℤ) (ns : List DiscoveredNote)
    → balance_from spent sum ns ≡ sum +ℤ total (unspent spent) ns
unfolding balance_from total
balance_from-total spent sum [] = omega int_laws
balance_from-total spent sum (n ∷ ns) = elim (Bool-cases (has spent n.leaf_index)) [
  | inl old ↦ rw old (balance_from-total spent sum ns)
  | inr fresh ↦ rw fresh (balance_from-total spent (sum +ℤ n.note.amount) ns ∙ omega int_laws)
]

has-append : (s : List ℕ) (i j : ℕ) → has (s ++ i ∷ []) j ≡ (has s j || i == j)
unfolding has
has-append [] i j = ground arith
has-append (x ∷ s) i j = ground (arith, has-append s i j)

-- `add` makes its element a member and changes no other.
pub has-add : (s : List ℕ) (i j : ℕ) → has (add s i) j ≡ (has s j || i == j)
unfolding add
has-add s i j = elim (Bool-cases (has s i)) [
  | inl old ↦ rw old (ground arith)
  | inr fresh ↦ rw fresh (has-append s i j)
]

total-add :
    (s : List ℕ) (i : ℕ) (ns : List DiscoveredNote)
    → total (unspent s) ns ≡ total (unspent (add s i)) ns +ℤ total (unspent_at s i) ns
unfolding total
total-add s i [] = omega int_laws
total-add s i (n ∷ ns) = elim (Bool-cases (has s n.leaf_index)) [
  | inl old ↦ rw (has-add s i n.leaf_index, old) (total-add s i ns)
  | inr fresh ↦ elim (Bool-cases (i == n.leaf_index)) [
    | inl here ↦ rw (has-add s i n.leaf_index, fresh, here, total-add s i ns) (omega int_laws)
    | inr other ↦ rw (has-add s i n.leaf_index, fresh, other, total-add s i ns) (omega int_laws)
  ]
]

-- The balance is the sum of the amounts of the notes that are not spent.
balance-total : (w : Wallet) → balance w ≡ pos 0 +ℤ total (unspent w.spent) w.notes
unfolding balance
balance-total w = balance_from-total w.spent (pos 0) w.notes

-- Marking a leaf spent takes the amounts of its unspent notes off the balance, and nothing else.
pub balance-mark_spent :
    (w : Wallet) (i : ℕ)
    → balance w ≡ balance (mark_spent w i) +ℤ total (unspent_at w.spent i) w.notes
unfolding mark_spent
balance-mark_spent w i =
    rw (balance-total w, balance-total (mark_spent w i), total-add w.spent i w.notes)
      (omega int_laws)

total-append :
    (keep : DiscoveredNote → Bool) (ns ms : List DiscoveredNote)
    → total keep (ns ++ ms) ≡ total keep ns +ℤ total keep ms
unfolding total
total-append keep [] ms = omega int_laws
total-append keep (n ∷ ns) ms = elim (Bool-cases (keep n)) [
  | inl kept ↦ rw (kept, total-append keep ns ms) (omega int_laws)
  | inr dropped ↦ rw dropped (total-append keep ns ms)
]

-- Notes that are pushed add their unspent amounts, also where they are pushed a second time.
pub balance-push_notes :
    (w : Wallet) (found : List DiscoveredNote)
    → balance (push_notes w found).0 ≡ balance w +ℤ total (unspent w.spent) found
unfolding push_notes
balance-push_notes w found =
    rw
      (
        balance-total w,
        balance-total (push_notes w found).0,
        total-append (unspent w.spent) w.notes found,
      )
      (omega int_laws)
