-- ===== src/Sdk/Wallet/Selection.antt =====
-- What the note selection of transfers and withdrawals returns, and when it returns nothing.
use near_shield.Prelude.{
  ℕ, suc, ◌<◌, ◌≡◌, refl, arith, ap, ◌↔◌, sym, subst, zero, ◌⊎◌, inl, inr, Bool, true, false,
  Bool-cases, Option, none, some, List, [], ◌∷◌, get_elem?, list_eq_iff, not, ◌||◌, ℤ, ◌+ℤ◌, ◌≤ℤ◌,
  ltb_ℤ, if◌then◌else◌,
}
use near_shield.Js.Text.{Bytes}
use near_shield.Core.Field.Laws.{equals_iff}
use near_shield.Core.Scanner.{DiscoveredNote}
use near_shield.Sdk.Wallet.{has, same_bytes, covers, find_partner, find_inputs}

-- Two notes that may pay `amount` together.
pub record IsPair (spent : List ℕ) (amount : ℤ) (a b : DiscoveredNote) : Type 0 where
  pub fresh_a : has spent a.leaf_index ≡ false
  pub fresh_b : has spent b.leaf_index ≡ false
  pub same_auditor : a.note.auditor_pubkey ≡ b.note.auditor_pubkey
  pub key : Bytes
  pub key_a : a.auditor_pubkey_bytes ≡ some key
  pub key_b : b.auditor_pubkey_bytes ≡ some key
  pub enough : amount ≤ℤ a.note.amount +ℤ b.note.amount

same_bytes-eq-true :
    (a b : Option Bytes) → same_bytes a b ≡ true → (key : Bytes) × (a ≡ some key) × (b ≡ some key)
unfolding same_bytes
same_bytes-eq-true none b h = absurd (cc h)
same_bytes-eq-true (some a) none h = absurd (cc h)
same_bytes-eq-true (some a) (some b) h = (a, refl, ap some (ground (arith, list_eq_iff a b)))

same_bytes_self : (a : Bytes) → same_bytes (some a) (some a) ≡ true
unfolding same_bytes
same_bytes_self a = ground (arith, list_eq_iff a a)

not-ltb_ℤ : (a b : ℤ) → (not (ltb_ℤ a b) ≡ true) ↔ (b ≤ℤ a)
not-ltb_ℤ a b = (λ h. ground arith, λ h. ground arith)

-- The tests of `covers` from what they test.
covers_lem :
    (s t u v w : Bool)
    → (if s || t then false else if not u then false else if not v then false else w) ≡ true
    → (s ≡ false) × (t ≡ false) × (u ≡ true) × (v ≡ true) × (w ≡ true)
covers_lem s t u v w h = ground arith

covers-IsPair :
    (spent : List ℕ) (amount : ℤ) (a b : DiscoveredNote)
    → covers spent amount a b ≡ true
    → IsPair spent amount a b
unfolding covers
covers-IsPair spent amount a b h =
    let (fresh_a, fresh_b, same, bytes, enough) = covers_lem _ _ _ _ _ h in
    let (key, key_a, key_b) =
      same_bytes-eq-true a.auditor_pubkey_bytes b.auditor_pubkey_bytes bytes in
    record {
      fresh_a = fresh_a;
      fresh_b = fresh_b;
      same_auditor = (equals_iff _ _).0 same;
      key = key;
      key_a = key_a;
      key_b = key_b;
      enough = (not-ltb_ℤ (a.note.amount +ℤ b.note.amount) amount).0 enough;
    }

IsPair-covers :
    (spent : List ℕ) (amount : ℤ) (a b : DiscoveredNote)
    → IsPair spent amount a b
    → covers spent amount a b ≡ true
unfolding covers
IsPair-covers spent amount a b p =
    rw
      (
        p.fresh_a,
        p.fresh_b,
        (equals_iff a.note.auditor_pubkey b.note.auditor_pubkey).1 p.same_auditor,
        p.key_a,
        p.key_b,
        same_bytes_self p.key,
      )
      ((not-ltb_ℤ (a.note.amount +ℤ b.note.amount) amount).1 p.enough)

-- The partner of a note, with its place.
find_partner_cases :
    (spent : List ℕ) (amount : ℤ) (a : DiscoveredNote) (ns : List DiscoveredNote)
    → ((b : DiscoveredNote) × (j : ℕ) × (find_partner spent amount a ns ≡ some b)
        × (get_elem? ns j ≡ some b)
        × (covers spent amount a b ≡ true))
      ⊎ ((find_partner spent amount a ns ≡ none)
          × ((j : ℕ) (b : DiscoveredNote)
              → get_elem? ns j ≡ some b
              → covers spent amount a b ≡ false))
unfolding find_partner
find_partner_cases spent amount a [] = inr (refl, λ j b h. absurd (cc h))
find_partner_cases spent amount a (b ∷ ns) = elim (Bool-cases (covers spent amount a b)) [
  | inl fits ↦ inl (b, 0, rw fits refl, refl, fits)
  | inr misfits ↦ elim (find_partner_cases spent amount a ns) [
    | inl (c, j, found, place, fits) ↦ inl (c, suc j, rw misfits found, place, fits)
    | inr (missing, none_fits) ↦ inr (rw misfits missing, later misfits none_fits)
  ]
]
  where
    later :
        covers spent amount a b ≡ false
        → ((j : ℕ) (c : DiscoveredNote) → get_elem? ns j ≡ some c → covers spent amount a c ≡ false)
        → (j : ℕ) (c : DiscoveredNote) → get_elem? (b ∷ ns) j ≡ some c
        → covers spent amount a c ≡ false
    later misfits none_fits zero c h =
        let e : b ≡ c = cc in subst (λ d. covers spent amount a d ≡ false) e misfits
    later misfits none_fits (suc j) c h = none_fits j c h

-- `findTransferInputs` returns two notes at different places that are unspent, share the auditor
-- and its key, and cover the amount; if it returns null, no two notes of the wallet do.
pub find_inputs_cases :
    (spent : List ℕ) (amount : ℤ) (ns : List DiscoveredNote)
    → ((a b : DiscoveredNote) × (i : ℕ) × (j : ℕ) × (find_inputs spent amount ns ≡ some (a, b))
        × (i < j)
        × (get_elem? ns i ≡ some a)
        × (get_elem? ns j ≡ some b)
        × IsPair spent amount a b)
      ⊎ ((find_inputs spent amount ns ≡ none)
          × ((i j : ℕ) (a b : DiscoveredNote)
              → i < j
              → get_elem? ns i ≡ some a
              → get_elem? ns j ≡ some b
              → ¬ IsPair spent amount a b))
unfolding find_inputs
find_inputs_cases spent amount [] = inr (refl, λ i j a b lt h g. absurd (cc h))
find_inputs_cases spent amount (a ∷ ns) = elim (find_partner_cases spent amount a ns) [
  | inl (b, j, found, place, fits) ↦ inl (
    a,
    b,
    0,
    suc j,
    rw (found, find_inputs) refl,
    omega arith,
    refl,
    place,
    covers-IsPair spent amount a b fits,
  )
  | inr (missing, misfits) ↦ elim (find_inputs_cases spent amount ns) [
    | inl (c, d, i, j, found, lt, first, second, pair) ↦
        inl (c, d, suc i, suc j, rw (missing, find_inputs) found, omega arith, first, second, pair)
    | inr (nothing, no_pair) ↦ inr (rw (missing, find_inputs) nothing, later misfits no_pair)
  ]
]
  where
    later :
        ((j : ℕ) (b : DiscoveredNote) → get_elem? ns j ≡ some b → covers spent amount a b ≡ false)
        → ((i j : ℕ) (c d : DiscoveredNote)
            → i < j
            → get_elem? ns i ≡ some c
            → get_elem? ns j ≡ some d
            → ¬ IsPair spent amount c d)
        → (i j : ℕ) (c d : DiscoveredNote) → i < j
        → get_elem? (a ∷ ns) i ≡ some c
        → get_elem? (a ∷ ns) j ≡ some d
        → ¬ IsPair spent amount c d
    later misfits no_pair i zero c d lt h g p = absurd (omega arith)
    later misfits no_pair zero (suc j) c d lt h g p =
        let e : a ≡ c = cc in
        cc (
          misfits j d g,
          IsPair-covers spent amount a d (subst (λ x. IsPair spent amount x d) (sym e) p),
        )
    later misfits no_pair (suc i) (suc j) c d lt h g p = no_pair i j c d (omega arith) h g p
