-- ===== src/Client/Events/Order.antt =====
-- The order of the entries that sdk/packages/client/src/events.ts gives.
use near_shield.Prelude.{
  ◌≡◌, refl, arith, ap, ◌∙◌, true, false, Bool-cases, inl, inr, All, List, [], ◌∷◌, if◌then◌else◌,
  ℤ, ltb_ℤ, ◌≤ℤ◌, eqb_ℤ, ok, ok_injective, >>=-eq-ok, subst,
}
use near_shield.Js.Text.{Text}
use near_shield.Js.Json.Parse.{Doubles}
use near_shield.Client.Events.{
  CommitmentEntry, NoteCiphertextEntry, ParsedShieldedEvents, no_events, insert, sort, log_entries,
  parse_shielded_events,
}

module _ {A : Type 0} (key : A → ℤ) where
  abbrev pub Ascending : List A → Type 0
  Ascending [] = Unit
  Ascending (a ∷ xs) = All (λ b. key a ≤ℤ key b) xs × Ascending xs

  -- The elements with one key.
  abbrev pub at_key : ℤ → List A → List A
  at_key i [] = []
  at_key i (a ∷ xs) = if eqb_ℤ (key a) i then a ∷ at_key i xs else at_key i xs

  All-insert : (P : A → Type 0) (a : A) (xs : List A) → P a → All P xs → All P (insert key a xs)
  unfolding insert
  All-insert P a [] h g = (h, g)
  All-insert P a (b ∷ bs) h g = elim (Bool-cases (ltb_ℤ (key b) (key a))) [
    | inl less ↦ rw less (g.0, All-insert P a bs h g.1)
    | inr more ↦ rw more (h, g)
  ]

  All-below : (i j : ℤ) (xs : List A) → i ≤ℤ j → All (λ b. j ≤ℤ key b) xs → All (λ b. i ≤ℤ key b) xs
  All-below i j [] h g = tt
  All-below i j (a ∷ xs) h g = (omega (arith, g.0), All-below i j xs h g.1)

  Ascending-insert : (a : A) (xs : List A) → Ascending xs → Ascending (insert key a xs)
  unfolding insert
  Ascending-insert a [] h = (tt, tt)
  Ascending-insert a (b ∷ bs) h = elim (Bool-cases (ltb_ℤ (key b) (key a))) [
    | inl less ↦
        rw less
          (All-insert (λ c. key b ≤ℤ key c) a bs (ground arith) h.0, Ascending-insert a bs h.1)
    | inr more ↦
        let le : key a ≤ℤ key b = ground arith in
        rw more ((le, All-below (key a) (key b) bs le h.0), h)
  ]

  pub Ascending-sort : (xs : List A) → Ascending (sort key xs)
  unfolding sort
  Ascending-sort [] = tt
  Ascending-sort (a ∷ xs) = Ascending-insert a (sort key xs) (Ascending-sort xs)

  another_key : (j l i : ℤ) → ltb_ℤ j l ≡ true → eqb_ℤ j i ≡ true → eqb_ℤ l i ≡ false
  another_key j l i h g = ground arith

  at_key-insert : (i : ℤ) (a : A) (xs : List A) → at_key i (insert key a xs) ≡ at_key i (a ∷ xs)
  unfolding insert
  at_key-insert i a [] = refl
  at_key-insert i a (b ∷ bs) = elim (Bool-cases (ltb_ℤ (key b) (key a))) [
    | inl less ↦
        rw (less, at_key-insert i a bs)
          (elim (Bool-cases (eqb_ℤ (key b) i)) [
            | inl here ↦ rw (here, another_key (key b) (key a) i less here) refl
            | inr other ↦ rw other refl
          ])
    | inr more ↦ rw more refl
  ]

  pub at_key-sort : (i : ℤ) (xs : List A) → at_key i (sort key xs) ≡ at_key i xs
  unfolding sort
  at_key-sort i [] = refl
  at_key-sort i (a ∷ xs) =
      at_key-insert i a (sort key xs)
      ∙ ap (λ (bs : List A). if eqb_ℤ (key a) i then a ∷ bs else bs) (at_key-sort i xs)

-- The entries of the logs, sorted: ascending by leaf index, and for every index the entries with it
-- in the order of the logs.
pub record IsReading (d : Doubles) (logs : List Text) (ev : ParsedShieldedEvents) : Type 0 where
  pub raw : ParsedShieldedEvents
  pub read : log_entries d logs no_events ≡ ok raw
  pub commitments_ascend : Ascending (λ (c : CommitmentEntry). c.leaf_index) ev.commitments
  pub ciphertexts_ascend : Ascending (λ (n : NoteCiphertextEntry). n.leaf_index) ev.note_ciphertexts
  pub commitments_kept :
      (i : ℤ)
      → at_key (λ (c : CommitmentEntry). c.leaf_index) i ev.commitments
        ≡ at_key (λ (c : CommitmentEntry). c.leaf_index) i raw.commitments
  pub ciphertexts_kept :
      (i : ℤ)
      → at_key (λ (n : NoteCiphertextEntry). n.leaf_index) i ev.note_ciphertexts
        ≡ at_key (λ (n : NoteCiphertextEntry). n.leaf_index) i raw.note_ciphertexts

-- When the logs are read, both results ascend by leaf index and hold, for every index, the entries of
-- the logs with that index in the order of the logs.
pub parse_shielded_events-IsReading :
    (d : Doubles) (logs : List Text) {ev : ParsedShieldedEvents}
    → parse_shielded_events d logs ≡ ok ev
    → IsReading d logs ev
unfolding parse_shielded_events
parse_shielded_events-IsReading d logs h =
    let (raw, h0, h1) = >>=-eq-ok (log_entries d logs no_events) _ h in
    subst (λ (ev : ParsedShieldedEvents). IsReading d logs ev) (ok_injective h1)
      (record {
        raw = raw;
        read = h0;
        commitments_ascend = Ascending-sort _ raw.commitments;
        ciphertexts_ascend = Ascending-sort _ raw.note_ciphertexts;
        commitments_kept = λ i. at_key-sort _ i raw.commitments;
        ciphertexts_kept = λ i. at_key-sort _ i raw.note_ciphertexts;
      })
