-- ===== src/Client/PoolClient/Ingestion.antt =====
-- Ingested logs and the cross-check of sdk/packages/client/src/pool-client.ts.
use near_shield.Prelude.{
  ◌≡◌, ◌↔◌, refl, arith, ap, sym, subst, ◌∙◌, true, false, ◌||◌, Bool-cases, inl, inr, All, List,
  [], ◌∷◌, ◌++◌, length, length-append, ℤ, eqb_ℤ, Result, ok, err, Result-cases, throw_if-not,
  root_drift,
}
use near_shield.Js.Text.{Text}
use near_shield.Js.Json.{Json, str}
use near_shield.Js.Json.Parse.{Doubles}
use near_shield.Js.Json.Access.{is_text-eq-true, is_text-str}
use near_shield.Core.Packages.{Packages}
use near_shield.Core.Field.{Field, to_hex}
use near_shield.Sdk.Transaction.{BuiltTx}
use near_shield.Client.MerkleTree.{append, root, size}
use near_shield.Client.Events.{CommitmentEntry, ParsedShieldedEvents, parse_shielded_events}
use near_shield.Client.Callers.{NearCaller}
use near_shield.Client.PoolClient.{
  PoolClient, EmittedNote, new_client, has_leaf, leaf_of, add_leaf, attempt, afterwards, Outcome,
  ingest_commitments, emitted_notes, ingest, deposit, transfer, merkle_root,
  assert_root_matches_chain,
}

abbrev pub NoRepeat : List ℤ → Type 0
NoRepeat [] = Unit
NoRepeat (i ∷ s) = (has_leaf s i ≡ false) × NoRepeat s

-- One leaf of the tree for each index seen, and no index twice.
pub record IsConsistent (p : PoolClient) : Type 0 where
  pub same_size : length p.seen_leaves ≡ size p.tree
  pub distinct : NoRepeat p.seen_leaves

eqb_ℤ_sym : (i j : ℤ) → eqb_ℤ i j ≡ false → eqb_ℤ j i ≡ false
eqb_ℤ_sym i j h = ground arith

has_leaf-append : (s : List ℤ) (i j : ℤ) → has_leaf (s ++ i ∷ []) j ≡ (has_leaf s j || eqb_ℤ i j)
unfolding has_leaf
has_leaf-append [] i j = ground arith
has_leaf-append (x ∷ s) i j = ground (arith, has_leaf-append s i j)

NoRepeat-append : (s : List ℤ) (i : ℤ) → has_leaf s i ≡ false → NoRepeat s → NoRepeat (s ++ i ∷ [])
unfolding has_leaf
NoRepeat-append [] i h g = (refl, tt)
NoRepeat-append (x ∷ s) i h g = elim (Bool-cases (eqb_ℤ x i)) [
  | inl same ↦ absurd (cc (rw same at h))
  | inr other ↦ (
    rw (has_leaf-append s i x, g.0, eqb_ℤ_sym x i other) refl,
    NoRepeat-append s i (rw other at h) g.1,
  )
]

add_leaf-IsConsistent :
    (p : PoolClient) (i : ℤ) (leaf : Field)
    → has_leaf p.seen_leaves i ≡ false
    → IsConsistent p
    → IsConsistent (add_leaf p i leaf)
unfolding append size
add_leaf-IsConsistent p i leaf h c = record {
  same_size = omega (
    arith,
    c.same_size,
    length-append p.seen_leaves (i ∷ []),
    length-append p.tree.leaves (leaf ∷ []),
  );
  distinct = NoRepeat-append p.seen_leaves i h c.distinct;
}

afterwards-keeps :
    (P : PoolClient → Type 0) {A B : Type 0} (o : Outcome A) (r : Result B)
    → P o.0
    → P (afterwards o (λ p done. (p, r))).0
afterwards-keeps P (p, err e) r h = h
afterwards-keeps P (p, ok a) r h = h

attempt-keeps :
    (P : PoolClient → Type 0) {A B : Type 0} (p : PoolClient) (r : Result A) (next : A → Outcome B)
    → P p
    → ((a : A) → P (next a).0)
    → P (attempt p r next).0
attempt-keeps P p (err e) next h step = h
attempt-keeps P p (ok a) next h step = step a

-- A property of clients that adding an unseen leaf keeps is kept by the loop, also where it throws.
ingest_commitments-keeps :
    (P : PoolClient → Type 0)
    → ((p : PoolClient) (i : ℤ) (leaf : Field)
        → has_leaf p.seen_leaves i ≡ false
        → P p
        → P (add_leaf p i leaf))
    → (p : PoolClient) (cs : List CommitmentEntry) → P p
    → P (ingest_commitments p cs).0
unfolding ingest_commitments
ingest_commitments-keeps P step p [] h = h
ingest_commitments-keeps P step p (c ∷ cs) h =
    elim (Bool-cases (has_leaf p.seen_leaves c.leaf_index)) [
      | inl seen ↦ rw seen (ingest_commitments-keeps P step p cs h)
      | inr unseen ↦ rw unseen (
          attempt-keeps P p (leaf_of c.commitment) _ h (λ leaf.
            ingest_commitments-keeps P step (add_leaf p c.leaf_index leaf) cs
              (step p c.leaf_index leaf unseen h)))
    ]

ingest-IsConsistent :
    (d : Doubles) (p : PoolClient) (logs : List Text)
    → IsConsistent p
    → IsConsistent (ingest d p logs).0
unfolding ingest
ingest-IsConsistent d p logs h =
    attempt-keeps IsConsistent p (parse_shielded_events d logs) _ h (λ ev.
      afterwards-keeps IsConsistent (ingest_commitments p ev.commitments)
        (emitted_notes ev.note_ciphertexts)
        (ingest_commitments-keeps IsConsistent add_leaf-IsConsistent p ev.commitments h))

-- The clients that deposits and transfers lead to, whatever the transport answers.
pub data Reachable (d : Doubles) : PoolClient → Type 0 where
  created : (pool_id token_id : Text) → Reachable d (new_client pool_id token_id)
  deposited :
      (caller : NearCaller) (p : PoolClient) (tx : BuiltTx)
      → Reachable d p
      → Reachable d (deposit d caller p tx).0
  transferred :
      (caller : NearCaller) (p : PoolClient) (tx : BuiltTx)
      → Reachable d p
      → Reachable d (transfer d caller p tx).0

-- After any sequence of deposits and transfers, failed ones included and whatever the logs are, the
-- tree of the client has one leaf for each index seen, and no index was seen twice.
pub Reachable-IsConsistent : (d : Doubles) (p : PoolClient) → Reachable d p → IsConsistent p
unfolding deposit transfer size
Reachable-IsConsistent d p (created pool_id token_id) = record { same_size = refl; distinct = tt }
Reachable-IsConsistent d p (deposited caller q tx r) =
    attempt-keeps IsConsistent q _ _ (Reachable-IsConsistent d q r)
      (λ outcome. ingest-IsConsistent d q outcome.logs (Reachable-IsConsistent d q r))
Reachable-IsConsistent d p (transferred caller q tx r) =
    attempt-keeps IsConsistent q _ _ (Reachable-IsConsistent d q r)
      (λ outcome. ingest-IsConsistent d q outcome.logs (Reachable-IsConsistent d q r))

add_leaf-has_leaf :
    (i : ℤ) (p : PoolClient) (j : ℤ) (leaf : Field)
    → has_leaf p.seen_leaves i ≡ true
    → has_leaf (add_leaf p j leaf).seen_leaves i ≡ true
add_leaf-has_leaf i p j leaf h = rw (has_leaf-append p.seen_leaves j i, h) refl

-- What has been seen stays seen.
ingest_commitments-has_leaf :
    (i : ℤ) (p : PoolClient) (cs : List CommitmentEntry)
    → has_leaf p.seen_leaves i ≡ true
    → has_leaf (ingest_commitments p cs).0.seen_leaves i ≡ true
ingest_commitments-has_leaf i p cs h =
    ingest_commitments-keeps (λ (q : PoolClient). has_leaf q.seen_leaves i ≡ true)
      (λ q j leaf unseen g. add_leaf-has_leaf i q j leaf g) p cs h

-- Entries whose leaves have been seen change nothing.
ingest_commitments-seen :
    (p : PoolClient) (cs : List CommitmentEntry)
    → All (λ c. has_leaf p.seen_leaves c.leaf_index ≡ true) cs
    → ingest_commitments p cs ≡ (p, ok tt)
unfolding ingest_commitments
ingest_commitments-seen p [] h = refl
ingest_commitments-seen p (c ∷ cs) h = rw h.0 (ingest_commitments-seen p cs h.1)

add_leaf-seen :
    (p : PoolClient) (i : ℤ) (leaf : Field) → has_leaf (add_leaf p i leaf).seen_leaves i ≡ true
add_leaf-seen p i leaf = rw (has_leaf-append p.seen_leaves i i) (ground arith)

-- A client that has gone through the entries has seen their leaves.
seen_afterwards :
    (i : ℤ) (p q : PoolClient) (cs : List CommitmentEntry) {r : Result (Unit {0})}
    → ingest_commitments p cs ≡ (q, r)
    → has_leaf p.seen_leaves i ≡ true
    → has_leaf q.seen_leaves i ≡ true
seen_afterwards i p q cs {r} h g =
    subst (λ (o : Outcome (Unit {0})). has_leaf o.0.seen_leaves i ≡ true) h
      (ingest_commitments-has_leaf i p cs g)

ingest_commitments-eq-ok :
    (p q : PoolClient) (cs : List CommitmentEntry)
    → ingest_commitments p cs ≡ (q, ok tt)
    → All (λ c. has_leaf q.seen_leaves c.leaf_index ≡ true) cs
unfolding ingest_commitments
ingest_commitments-eq-ok p q [] h = tt
ingest_commitments-eq-ok p q (c ∷ cs) h = elim (Bool-cases (has_leaf p.seen_leaves c.leaf_index)) [
  | inl seen ↦
      let g : ingest_commitments p cs ≡ (q, ok tt) = rw seen at h in
      (seen_afterwards c.leaf_index p q cs g seen, ingest_commitments-eq-ok p q cs g)
  | inr unseen ↦ elim (Result-cases (leaf_of c.commitment)) [
    | inl (e, bad) ↦ absurd (cc (rw (unseen, bad) at h))
    | inr (leaf, good) ↦
        let g : ingest_commitments (add_leaf p c.leaf_index leaf) cs ≡ (q, ok tt) =
          rw (unseen, good) at h in
        (
          seen_afterwards c.leaf_index (add_leaf p c.leaf_index leaf) q cs g
              (add_leaf-seen p c.leaf_index leaf),
          ingest_commitments-eq-ok (add_leaf p c.leaf_index leaf) q cs g,
        )
  ]
]

-- Logs that have been ingested without an exception can be ingested again: the client stays as it is,
-- and the same note ciphertexts come back.
pub ingest-ingest :
    (d : Doubles) (p q : PoolClient) (logs : List Text) (notes : List EmittedNote)
    → ingest d p logs ≡ (q, ok notes)
    → ingest d q logs ≡ (q, ok notes)
unfolding ingest
ingest-ingest d p q logs notes h = elim (Result-cases (parse_shielded_events d logs)) [
  | inl (e, bad) ↦ absurd (cc (rw bad at h))
  | inr (ev, good) ↦
      let g : afterwards (ingest_commitments p ev.commitments)
            (λ p done. (p, emitted_notes ev.note_ciphertexts))
          ≡ (q, ok notes) =
        rw good at h in
      rw good (again ev (ingest_commitments p ev.commitments) refl g)
]
  where
    again :
        (ev : ParsedShieldedEvents) (o : Outcome (Unit {0}))
        → ingest_commitments p ev.commitments ≡ o
        → afterwards o (λ p done. (p, emitted_notes ev.note_ciphertexts)) ≡ (q, ok notes)
        → afterwards
            (ingest_commitments q ev.commitments)
            (λ p done. (p, emitted_notes ev.note_ciphertexts))
          ≡ (q, ok notes)
    again ev (r, err e) f h = absurd (cc)
    again ev (r, ok done) f h =
        let same : r ≡ q = cc in
        let seen =
          ingest_commitments-eq-ok p q ev.commitments
            (f ∙ ap (λ (x : PoolClient). (x, ok tt)) same) in
        rw (ingest_commitments-seen q ev.commitments seen)
          (ap (λ (x : PoolClient). (x, emitted_notes ev.note_ciphertexts)) (sym same) ∙ h)

-- The cross-check passes exactly if the contract's answer is the text of the local root.
pub assert_root_matches_chain_iff :
    (d : Doubles) (caller : NearCaller) (k : Packages) (p : PoolClient) (chain : Json)
    → merkle_root d caller p ≡ ok chain
    → (assert_root_matches_chain d caller k p ≡ ok tt) ↔ (chain ≡ str (to_hex (root k p.tree)))
unfolding assert_root_matches_chain
assert_root_matches_chain_iff d caller k p chain h = (
  λ g. is_text-eq-true (to_hex (root k p.tree)) chain (throw_if-not _ root_drift (rw h at g)),
  λ e. rw (h, e, is_text-str (to_hex (root k p.tree))) refl,
)
