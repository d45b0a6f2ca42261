-- ===== src/Client/PoolClient.antt =====
-- sdk/packages/client/src/pool-client.ts: the client of the pool, its tree and the leaves it has seen.
pub mod Ingestion
use near_shield.Prelude.{
  ℕ, ◌%◌, ◌==◌, not, Bool, false, ◌||◌, Option, none, some, List, [], ◌∷◌, ◌++◌, length, list_eq,
  if◌then◌else◌, ℤ, pos, pos_part, eqb_ℤ, Result, ok, err, ◌>>=◌, ◌>>◌, throw_if, odd_hex,
  root_drift,
}
use near_shield.Js.Text.{Text, Bytes, codes, strip_0x}
use near_shield.Js.BigInt.{to_bigint}
use near_shield.Js.Hex.{hex_pairs}
use near_shield.Js.Json.{Json, Fields}
use near_shield.Js.Json.Parse.{Doubles}
use near_shield.Js.Json.Access.{text_of, is_text}
use near_shield.Core.Packages.{Packages}
use near_shield.Core.Field.{Field, from_hex, to_hex}
use near_shield.Sdk.Transaction.{BuiltTx}
use near_shield.Sdk.Envelopes.{to_ft_transfer_call_args, to_transfer_call}
use near_shield.Client.MerkleTree.{MerkleTree, empty, append, root, path_for}
use near_shield.Client.Events.{
  CommitmentEntry, NoteCiphertextEntry, ParsedShieldedEvents, parse_shielded_events,
}
use near_shield.Client.Callers.{NearCaller}

-- `seen_leaves` is a set.
pub record PoolClient : Type 0 where
  pub tree : MerkleTree
  pub seen_leaves : List ℤ
  pub pool_id : Text
  pub token_id : Text

abbrev pub new_client : Text → Text → PoolClient
new_client pool_id token_id = record {
  tree = empty;
  seen_leaves = [];
  pool_id = pool_id;
  token_id = token_id;
}

-- A note ciphertext as the client hands it on.
pub record EmittedNote : Type 0 where
  pub leaf_index : ℤ
  pub sealed : Bytes

-- `this.seenLeaves.has(leafIndex)`
unfoldable pub has_leaf : List ℤ → ℤ → Bool
has_leaf [] i = false
has_leaf (j ∷ s) i = eqb_ℤ j i || has_leaf s i

unfoldable pub hex_to_bytes : Text → Result Bytes
hex_to_bytes h = do let s = strip_0x h; throw_if (not (length s % 2 == 0)) odd_hex; ok (hex_pairs s)

-- The end of a round of the loop: the leaf is appended and its index added.
abbrev pub add_leaf : PoolClient → ℤ → Field → PoolClient
add_leaf p leaf_index leaf = record p {
  tree = (append p.tree leaf).0;
  seen_leaves = p.seen_leaves ++ leaf_index ∷ [];
}

-- What a caught or uncaught exception leaves behind: the client as it was then.
abbrev pub Outcome : Type 0 → Type 0
Outcome A = PoolClient × Result A

-- The statements after one that may throw and does not change the client.
abbrev pub attempt : {A B : Type 0} → PoolClient → Result A → (A → Outcome B) → Outcome B
attempt p (err e) next = (p, err e)
attempt p (ok a) next = next a

-- The statements after those of a method.
abbrev pub afterwards : {A B : Type 0} → Outcome A → (PoolClient → A → Outcome B) → Outcome B
afterwards (p, err e) next = (p, err e)
afterwards (p, ok a) next = next p a

-- `Field.fromHex(commitment)`
unfoldable pub leaf_of : Option Json → Result Field
leaf_of v = do s ← text_of v; from_hex s

-- The loop of `ingest`.
unfoldable pub ingest_commitments : PoolClient → List CommitmentEntry → Outcome (Unit {0})
ingest_commitments p [] = (p, ok tt)
ingest_commitments p (c ∷ cs) =
    let skipped = ingest_commitments p cs in
    let added =
      attempt p (leaf_of c.commitment)
        (λ leaf. ingest_commitments (add_leaf p c.leaf_index leaf) cs) in
    if has_leaf p.seen_leaves c.leaf_index then skipped else added

-- `map` with `hexToBytes`
unfoldable pub emitted_notes : List NoteCiphertextEntry → Result (List EmittedNote)
emitted_notes [] = ok []
emitted_notes (n ∷ ns) = do
  h ← text_of n.note_ct_hex
  sealed ← hex_to_bytes h
  notes ← emitted_notes ns
  ok (record { leaf_index = n.leaf_index; sealed = sealed } ∷ notes)

unfoldable pub ingest : Doubles → PoolClient → List Text → Outcome (List EmittedNote)
ingest d p logs = attempt p (parse_shielded_events d logs) (λ ev.
    afterwards (ingest_commitments p ev.commitments)
      (λ p done. (p, emitted_notes ev.note_ciphertexts)))

module _ (d : Doubles) (caller : NearCaller) where
  -- `BigInt(call.gas)`, the gas of an envelope.
  abbrev pub gas_of : Text → Result ℕ
  gas_of t = do v ← to_bigint t; ok (pos_part v)

  unfoldable pub deposit : PoolClient → BuiltTx → Outcome (List EmittedNote)
  deposit p tx =
      attempt p
        (do
          call ← to_ft_transfer_call_args tx p.token_id p.pool_id
          gas ← gas_of call.gas
          caller.call call.contract_id call.method_name call.args
              (record { gas = some gas; attached_deposit = some 1 }))
        (λ outcome. ingest d p outcome.logs)

  unfoldable pub transfer : PoolClient → BuiltTx → Outcome (List EmittedNote)
  transfer p tx =
      attempt p
        (do
          call ← to_transfer_call tx p.pool_id
          gas ← gas_of call.gas
          attached_deposit ← gas_of call.attached_deposit
          caller.call call.contract_id call.method_name call.args
              (record { gas = some gas; attached_deposit = some attached_deposit }))
        (λ outcome. ingest d p outcome.logs)

  unfoldable pub merkle_root : PoolClient → Result Json
  merkle_root p = caller.view p.pool_id (codes "merkle_root")

  -- `local !== chain`, where `chain` is cast to a string.
  unfoldable pub assert_root_matches_chain : Packages → PoolClient → Result (Unit {0})
  assert_root_matches_chain k p = do
    chain ← merkle_root p
    throw_if (not (is_text (to_hex (root k p.tree)) (some chain))) root_drift

unfoldable pub texts_of : List Field → List Text
texts_of [] = []
texts_of (f ∷ fs) = to_hex f ∷ texts_of fs

unfoldable pub client_path_for : Packages → PoolClient → ℕ → Result (List Text)
client_path_for k p leaf_index = do path ← path_for k p.tree leaf_index; ok (texts_of path)
