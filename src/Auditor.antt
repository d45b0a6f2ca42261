-- ===== src/Auditor.antt =====
-- sdk/packages/auditor/src/indexer.ts: the auditor's index of decrypted disclosures.
pub mod Ingestion
pub mod Disputes
use near_shield.Prelude.{
  ℕ, suc, Bool, false, not, ◌||◌, ◌==◌, Option, none, some, List, [], ◌∷◌, ◌++◌, length, list_eq,
  if◌then◌else◌, Result, ok, err, ◌>>=◌, ◌>>◌, throw_if, auditor_private_key_length,
}
use near_shield.Js.Text.{Text, Bytes, codes}
use near_shield.Js.Json.{Json, stringify}
use near_shield.Js.Json.Parse.{Doubles}
use near_shield.Js.Json.Access.{property, is_text}
use near_shield.Core.Packages.{Packages}
use near_shield.Core.Encrypt.{open_sealed, seal_context_view}
use near_shield.Core.Disclosure.{Action, ViewDisclosure, disclosure_json, decode_disclosure}

pub record RawEvent : Type 0 where
  pub block_height : ℕ
  pub tx_hash : Text
  pub action : Action
  pub view_ciphertexts : List Bytes

-- `disclosure` is what the decoder returned, which is cast and not checked.
pub record DecryptedRecord : Type 0 where
  pub block_height : ℕ
  pub tx_hash : Text
  pub disclosure : Json

pub record AuditorIndex : Type 0 where
  pub records : List DecryptedRecord
  pub private_key : Bytes

unfoldable pub new_index : Bytes → Result AuditorIndex
new_index private_key = do
  throw_if (not (length private_key == 32)) auditor_private_key_length
  ok (record { records = []; private_key = private_key })

-- `this.records.push(...)` and `added++`, unless the decoder threw.
abbrev pub push_record : RawEvent → Result Json → AuditorIndex × ℕ → AuditorIndex × ℕ
push_record ev (err e) state = state
push_record ev (ok v) (i, added) = (
  record i {
    records =
        i.records
        ++ record { block_height = ev.block_height; tx_hash = ev.tx_hash; disclosure = v } ∷ [];
  },
  suc added,
)

-- `r.disclosure.senderOwnerPubkey === owner || r.disclosure.recipientOwnerPubkey === owner`
unfoldable pub is_party : Text → DecryptedRecord → Result Bool
is_party owner r = do
  sender ← property (codes "senderOwnerPubkey") r.disclosure
  recipient ← property (codes "recipientOwnerPubkey") r.disclosure
  ok (is_text owner sender || is_text owner recipient)

-- `filter` with a test that may throw.
unfoldable pub filter_records : Text → List DecryptedRecord → Result (List DecryptedRecord)
filter_records owner [] = ok []
filter_records owner (r ∷ rs) = do
  keep ← is_party owner r
  rest ← filter_records owner rs
  ok (if keep then r ∷ rest else rest)

unfoldable pub get_for_user : AuditorIndex → Text → Result (List DecryptedRecord)
get_for_user i owner = filter_records owner i.records

unfoldable pub get_all : AuditorIndex → List DecryptedRecord
get_all i = i.records

module _ (k : Packages) (doubles : Doubles) where
  -- One turn of the inner loop.
  unfoldable pub ingest_ciphertext : RawEvent → Bytes → AuditorIndex × ℕ → AuditorIndex × ℕ
  ingest_ciphertext ev ct state = elim (open_sealed k state.0.private_key ct seal_context_view) [
    | none ↦ state
    | some plain ↦ push_record ev (decode_disclosure doubles plain) state
  ]

  unfoldable pub ingest_event : RawEvent → List Bytes → AuditorIndex × ℕ → AuditorIndex × ℕ
  ingest_event ev [] state = state
  ingest_event ev (ct ∷ cts) state = ingest_event ev cts (ingest_ciphertext ev ct state)

  unfoldable pub ingest_events : List RawEvent → AuditorIndex × ℕ → AuditorIndex × ℕ
  ingest_events [] state = state
  ingest_events (ev ∷ evs) state = ingest_events evs (ingest_event ev ev.view_ciphertexts state)

  unfoldable pub ingest : AuditorIndex → List RawEvent → AuditorIndex × ℕ
  ingest i events = ingest_events events (i, 0)

  -- `JSON.stringify` prints the expected object with the keys it has, in their order: the type of a
  -- disclosure, which is erased, fixes neither.
  abbrev pub same_text : Json → Result Json → Bool
  same_text expected (err e) = false
  same_text expected (ok got) = list_eq (stringify got) (stringify expected)

  unfoldable pub verify_disclosure : AuditorIndex → Bytes → Json → Bool
  verify_disclosure i ct expected = elim (open_sealed k i.private_key ct seal_context_view) [
    | none ↦ false
    | some plain ↦ same_text expected (decode_disclosure doubles plain)
  ]
