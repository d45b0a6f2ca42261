-- ===== src/Core/Scanner.antt =====
-- sdk/packages/core/src/scanner.ts: note payloads and the scanner.
pub mod Decoding
pub mod Discovery
use near_shield.Prelude.{
  ℕ, ◌%◌, Bool, not, ◌==◌, Option, none, some, List, [], ◌∷◌, length, if◌then◌else◌, Result, ok,
  ◌>>=◌, ◌>>◌, throw_if, odd_hex,
}
use near_shield.Js.Text.{Text, Bytes, codes, hex_bytes, strip_0x}
use near_shield.Js.Hex.{hex_pairs}
use near_shield.Js.Numerals.{bigint_text}
use near_shield.Js.Json.{Json, str, obj, Fields, end, field, stringify}
use near_shield.Js.Json.Parse.{Doubles, parse}
use near_shield.Js.Json.Access.{property, bigint_of, text_of, is_truthy}
use near_shield.Core.Packages.{Packages}
use near_shield.Core.Field.{Field, to_hex, from_hex, equals}
use near_shield.Core.Note.{Note, commit_note, auditor_pubkey_to_field}
use near_shield.Core.Encrypt.{open_sealed, or_null, seal_context_note}
use near_shield.Core.Encrypt.Utf8.{utf8}
use near_shield.Core.Encrypt.TextDecoder.{decode_utf8}

pub record NoteCiphertext : Type 0 where
  pub leaf_index : ℕ
  pub sealed : Bytes

pub record DiscoveredNote : Type 0 where
  pub leaf_index : ℕ
  pub note : Note
  pub commitment : Field
  pub auditor_pubkey_bytes : Option Bytes

-- The property that is added at the end if the key bytes are given.
unfoldable pub auditor_bytes_field : Option Bytes → Fields
auditor_bytes_field none = end
auditor_bytes_field (some b) = field (codes "auditorPubkeyBytes") (str (hex_bytes b)) end

-- The object that is printed.
unfoldable pub payload_json : Note → Option Bytes → Json
payload_json n auditor_pubkey_bytes = obj (
    field (codes "amount") (str (bigint_text n.amount)) (
      field (codes "ownerPubkey") (str (to_hex n.owner_pubkey)) (
        field (codes "auditorPubkey") (str (to_hex n.auditor_pubkey)) (
          field (codes "blinding") (str (to_hex n.blinding))
            (auditor_bytes_field auditor_pubkey_bytes)))))

unfoldable pub encode_note_payload : Note → Option Bytes → Bytes
encode_note_payload n auditor_pubkey_bytes = utf8 (stringify (payload_json n auditor_pubkey_bytes))

pub record DecodedNotePayload : Type 0 where
  pub note : Note
  pub auditor_pubkey_bytes : Option Bytes

unfoldable pub bytes_from_hex : Text → Result Bytes
bytes_from_hex s = do
  let t = strip_0x s
  throw_if (not (length t % 2 == 0)) odd_hex
  ok (hex_pairs t)

-- `Field.fromHex(p.k)`; a value that is no text has no `startsWith`.
unfoldable pub field_of : Text → Json → Result Field
field_of k p = do v ← property k p; s ← text_of v; from_hex s

-- `v ? bytesFromHex(v) : undefined`
unfoldable pub bytes_of : Option Json → Result (Option Bytes)
bytes_of v =
    let given = (do s ← text_of v; b ← bytes_from_hex s; ok (some b)) in
    if is_truthy v then given else ok none

module _ (k : Packages) where
  -- The test of the key bytes against the note, and the last `return`; any byte array is truthy.
  unfoldable pub check_key : Note → Option Bytes → Result (Option DecodedNotePayload)
  check_key note none = ok (some (record { note = note; auditor_pubkey_bytes = none }))
  check_key note (some b) = do
    f ← auditor_pubkey_to_field k b
    ok (
        if equals f note.auditor_pubkey
        then some (record { note = note; auditor_pubkey_bytes = some b })
        else none)

  module _ (doubles : Doubles) where
    -- The body of the `try` block.
    unfoldable pub try_decode_note_payload : Bytes → Result (Option DecodedNotePayload)
    try_decode_note_payload b = do
      p ← parse doubles (decode_utf8 b)
      amount_value ← property (codes "amount") p
      amount ← bigint_of doubles amount_value
      owner_pubkey ← field_of (codes "ownerPubkey") p
      auditor_pubkey ← field_of (codes "auditorPubkey") p
      blinding ← field_of (codes "blinding") p
      bytes_value ← property (codes "auditorPubkeyBytes") p
      auditor_pubkey_bytes ← bytes_of bytes_value
      check_key
          (record {
            amount = amount;
            owner_pubkey = owner_pubkey;
            auditor_pubkey = auditor_pubkey;
            blinding = blinding;
          })
          auditor_pubkey_bytes

    unfoldable pub decode_note_payload : Bytes → Option DecodedNotePayload
    decode_note_payload b = or_null (try_decode_note_payload b)

    abbrev pub discovered : NoteCiphertext → DecodedNotePayload → DiscoveredNote
    discovered ct payload = record {
      leaf_index = ct.leaf_index;
      note = payload.note;
      commitment = commit_note k payload.note;
      auditor_pubkey_bytes = payload.auditor_pubkey_bytes;
    }

    -- `if (!plain) continue;` and `if (!payload) continue;`
    unfoldable pub scan_note : Bytes → NoteCiphertext → Option DiscoveredNote
    scan_note viewing_private_key ct =
        elim (open_sealed k viewing_private_key ct.sealed seal_context_note) [
          | none ↦ none
          | some plain ↦ elim (decode_note_payload plain) [
            | none ↦ none
            | some payload ↦ some (discovered ct payload)
          ]
        ]

    abbrev pub push_found : Option DiscoveredNote → List DiscoveredNote → List DiscoveredNote
    push_found none ns = ns
    push_found (some n) ns = n ∷ ns

    unfoldable pub scan_notes : Bytes → List NoteCiphertext → List DiscoveredNote
    scan_notes viewing_private_key [] = []
    scan_notes viewing_private_key (ct ∷ cts) =
        push_found (scan_note viewing_private_key ct) (scan_notes viewing_private_key cts)
