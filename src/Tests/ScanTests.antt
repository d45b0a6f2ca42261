-- ===== src/Tests/ScanTests.antt =====
-- Scanning and auditing, at concrete inputs.
use mathlib.Core.List.{Memᴰ}
use near_shield.Prelude.{
  list_eq, ◌≡◌, ◌↔◌, refl, arith, All, List, [], ◌∷◌, ◌++◌, length, replicate, none, some, true,
  pos, ok, err, type_error,
}
use near_shield.Js.Text.{Bytes, codes}
use near_shield.Js.Json.{Json, null, num, str, arr, obj, end, field, texts, stringify}
use near_shield.Core.Note.{Note}
use near_shield.Core.Disclosure.{disclosure_json, ViewDisclosure, transfer, encode_disclosure}
use near_shield.Core.Disclosure.Decoding.{IsDisclosure, disclosure_json-IsPlain}
use near_shield.Core.Encrypt.{seal_to, seal_context_view}
use near_shield.Core.Encrypt.Utf8.{utf8}
use near_shield.Js.Json.Keys.{IsPlain}
use near_shield.Core.Scanner.{
  NoteCiphertext, DiscoveredNote, encode_note_payload, decode_note_payload, scan_notes,
}
use near_shield.Core.Scanner.Decoding
use near_shield.Core.Scanner.Decoding.{IsNote, KeyMatches}
use near_shield.Core.Scanner.Discovery
use near_shield.Core.Scanner.Discovery.{IsSound}
use near_shield.Sdk.Wallet.{Wallet, scan}
use near_shield.Sdk.Transfer.Delivery
use near_shield.Auditor.{RawEvent, AuditorIndex, ingest, get_for_user, verify_disclosure}
use near_shield.Auditor.Ingestion
use near_shield.Auditor.Ingestion.{entry, entries}
use near_shield.Auditor.Disputes
use near_shield.Tests.Packages.{toy, toy-SealLaws, toy_doubles}
use near_shield.Tests.SdkTests.{f, value_or, wallet, pay, draws, transfer_parts, prepared}

abbrev small_note : Note
small_note = record { amount = pos 7; owner_pubkey = f 5; auditor_pubkey = f 6; blinding = f 3 }

small_note-IsNote : IsNote small_note
small_note-IsNote = record {
  amount = 7;
  amount_value = refl;
  owner = omega arith;
  auditor = omega arith;
  blinding = omega arith;
}

small_note-KeyMatches : KeyMatches toy small_note none
unfolding KeyMatches
small_note-KeyMatches = tt

decode_note_payload-encode_note_payload_example :
    decode_note_payload toy toy_doubles (encode_note_payload small_note none)
    ≡ some (record { note = small_note; auditor_pubkey_bytes = none })
decode_note_payload-encode_note_payload_example =
    Decoding.decode_note_payload-encode_note_payload toy toy_doubles small_note none
      small_note-IsNote small_note-KeyMatches

-- A wallet that the transfer of the other tests pays.
abbrev payee : Wallet
payee = record wallet {
  viewing_key = record { public_key = replicate 32 6; private_key = replicate 32 6 };
}

abbrev listing : List NoteCiphertext
listing =
    record { leaf_index = 8; sealed = 1 ∷ [] }
    ∷ record { leaf_index = 9; sealed = transfer_parts.note_ct_recipient }
    ∷ []

scan_notes-IsSound_example :
    All (IsSound toy toy_doubles) (scan_notes toy toy_doubles (replicate 32 6) listing)
scan_notes-IsSound_example = Discovery.scan_notes-IsSound toy toy_doubles (replicate 32 6) listing

scan-prepare_transfer_example :
    (d : DiscoveredNote) × Memᴰ d (scan toy toy_doubles payee listing).0.notes
    × (d.leaf_index ≡ 9)
    × (d.note.amount ≡ pos 40)
    × (d.note.owner_pubkey ≡ f 8)
    × (d.commitment ≡ transfer_parts.c_recipient)
    × (d.auditor_pubkey_bytes ≡ some (replicate 32 7))
scan-prepare_transfer_example =
    Delivery.scan-prepare_transfer toy wallet toy_doubles toy-SealLaws pay draws 0 payee prepared
      (omega arith) (omega arith) refl refl 9 listing (Memᴰ.tail (Memᴰ.head refl))

-- An auditor with a disclosure and a blob that holds `null`.
abbrev told : ViewDisclosure
told = record {
  action = transfer;
  sender_owner_pubkey = codes "0x05";
  recipient_owner_pubkey = codes "0x08";
  amounts = codes "40" ∷ [];
  memo = [];
  timestamp = 1700000000;
}

told-IsDisclosure : IsDisclosure told
told-IsDisclosure = record {
  sender = omega arith;
  recipient = omega arith;
  amounts = omega arith;
  memo = tt;
  timestamp = omega arith;
}

abbrev told_blob : Bytes
told_blob = value_or [] (
    seal_to toy (replicate 32 1) (replicate 12 2) (replicate 32 7) (encode_disclosure told)
      seal_context_view)

told_sealed :
    seal_to toy
      (replicate 32 1)
      (replicate 12 2)
      (replicate 32 7)
      (encode_disclosure told)
      seal_context_view
    ≡ ok told_blob
unfolding seal_to
told_sealed = refl

abbrev null_blob : Bytes
null_blob = value_or [] (
    seal_to toy (replicate 32 1) (replicate 12 2) (replicate 32 7) (utf8 (stringify null))
      seal_context_view)

null_sealed :
    seal_to toy
      (replicate 32 1)
      (replicate 12 2)
      (replicate 32 7)
      (utf8 (stringify null))
      seal_context_view
    ≡ ok null_blob
unfolding seal_to
null_sealed = refl

abbrev auditor : AuditorIndex
auditor = record { records = []; private_key = replicate 32 7 }

abbrev event_of : Bytes → RawEvent
event_of blob = record {
  block_height = 12;
  tx_hash = codes "tx";
  action = transfer;
  view_ciphertexts = (1 ∷ []) ∷ blob ∷ [];
}

ingest-entries_example : ingest toy toy_doubles auditor (event_of told_blob ∷ []) ≡ (
  record auditor {
    records = [] ++ entries toy toy_doubles (replicate 32 7) (event_of told_blob ∷ []);
  },
  length (entries toy toy_doubles (replicate 32 7) (event_of told_blob ∷ [])),
)
ingest-entries_example = Ingestion.ingest-entries toy toy_doubles auditor (event_of told_blob ∷ [])

null_value-IsPlain : IsPlain null
unfolding IsPlain
null_value-IsPlain = tt

ingest-seal_to_example :
    Memᴰ
      (entry (event_of null_blob) null)
      (ingest toy toy_doubles auditor (event_of told_blob ∷ event_of null_blob ∷ [])).0.records
ingest-seal_to_example =
    Ingestion.ingest-seal_to toy toy_doubles toy-SealLaws auditor (replicate 32 7) (replicate 32 1)
      (replicate 12 2) null null_value-IsPlain refl refl null_sealed (event_of null_blob)
      (event_of told_blob ∷ event_of null_blob ∷ []) (Memᴰ.tail (Memᴰ.head refl))
      (Memᴰ.tail (Memᴰ.head refl))

-- The data that was sealed, with the action behind the other keys.
abbrev reordered : Json
reordered = obj (
    field (codes "senderOwnerPubkey") (str told.sender_owner_pubkey) (
      field (codes "recipientOwnerPubkey") (str told.recipient_owner_pubkey) (
        field (codes "amounts") (arr (texts told.amounts)) (
          field (codes "memo") (str told.memo) (
            field (codes "timestamp") (num told.timestamp)
              (field (codes "action") (str (codes "transfer")) end))))))

reordered-IsPlain : IsPlain reordered
unfolding IsPlain texts list_eq
reordered-IsPlain = (
  (
    (refl, (refl, (refl, (refl, (refl, tt))))),
    (
      (refl, (refl, (refl, (refl, tt)))),
      ((refl, (refl, (refl, tt))), ((refl, (refl, tt)), ((refl, tt), (tt, tt)))),
    ),
  ),
  (
    omega arith,
    omega arith,
    (
      omega arith,
      omega arith,
      (
        omega arith,
        (omega arith, tt),
        (omega arith, tt, (omega arith, omega arith, (omega arith, omega arith, tt))),
      ),
    ),
  ),
)

verify_disclosure-seal_to_example :
    (verify_disclosure toy toy_doubles auditor told_blob reordered ≡ true)
    ↔ (disclosure_json told ≡ reordered)
verify_disclosure-seal_to_example =
    Disputes.verify_disclosure-seal_to toy toy_doubles toy-SealLaws auditor (replicate 32 7)
      (replicate 32 1) (replicate 12 2) (disclosure_json told) reordered
      (disclosure_json-IsPlain told told-IsDisclosure) reordered-IsPlain refl refl
      (unfold encode_disclosure in told_sealed)

get_for_user-ingest-null_example :
    get_for_user
      (ingest toy toy_doubles auditor (event_of told_blob ∷ event_of null_blob ∷ [])).0
      (codes "0x05")
    ≡ err type_error
get_for_user-ingest-null_example =
    Disputes.get_for_user-ingest-null toy toy_doubles toy-SealLaws auditor (replicate 32 7)
      (replicate 32 1) (replicate 12 2) refl refl null_sealed (event_of null_blob)
      (event_of told_blob ∷ event_of null_blob ∷ []) (Memᴰ.tail (Memᴰ.head refl))
      (Memᴰ.tail (Memᴰ.head refl)) (codes "0x05")
