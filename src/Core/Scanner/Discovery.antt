-- ===== src/Core/Scanner/Discovery.antt =====
-- The notes of a scan (sdk/packages/core/src/scanner.ts).
use mathlib.Core.List.{Memᴰ}
use near_shield.Prelude.{
  ℕ, ◌≡◌, refl, ap, subst, ◌∙◌, Bool-cases, All, List, [], ◌∷◌, length, Option, none, some, ok, inl,
  inr, >>=-eq-ok,
}
use near_shield.Js.Text.{Bytes, codes}
use near_shield.Js.Json.Parse.{Doubles, parse}
use near_shield.Js.Json.Access.{property, bigint_of}
use near_shield.Core.Encrypt.TextDecoder.{decode_utf8}
use near_shield.Core.Packages.{Packages, SealLaws}
use near_shield.Core.Field.{equals}
use near_shield.Core.Field.Laws.{equals_iff}
use near_shield.Core.Note.{Note, commit_note, auditor_pubkey_to_field}
use near_shield.Core.Encrypt.{seal_to, open_sealed, or_null-eq-some, seal_context_note}
use near_shield.Core.Encrypt.Seal.{open_sealed-seal_to}
use near_shield.Core.Scanner.{
  NoteCiphertext, DiscoveredNote, DecodedNotePayload, encode_note_payload, decode_note_payload,
  try_decode_note_payload, check_key, discovered, field_of, bytes_of, scan_note, push_found,
  scan_notes,
}
use near_shield.Core.Scanner.Decoding.{IsNote, KeyMatches, decode_note_payload-encode_note_payload}

-- The discovery of a note at a leaf.
abbrev pub discovery : Packages → ℕ → Note → Option Bytes → DiscoveredNote
discovery k i n o = record {
  leaf_index = i;
  note = n;
  commitment = commit_note k n;
  auditor_pubkey_bytes = o;
}

module _ (k : Packages) (doubles : Doubles) where
  scan_note-seal_to :
      SealLaws k
      → (priv recipient eph nonce : Bytes) (n : Note) (o : Option Bytes) (ct : NoteCiphertext)
      → IsNote n
      → KeyMatches k n o
      → k.get_public_key priv ≡ ok recipient
      → length nonce ≡ 12
      → seal_to k eph nonce recipient (encode_note_payload n o) seal_context_note ≡ ok ct.sealed
      → scan_note k doubles priv ct ≡ some (discovery k ct.leaf_index n o)
  unfolding scan_note
  scan_note-seal_to laws priv recipient eph nonce n o ct v m hp hn h =
      rw
        (
          scan_note,
          open_sealed-seal_to k laws priv recipient eph nonce (encode_note_payload n o)
              seal_context_note hp hn h,
          decode_note_payload-encode_note_payload k doubles n o v m,
        )
        refl

  Mem-push_found :
      (a : DiscoveredNote) (o : Option DiscoveredNote) (ns : List DiscoveredNote)
      → Memᴰ a ns
      → Memᴰ a (push_found k doubles o ns)
  Mem-push_found a none ns m = m
  Mem-push_found a (some n) ns m = Memᴰ.tail m

  -- A note that is sealed for a viewing key is discovered by a scan with it, with its commitment and
  -- its leaf index, whatever else stands in the list.
  pub scan_notes-seal_to :
      SealLaws k
      → (priv recipient eph nonce : Bytes) (n : Note) (o : Option Bytes) (ct : NoteCiphertext)
      → IsNote n
      → KeyMatches k n o
      → k.get_public_key priv ≡ ok recipient
      → length nonce ≡ 12
      → seal_to k eph nonce recipient (encode_note_payload n o) seal_context_note ≡ ok ct.sealed
      → (cts : List NoteCiphertext) → Memᴰ ct cts
      → Memᴰ (discovery k ct.leaf_index n o) (scan_notes k doubles priv cts)
  unfolding scan_notes
  scan_notes-seal_to laws priv recipient eph nonce n o ct v m hp hn h [] c = elim c [ ]
  scan_notes-seal_to laws priv recipient eph nonce n o ct v m hp hn h (x ∷ cts) (Memᴰ.head e) =
      subst
        (λ y.
          Memᴰ (discovery k ct.leaf_index n o)
            (push_found k doubles (scan_note k doubles priv y) (scan_notes k doubles priv cts)))
        e (rw (scan_note-seal_to laws priv recipient eph nonce n o ct v m hp hn h) (Memᴰ.head refl))
  scan_notes-seal_to laws priv recipient eph nonce n o ct v m hp hn h (x ∷ cts) (Memᴰ.tail t) =
      Mem-push_found (discovery k ct.leaf_index n o) (scan_note k doubles priv x)
        (scan_notes k doubles priv cts)
        (scan_notes-seal_to laws priv recipient eph nonce n o ct v m hp hn h cts t)

  -- The bytes of a key that are handed on hash to the note's auditor field.
  abbrev pub HasKey : Note → Option Bytes → Type 0
  HasKey n none = Unit
  HasKey n (some b) = auditor_pubkey_to_field k b ≡ ok n.auditor_pubkey

  -- What the wallet relies on for a note that somebody else sealed.
  pub record IsSound (d : DiscoveredNote) : Type 0 where
    pub commits : d.commitment ≡ commit_note k d.note
    pub key : HasKey d.note d.auditor_pubkey_bytes

  check_key-eq-some :
      (n : Note) (o : Option Bytes) {p : DecodedNotePayload}
      → check_key k n o ≡ ok (some p)
      → HasKey p.note p.auditor_pubkey_bytes
  unfolding check_key
  check_key-eq-some n none {p} h =
      let e : record { note = n; auditor_pubkey_bytes = none } ≡ p = cc in
      subst (λ (q : DecodedNotePayload). HasKey q.note q.auditor_pubkey_bytes) e tt
  check_key-eq-some n (some b) {p} h =
      let (f, hf, g) = >>=-eq-ok (auditor_pubkey_to_field k b) _ h in
      elim (Bool-cases (equals f n.auditor_pubkey)) [
        | inl same ↦
            let e : record { note = n; auditor_pubkey_bytes = some b } ≡ p = cc (rw same at g) in
            subst (λ (q : DecodedNotePayload). HasKey q.note q.auditor_pubkey_bytes) e
              (hf ∙ ap ok ((equals_iff f n.auditor_pubkey).0 same))
        | inr other ↦ absurd (cc (rw other at g))
      ]

  try_decode_note_payload-eq-some :
      (b : Bytes) {p : DecodedNotePayload}
      → try_decode_note_payload k doubles b ≡ ok (some p)
      → HasKey p.note p.auditor_pubkey_bytes
  unfolding try_decode_note_payload
  try_decode_note_payload-eq-some b h =
      let (v, h1, g1) = >>=-eq-ok (parse doubles (decode_utf8 b)) _ h in
      let (w, h2, g2) = >>=-eq-ok (property (codes "amount") v) _ g1 in
      let (amount, h3, g3) = >>=-eq-ok (bigint_of doubles w) _ g2 in
      let (owner, h4, g4) = >>=-eq-ok (field_of (codes "ownerPubkey") v) _ g3 in
      let (auditor, h5, g5) = >>=-eq-ok (field_of (codes "auditorPubkey") v) _ g4 in
      let (blinding, h6, g6) = >>=-eq-ok (field_of (codes "blinding") v) _ g5 in
      let (u, h7, g7) = >>=-eq-ok (property (codes "auditorPubkeyBytes") v) _ g6 in
      let (o, h8, g8) = >>=-eq-ok (bytes_of u) _ g7 in check_key-eq-some _ o g8

  decode_note_payload-eq-some :
      (b : Bytes) {p : DecodedNotePayload}
      → decode_note_payload k doubles b ≡ some p
      → HasKey p.note p.auditor_pubkey_bytes
  unfolding decode_note_payload
  decode_note_payload-eq-some b h = try_decode_note_payload-eq-some b (or_null-eq-some _ h)

  scan_note-IsSound :
      (priv : Bytes) (ct : NoteCiphertext) {d : DiscoveredNote}
      → scan_note k doubles priv ct ≡ some d
      → IsSound d
  unfolding scan_note
  scan_note-IsSound priv ct {d} h = by_opened (open_sealed k priv ct.sealed seal_context_note) h
    where
      by_payload :
          (o : Option DecodedNotePayload)
          → ((p : DecodedNotePayload) → o ≡ some p → HasKey p.note p.auditor_pubkey_bytes)
          → elim o [ none ↦ none | some payload ↦ some (discovered k doubles ct payload) ] ≡ some d
          → IsSound d
      by_payload none key h = absurd (cc h)
      by_payload (some p) key h =
          let e : discovered k doubles ct p ≡ d = cc in
          subst IsSound e (record { commits = refl; key = key p refl })

      by_opened :
          (o : Option Bytes)
          → elim o [
            | none ↦ none
            | some plain ↦ elim (decode_note_payload k doubles plain) [
              | none ↦ none
              | some payload ↦ some (discovered k doubles ct payload)
            ]
          ]
            ≡ some d
          → IsSound d
      by_opened none h = absurd (cc h)
      by_opened (some plain) h =
          by_payload (decode_note_payload k doubles plain)
            (λ p e. decode_note_payload-eq-some plain e) h

  -- Every note that a scan gives, whoever sealed it, carries its own commitment, and the bytes of its
  -- auditor key, if there are any, hash to the note's auditor field.
  pub scan_notes-IsSound :
      (priv : Bytes) (cts : List NoteCiphertext) → All IsSound (scan_notes k doubles priv cts)
  unfolding scan_notes
  scan_notes-IsSound priv [] = tt
  scan_notes-IsSound priv (ct ∷ cts) =
      push (scan_note k doubles priv ct) (scan_notes k doubles priv cts)
        (λ d e. scan_note-IsSound priv ct e) (scan_notes-IsSound priv cts)
    where
      push :
          (o : Option DiscoveredNote) (ns : List DiscoveredNote)
          → ((d : DiscoveredNote) → o ≡ some d → IsSound d)
          → All IsSound ns
          → All IsSound (push_found k doubles o ns)
      push none ns sound all = all
      push (some d) ns sound all = (sound d refl, all)
