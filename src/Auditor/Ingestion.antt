-- ===== src/Auditor/Ingestion.antt =====
-- `ingest` of sdk/packages/auditor/src/indexer.ts.
use mathlib.Core.List.{append-nil, append_assoc, Memᴰ}
use near_shield.Prelude.{
  ℕ, ◌+◌, ◌≡◌, refl, arith, ap, sym, subst, ◌∙◌, List, [], ◌∷◌, ◌++◌, length, Option, none, some,
  Result, ok, err, length-append, Mem-append_left, Mem-append_right,
}
use near_shield.Js.Text.{Bytes}
use near_shield.Js.Json.{Json, stringify}
use near_shield.Js.Json.Parse.{Doubles, parse}
use near_shield.Js.Json.Keys.{IsPlain}
use near_shield.Js.Json.RoundTrip.{parse-stringify}
use near_shield.Core.Packages.{Packages, SealLaws}
use near_shield.Core.Encrypt.{open_sealed, seal_to, seal_context_view}
use near_shield.Core.Encrypt.Utf8.{utf8}
use near_shield.Core.Encrypt.Seal.{open_sealed-seal_to}
use near_shield.Core.Encrypt.Printed.{decode_utf8-stringify}
use near_shield.Core.Disclosure.{decode_disclosure}
use near_shield.Auditor.{
  RawEvent, DecryptedRecord, AuditorIndex, push_record, ingest_ciphertext, ingest_event,
  ingest_events, ingest,
}

abbrev pub entry : RawEvent → Json → DecryptedRecord
entry ev v = record { block_height = ev.block_height; tx_hash = ev.tx_hash; disclosure = v }

module _ (k : Packages) (doubles : Doubles) where
  -- What a plaintext holds, and what a key reads of a blob: nothing or one value.
  abbrev pub values : Result Json → List Json
  values (ok v) = v ∷ []
  values (err e) = []

  abbrev pub contents : Option Bytes → List Json
  contents none = []
  contents (some plain) = values (decode_disclosure doubles plain)

  abbrev pub readable : Bytes → Bytes → List Json
  readable priv ct = contents (open_sealed k priv ct seal_context_view)

  abbrev pub as_entries : RawEvent → List Json → List DecryptedRecord
  as_entries ev [] = []
  as_entries ev (v ∷ vs) = entry ev v ∷ as_entries ev vs

  abbrev pub entries_of : Bytes → RawEvent → List Bytes → List DecryptedRecord
  entries_of priv ev [] = []
  entries_of priv ev (ct ∷ cts) = as_entries ev (readable priv ct) ++ entries_of priv ev cts

  -- The readable ciphertexts of a batch, in order.
  abbrev pub entries : Bytes → List RawEvent → List DecryptedRecord
  entries priv [] = []
  entries priv (ev ∷ evs) = entries_of priv ev ev.view_ciphertexts ++ entries priv evs

  -- An index and a count, with more records.
  abbrev add_records : AuditorIndex × ℕ → List DecryptedRecord → AuditorIndex × ℕ
  add_records (i, n) rs = (record i { records = i.records ++ rs }, n + length rs)

  add_records-nil : (s : AuditorIndex × ℕ) → add_records s [] ≡ s
  add_records-nil (i, n) = rw (append-nil i.records) (ap (λ (m : ℕ). (i, m)) (omega arith))

  add_records-append :
      (s : AuditorIndex × ℕ) (rs qs : List DecryptedRecord)
      → add_records (add_records s rs) qs ≡ add_records s (rs ++ qs)
  add_records-append (i, n) rs qs = rw (append_assoc i.records rs qs) (
      ap (λ (m : ℕ). (record i { records = i.records ++ (rs ++ qs) }, m))
        (omega (arith, length-append rs qs)))

  ingest_ciphertext_lem :
      (ev : RawEvent) (ct : Bytes) (s : AuditorIndex × ℕ)
      → ingest_ciphertext k doubles ev ct s
        ≡ add_records s (as_entries ev (readable s.0.private_key ct))
  unfolding ingest_ciphertext
  ingest_ciphertext_lem ev ct s = by_opened (open_sealed k s.0.private_key ct seal_context_view)
    where
      by_decoded : (r : Result Json) → push_record ev r s ≡ add_records s (as_entries ev (values r))
      by_decoded (err e) = sym (add_records-nil s)
      by_decoded (ok v) =
          ap (λ (m : ℕ). (record s.0 { records = s.0.records ++ entry ev v ∷ [] }, m)) (omega arith)

      by_opened :
          (o : Option Bytes)
          → elim o [ none ↦ s | some plain ↦ push_record ev (decode_disclosure doubles plain) s ]
            ≡ add_records s (as_entries ev (contents o))
      by_opened none = sym (add_records-nil s)
      by_opened (some plain) = by_decoded (decode_disclosure doubles plain)

  ingest_event_lem :
      (ev : RawEvent) (cts : List Bytes) (s : AuditorIndex × ℕ)
      → ingest_event k doubles ev cts s ≡ add_records s (entries_of s.0.private_key ev cts)
  unfolding ingest_event
  ingest_event_lem ev [] s = sym (add_records-nil s)
  ingest_event_lem ev (ct ∷ cts) s =
      ap (ingest_event k doubles ev cts) (ingest_ciphertext_lem ev ct s)
      ∙ ingest_event_lem ev cts (add_records s (as_entries ev (readable s.0.private_key ct)))
      ∙ add_records-append s (as_entries ev (readable s.0.private_key ct))
          (entries_of s.0.private_key ev cts)

  ingest_events_lem :
      (evs : List RawEvent) (s : AuditorIndex × ℕ)
      → ingest_events k doubles evs s ≡ add_records s (entries s.0.private_key evs)
  unfolding ingest_events
  ingest_events_lem [] s = sym (add_records-nil s)
  ingest_events_lem (ev ∷ evs) s =
      ap (ingest_events k doubles evs) (ingest_event_lem ev ev.view_ciphertexts s)
      ∙ ingest_events_lem evs (add_records s (entries_of s.0.private_key ev ev.view_ciphertexts))
      ∙ add_records-append s (entries_of s.0.private_key ev ev.view_ciphertexts)
          (entries s.0.private_key evs)

  -- `ingest` appends one record for each ciphertext that the auditor's key opens to a JSON text, in
  -- the order of the events and of their ciphertexts, changes nothing else and returns their number.
  pub ingest-entries :
      (i : AuditorIndex) (events : List RawEvent)
      → ingest k doubles i events ≡ (
        record i { records = i.records ++ entries i.private_key events },
        length (entries i.private_key events),
      )
  unfolding ingest
  ingest-entries i events =
      ingest_events_lem events (i, 0)
      ∙ ap (λ (m : ℕ). (record i { records = i.records ++ entries i.private_key events }, m))
          (omega arith)

  -- What was sealed for a key is read by it.
  pub readable-seal_to :
      SealLaws k
      → (priv recipient eph nonce : Bytes) (v : Json) {sealed : Bytes} → IsPlain v
      → k.get_public_key priv ≡ ok recipient
      → length nonce ≡ 12
      → seal_to k eph nonce recipient (utf8 (stringify v)) seal_context_view ≡ ok sealed
      → readable priv sealed ≡ v ∷ []
  unfolding decode_disclosure
  readable-seal_to laws priv recipient eph nonce v p hp hn h =
      ap contents (
        open_sealed-seal_to k laws priv recipient eph nonce (utf8 (stringify v)) seal_context_view
          hp hn h)
      ∙ ap (λ t. values (parse doubles t)) (decode_utf8-stringify v p)
      ∙ ap values (parse-stringify doubles v p)

  Mem-entries_of :
      (priv sealed : Bytes) (ev : RawEvent) (v : Json) (cts : List Bytes)
      → readable priv sealed ≡ v ∷ []
      → Memᴰ sealed cts
      → Memᴰ (entry ev v) (entries_of priv ev cts)
  Mem-entries_of priv sealed ev v [] h m = elim m [ ]
  Mem-entries_of priv sealed ev v (ct ∷ cts) h (Memᴰ.head e) =
      Mem-append_left (as_entries ev (readable priv ct)) (entries_of priv ev cts)
        (subst (λ c. Memᴰ (entry ev v) (as_entries ev (readable priv c))) e (rw h (Memᴰ.head refl)))
  Mem-entries_of priv sealed ev v (ct ∷ cts) h (Memᴰ.tail m) =
      Mem-append_right (as_entries ev (readable priv ct)) (entries_of priv ev cts)
        (Mem-entries_of priv sealed ev v cts h m)

  Mem-entries :
      (priv sealed : Bytes) (ev : RawEvent) (v : Json) (events : List RawEvent)
      → readable priv sealed ≡ v ∷ []
      → Memᴰ sealed ev.view_ciphertexts
      → Memᴰ ev events
      → Memᴰ (entry ev v) (entries priv events)
  Mem-entries priv sealed ev v [] h c m = elim m [ ]
  Mem-entries priv sealed ev v (e ∷ events) h c (Memᴰ.head same) =
      Mem-append_left (entries_of priv e e.view_ciphertexts) (entries priv events) (
        subst (λ (r : RawEvent). Memᴰ (entry ev v) (entries_of priv r r.view_ciphertexts)) same
          (Mem-entries_of priv sealed ev v ev.view_ciphertexts h c))
  Mem-entries priv sealed ev v (e ∷ events) h c (Memᴰ.tail m) =
      Mem-append_right (entries_of priv e e.view_ciphertexts) (entries priv events)
        (Mem-entries priv sealed ev v events h c m)

  -- A value that is printed and sealed for the auditor, wherever its ciphertext stands in the batch,
  -- is a record of the index afterwards.
  pub ingest-seal_to :
      SealLaws k
      → (i : AuditorIndex) (recipient eph nonce : Bytes) (v : Json) {sealed : Bytes} → IsPlain v
      → k.get_public_key i.private_key ≡ ok recipient
      → length nonce ≡ 12
      → seal_to k eph nonce recipient (utf8 (stringify v)) seal_context_view ≡ ok sealed
      → (ev : RawEvent) (events : List RawEvent) → Memᴰ sealed ev.view_ciphertexts
      → Memᴰ ev events
      → Memᴰ (entry ev v) (ingest k doubles i events).0.records
  ingest-seal_to laws i recipient eph nonce v {sealed} p hp hn h ev events c m =
      let r = readable-seal_to laws i.private_key recipient eph nonce v p hp hn h in
      subst (λ (s : AuditorIndex × ℕ). Memᴰ (entry ev v) s.0.records)
        (sym (ingest-entries i events))
        (Mem-append_right i.records (entries i.private_key events)
          (Mem-entries i.private_key sealed ev v events r c m))
