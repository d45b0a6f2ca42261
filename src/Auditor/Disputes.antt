-- ===== src/Auditor/Disputes.antt =====
-- `verifyDisclosure` and `getForUser` of sdk/packages/auditor/src/indexer.ts.
use mathlib.Core.List.{Memᴰ}
use near_shield.Prelude.{
  ◌≡◌, ◌↔◌, ◌⊎◌, refl, ap, sym, subst, ◌∙◌, Bool, true, ◌||◌, List, [], ◌∷◌, length, list_eq,
  list_eq_iff, list_eq_refl, ok, err, inl, inr, ◌>>=◌, type_error,
}
use near_shield.Js.Text.{Text, Bytes, codes}
use near_shield.Js.Json.{Json, null, bool, num, real, str, arr, obj, stringify}
use near_shield.Js.Json.Parse.{Doubles}
use near_shield.Js.Json.Access.{property, is_text}
use near_shield.Js.Json.Keys.{IsPlain}
use near_shield.Core.Packages.{Packages, SealLaws}
use near_shield.Core.Encrypt.{seal_to, seal_context_view}
use near_shield.Core.Encrypt.Utf8.{utf8}
use near_shield.Core.Encrypt.Seal.{open_sealed-seal_to}
use near_shield.Core.Disclosure.Decoding.{decode_disclosure-stringify, stringify_injective}
use near_shield.Auditor.{
  RawEvent, DecryptedRecord, AuditorIndex, same_text, is_party, filter_records, get_for_user,
  ingest, verify_disclosure,
}
use near_shield.Auditor.Ingestion.{entry, ingest-seal_to}

-- One value has the text of another exactly if they are the same.
same_text_iff :
    (k : Packages) (doubles : Doubles) (v e : Json)
    → IsPlain v
    → IsPlain e
    → (same_text k doubles e (ok v) ≡ true) ↔ (v ≡ e)
same_text_iff k doubles v e hv he = (
  λ h. stringify_injective v e hv he ((list_eq_iff _ _).0 h),
  λ h. subst (λ x. list_eq (stringify v) (stringify x) ≡ true) h (list_eq_refl (stringify v)),
)

module _ (k : Packages) (doubles : Doubles) where
  -- For a ciphertext that holds the JSON text of a value, sealed for the auditor's key,
  -- `verifyDisclosure` returns true exactly if the expected object is that value, with the same
  -- values under the same keys in the same order: an object of the same data whose keys stand in
  -- another order is not accepted. Both are values whose texts consist of code units, whose keys are
  -- distinct and whose numbers are natural numbers up to 2^53. Integer keys, which the model of
  -- `JSON.parse` does not move, stand in front, as in every JavaScript object.
  pub verify_disclosure-seal_to :
      SealLaws k
      → (i : AuditorIndex) (recipient eph nonce : Bytes) (v e : Json) {sealed : Bytes} → IsPlain v
      → IsPlain e
      → k.get_public_key i.private_key ≡ ok recipient
      → length nonce ≡ 12
      → seal_to k eph nonce recipient (utf8 (stringify v)) seal_context_view ≡ ok sealed
      → (verify_disclosure k doubles i sealed e ≡ true) ↔ (v ≡ e)
  unfolding verify_disclosure
  verify_disclosure-seal_to laws i recipient eph nonce v e hv he hp hn h =
      rw
        (
          verify_disclosure,
          open_sealed-seal_to k laws i.private_key recipient eph nonce (utf8 (stringify v))
              seal_context_view hp hn h,
          decode_disclosure-stringify doubles v hv,
        )
        (same_text_iff k doubles v e hv he)

-- A test of a record gives a Boolean or a TypeError.
is_party-cases :
    (owner : Text) (r : DecryptedRecord)
    → ((b : Bool) × (is_party owner r ≡ ok b)) ⊎ (is_party owner r ≡ err type_error)
unfolding is_party property
is_party-cases owner r = by_disclosure r.disclosure
  where
    by_disclosure :
        (v : Json)
        → let tested = property (codes "senderOwnerPubkey") v >>= (λ s.
          property (codes "recipientOwnerPubkey") v
          >>= (λ t. ok (is_text owner s || is_text owner t))) in
          ((b : Bool) × (tested ≡ ok b)) ⊎ (tested ≡ err type_error)
    by_disclosure null = inr refl
    by_disclosure (bool b) = inl (_, refl)
    by_disclosure (num n) = inl (_, refl)
    by_disclosure (real t) = inl (_, refl)
    by_disclosure (str s) = inl (_, refl)
    by_disclosure (arr xs) = inl (_, refl)
    by_disclosure (obj fs) = inl (_, refl)

is_party-null :
    (owner : Text) (r : DecryptedRecord) → r.disclosure ≡ null → is_party owner r ≡ err type_error
unfolding is_party property
is_party-null owner r h = rw h refl

-- One record whose disclosure is null makes every query throw.
filter_records-null :
    (owner : Text) (r : DecryptedRecord) (rs : List DecryptedRecord)
    → r.disclosure ≡ null
    → Memᴰ r rs
    → filter_records owner rs ≡ err type_error
unfolding filter_records
filter_records-null owner r [] h m = elim m [ ]
filter_records-null owner r (q ∷ rs) h (Memᴰ.head e) =
    rw (is_party-null owner q (ap (λ (x : DecryptedRecord). x.disclosure) (sym e) ∙ h)) refl
filter_records-null owner r (q ∷ rs) h (Memᴰ.tail m) = elim (is_party-cases owner q) [
  | inl (b, e) ↦ rw (e, filter_records-null owner r rs h m) refl
  | inr e ↦ rw e refl
]

null-IsPlain : IsPlain null
unfolding IsPlain
null-IsPlain = tt

-- After a blob that holds the JSON text `null` has been ingested, sealed for the auditor's key, every
-- query for an owner throws a TypeError, whatever else the index holds.
pub get_for_user-ingest-null :
    (k : Packages) (doubles : Doubles)
    → SealLaws k
    → (i : AuditorIndex) (recipient eph nonce : Bytes) {sealed : Bytes}
    → k.get_public_key i.private_key ≡ ok recipient
    → length nonce ≡ 12
    → seal_to k eph nonce recipient (utf8 (stringify null)) seal_context_view ≡ ok sealed
    → (ev : RawEvent) (events : List RawEvent) → Memᴰ sealed ev.view_ciphertexts
    → Memᴰ ev events
    → (owner : Text) → get_for_user (ingest k doubles i events).0 owner ≡ err type_error
unfolding get_for_user
get_for_user-ingest-null k doubles laws i recipient eph nonce hp hn h ev events c m owner =
    filter_records-null owner (entry ev null) _ refl
      (ingest-seal_to k doubles laws i recipient eph nonce null null-IsPlain hp hn h ev events c m)
