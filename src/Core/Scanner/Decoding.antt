-- ===== src/Core/Scanner/Decoding.antt =====
-- Encoded note payloads and their decoding (sdk/packages/core/src/scanner.ts).
use near_shield.Prelude.{
  ℕ, ◌%◌, ◌≡◌, refl, arith, ap, true, All, [], ◌∷◌, length, Option, none, some, pos, ok, list_eq,
  ◌==◌,
}
use near_shield.Js.Text.{Text, Bytes, codes, hex_bytes}
use near_shield.Js.Hex.{hex_pairs-hex_bytes, hex_bytes-IsHexUnit, strip_0x-IsHexUnit, IsHexUnit}
use near_shield.Js.Numerals.{IsDigit, to_text-IsDigit, bigint_text, to_bigint-bigint_text, All-mono}
use near_shield.Js.Json.{Json, Fields, str, field}
use near_shield.Js.Json.Parse.{Doubles}
use near_shield.Js.Json.Access.{property, find_field, bigint_of, text_of, is_truthy}
use near_shield.Js.Json.Keys.{IsUnit, IsPlain, FieldsPlain, Distinct}
use near_shield.Js.Json.RoundTrip.{parse-stringify}
use near_shield.Core.Packages.{Packages}
use near_shield.Core.Field.{Field, IsReduced, to_hex, equals, to_bytes_be}
use near_shield.Core.Field.Wire.{IsByte, bytes_be-All, from_hex-to_hex, length-hex_bytes}
use near_shield.Core.Note.{Note, auditor_pubkey_to_field}
use near_shield.Core.Encrypt.{or_null}
use near_shield.Core.Encrypt.Printed.{decode_utf8-stringify}
use near_shield.Core.Scanner.{
  auditor_bytes_field, payload_json, encode_note_payload, bytes_from_hex, field_of, bytes_of,
  check_key, try_decode_note_payload, decode_note_payload,
}

-- The fields of the printed object.
abbrev payload_fields : Note → Option Bytes → Fields
payload_fields n o = field (codes "amount") (str (bigint_text n.amount)) (
    field (codes "ownerPubkey") (str (to_hex n.owner_pubkey)) (
      field (codes "auditorPubkey") (str (to_hex n.auditor_pubkey))
        (field (codes "blinding") (str (to_hex n.blinding)) (auditor_bytes_field o))))

-- Key bytes that belong to the note's auditor field, if there are any.
unfoldable pub KeyMatches : Packages → Note → Option Bytes → Type 0
KeyMatches k n none = Unit
KeyMatches k n (some b) = All IsByte b × (auditor_pubkey_to_field k b ≡ ok n.auditor_pubkey)

-- An amount that is not negative, and reduced field elements.
pub record IsNote (n : Note) : Type 0 where
  pub amount : ℕ
  pub amount_value : n.amount ≡ pos amount
  pub owner : IsReduced n.owner_pubkey
  pub auditor : IsReduced n.auditor_pubkey
  pub blinding : IsReduced n.blinding

hex_bytes-IsUnit : (bs : Bytes) → All IsByte bs → All IsUnit (hex_bytes bs)
hex_bytes-IsUnit bs h =
    All-mono {P = IsHexUnit} {Q = IsUnit} (λ c u. omega arith) (hex_bytes bs)
      (hex_bytes-IsHexUnit bs h)

to_hex-IsUnit : (f : Field) → All IsUnit (to_hex f)
unfolding to_hex to_bytes_be
to_hex-IsUnit f = (omega arith, (omega arith, hex_bytes-IsUnit _ (bytes_be-All 32 f.value [] tt)))

bigint_text-IsUnit : (n : ℕ) → All IsUnit (bigint_text (pos n))
unfolding bigint_text
bigint_text-IsUnit n =
    All-mono {P = IsDigit} {Q = IsUnit} (λ c u. omega arith) _ (to_text-IsDigit n).0

auditor_bytes_field-FieldsPlain :
    (k : Packages) (n : Note) (o : Option Bytes)
    → KeyMatches k n o
    → FieldsPlain (auditor_bytes_field o)
unfolding auditor_bytes_field IsPlain KeyMatches
auditor_bytes_field-FieldsPlain k n none h = tt
auditor_bytes_field-FieldsPlain k n (some b) h = (omega arith, hex_bytes-IsUnit b h.0, tt)

payload_json-IsPlain :
    (k : Packages) (n : Note) (o : Option Bytes)
    → IsNote n
    → KeyMatches k n o
    → IsPlain (payload_json n o)
unfolding payload_json IsPlain
payload_json-IsPlain k n o v h = (
  distinct o,
  (
    omega arith,
    amount_units,
    (
      omega arith,
      to_hex-IsUnit n.owner_pubkey,
      (
        omega arith,
        to_hex-IsUnit n.auditor_pubkey,
        (omega arith, to_hex-IsUnit n.blinding, auditor_bytes_field-FieldsPlain k n o h),
      ),
    ),
  ),
)
  where
    amount_units : All IsUnit (bigint_text n.amount)
    amount_units = rw v.amount_value (bigint_text-IsUnit v.amount)

    distinct : (o : Option Bytes) → Distinct (payload_fields n o)
    distinct none =
        unfold auditor_bytes_field list_eq in
        ((refl, (refl, (refl, tt))), ((refl, (refl, tt)), ((refl, tt), (tt, tt))))
    distinct (some b) =
        unfold auditor_bytes_field list_eq in
        (
          (refl, (refl, (refl, (refl, tt)))),
          ((refl, (refl, (refl, tt))), ((refl, (refl, tt)), ((refl, tt), (tt, tt)))),
        )

-- A text that stands behind a key is read as a field element.
field_of-to_hex :
    (name : Text) (p : Json) (f : Field)
    → IsReduced f
    → property name p ≡ ok (some (str (to_hex f)))
    → field_of name p ≡ ok f
unfolding field_of text_of
field_of-to_hex name p f h e = rw e (from_hex-to_hex f h)

bytes_from_hex-hex_bytes : (b : Bytes) → All IsByte b → bytes_from_hex (hex_bytes b) ≡ ok b
unfolding bytes_from_hex
bytes_from_hex-hex_bytes b h =
    let even : (length (hex_bytes b) % 2 == 0) ≡ true = ground (arith, length-hex_bytes b h) in
    rw (strip_0x-IsHexUnit (hex_bytes b) (hex_bytes-IsHexUnit b h), even)
      (ap ok (hex_pairs-hex_bytes b h))

-- A text of 64 units is truthy.
is_truthy-long : (s : Text) → length s ≡ 64 → is_truthy (some (str s)) ≡ true
unfolding is_truthy list_eq
is_truthy-long [] h = absurd (omega arith)
is_truthy-long (c ∷ s) h = refl

auditor_pubkey_to_field-length :
    (k : Packages) (b : Bytes) {f : Field} → auditor_pubkey_to_field k b ≡ ok f → length b ≡ 32
unfolding auditor_pubkey_to_field
auditor_pubkey_to_field-length k b h = ground arith

bytes_of-auditor_bytes_field :
    (k : Packages) (n : Note) (o : Option Bytes)
    → KeyMatches k n o
    → bytes_of (find_field (codes "auditorPubkeyBytes") (auditor_bytes_field o)) ≡ ok o
unfolding bytes_of auditor_bytes_field find_field list_eq KeyMatches text_of
bytes_of-auditor_bytes_field k n none h = unfold is_truthy in refl
bytes_of-auditor_bytes_field k n (some b) h =
    let long : length (hex_bytes b) ≡ 64 =
      omega (arith, length-hex_bytes b h.0, auditor_pubkey_to_field-length k b h.1) in
    rw (is_truthy-long (hex_bytes b) long, bytes_from_hex-hex_bytes b h.0) refl

check_key-KeyMatches :
    (k : Packages) (n : Note) (o : Option Bytes)
    → KeyMatches k n o
    → check_key k n o ≡ ok (some (record { note = n; auditor_pubkey_bytes = o }))
unfolding check_key KeyMatches equals
check_key-KeyMatches k n none h = refl
check_key-KeyMatches k n (some b) h =
    let same : (n.auditor_pubkey.value == n.auditor_pubkey.value) ≡ true = ground arith in
    rw (h.1, same) refl

-- The properties of the printed object.
property-payload_json :
    (n : Note) (o : Option Bytes)
    → let p = payload_json n o in
      (property (codes "amount") p ≡ ok (some (str (bigint_text n.amount))))
      × (property (codes "ownerPubkey") p ≡ ok (some (str (to_hex n.owner_pubkey))))
      × (property (codes "auditorPubkey") p ≡ ok (some (str (to_hex n.auditor_pubkey))))
      × (property (codes "blinding") p ≡ ok (some (str (to_hex n.blinding))))
      × (property (codes "auditorPubkeyBytes") p
          ≡ ok (find_field (codes "auditorPubkeyBytes") (auditor_bytes_field o)))
unfolding payload_json property find_field list_eq
property-payload_json n o = (refl, refl, refl, refl, refl)

bigint_of-bigint_text :
    (doubles : Doubles) (n : Note)
    → IsNote n
    → bigint_of doubles (some (str (bigint_text n.amount))) ≡ ok n.amount
unfolding bigint_of
bigint_of-bigint_text doubles n v = rw v.amount_value (to_bigint-bigint_text v.amount)

-- Decoding the encoding of a note gives the note and its key bytes back, for an amount that is not
-- negative, reduced field elements, and key bytes that hash to the note's auditor field.
pub decode_note_payload-encode_note_payload :
    (k : Packages) (doubles : Doubles) (n : Note) (o : Option Bytes)
    → IsNote n
    → KeyMatches k n o
    → decode_note_payload k doubles (encode_note_payload n o)
      ≡ some (record { note = n; auditor_pubkey_bytes = o })
unfolding decode_note_payload try_decode_note_payload encode_note_payload
decode_note_payload-encode_note_payload k doubles n o v h =
    let p = payload_json-IsPlain k n o v h in
    let (e1, e2, e3, e4, e5) = property-payload_json n o in
    rw
      (
        decode_utf8-stringify (payload_json n o) p,
        parse-stringify doubles (payload_json n o) p,
        e1,
        bigint_of-bigint_text doubles n v,
        field_of-to_hex (codes "ownerPubkey") (payload_json n o) n.owner_pubkey v.owner e2,
        field_of-to_hex (codes "auditorPubkey") (payload_json n o) n.auditor_pubkey v.auditor e3,
        field_of-to_hex (codes "blinding") (payload_json n o) n.blinding v.blinding e4,
        e5,
        bytes_of-auditor_bytes_field k n o h,
      )
      (ap or_null (check_key-KeyMatches k n o h))
