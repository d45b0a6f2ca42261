-- ===== src/Core/Disclosure/Decoding.antt =====
-- Encoded disclosures and their decoding (sdk/packages/core/src/encrypt.ts).
use near_shield.Prelude.{
  ◌≤◌, ◌≡◌, refl, arith, ap, sym, ◌∙◌, All, List, [], ◌∷◌, ok, err, out_of_fuel, ok_injective,
  list_eq,
}
use near_shield.Js.Text.{Text}
use near_shield.Js.Json.{Json, texts, stringify}
use near_shield.Js.Json.Parse.{Doubles, parse}
use near_shield.Js.Json.Keys.{IsUnit, IsPlain, ItemsPlain}
use near_shield.Core.Encrypt.Utf8.{utf8}
use near_shield.Js.Json.RoundTrip.{parse-stringify}
use near_shield.Core.Encrypt.Printed.{decode_utf8-stringify}
use near_shield.Core.Disclosure.{
  Action, deposit, transfer, withdraw, action_text, ViewDisclosure, disclosure_json,
  encode_disclosure, decode_disclosure,
}

-- Texts of code units, and a timestamp that a double holds exactly.
pub record IsDisclosure (d : ViewDisclosure) : Type 0 where
  pub sender : All IsUnit d.sender_owner_pubkey
  pub recipient : All IsUnit d.recipient_owner_pubkey
  pub amounts : All (λ t. All IsUnit t) d.amounts
  pub memo : All IsUnit d.memo
  pub timestamp : d.timestamp ≤ 9007199254740992

texts-ItemsPlain : (ts : List Text) → All (λ t. All IsUnit t) ts → ItemsPlain (texts ts)
unfolding texts IsPlain
texts-ItemsPlain [] h = tt
texts-ItemsPlain (t ∷ ts) h = (h.0, texts-ItemsPlain ts h.1)

action_text-IsUnit : (a : Action) → All IsUnit (action_text a)
action_text-IsUnit deposit = omega arith
action_text-IsUnit transfer = omega arith
action_text-IsUnit withdraw = omega arith

pub disclosure_json-IsPlain : (d : ViewDisclosure) → IsDisclosure d → IsPlain (disclosure_json d)
unfolding disclosure_json IsPlain
disclosure_json-IsPlain d h = (
  unfold list_eq in
      (
        (refl, (refl, (refl, (refl, (refl, tt))))),
        (
          (refl, (refl, (refl, (refl, tt)))),
          ((refl, (refl, (refl, tt))), ((refl, (refl, tt)), ((refl, tt), (tt, tt)))),
        ),
      ),
  (
    omega arith,
    action_text-IsUnit d.action,
    (
      omega arith,
      h.sender,
      (
        omega arith,
        h.recipient,
        (
          omega arith,
          texts-ItemsPlain d.amounts h.amounts,
          (omega arith, h.memo, (omega arith, h.timestamp, tt)),
        ),
      ),
    ),
  ),
)

-- A printed value comes back.
pub decode_disclosure-stringify :
    (doubles : Doubles) (v : Json)
    → IsPlain v
    → decode_disclosure doubles (utf8 (stringify v)) ≡ ok v
unfolding decode_disclosure
decode_disclosure-stringify doubles v p =
    ap (parse doubles) (decode_utf8-stringify v p) ∙ parse-stringify doubles v p

-- Decoding what was encoded gives the object that was printed, when all texts consist of code units
-- and the timestamp is at most 2 ^ 53.
pub decode_disclosure-encode_disclosure :
    (doubles : Doubles) (d : ViewDisclosure)
    → IsDisclosure d
    → decode_disclosure doubles (encode_disclosure d) ≡ ok (disclosure_json d)
unfolding encode_disclosure
decode_disclosure-encode_disclosure doubles d h =
    decode_disclosure-stringify doubles (disclosure_json d) (disclosure_json-IsPlain d h)

-- Two values with one text are the same, key by key in their order.
pub stringify_injective : (v w : Json) → IsPlain v → IsPlain w → stringify v ≡ stringify w → v ≡ w
stringify_injective v w hv hw h =
    let doubles : Doubles = record {
      print = λ t. t;
      integer = λ t. err out_of_fuel;
      rounds = λ v. 0;
    } in
    ok_injective
      (sym (parse-stringify doubles v hv) ∙ ap (parse doubles) h ∙ parse-stringify doubles w hw)
