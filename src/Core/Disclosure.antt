-- ===== src/Core/Disclosure.antt =====
-- The auditor disclosure of sdk/packages/core/src/encrypt.ts.
pub mod Decoding
use near_shield.Prelude.{ℕ, List, Result}
use near_shield.Js.Text.{Text, Bytes, codes}
use near_shield.Js.Json.{Json, num, str, arr, obj, end, field, texts, stringify}
use near_shield.Js.Json.Parse.{Doubles, parse}
use near_shield.Core.Encrypt.Utf8.{utf8}
use near_shield.Core.Encrypt.TextDecoder.{decode_utf8}

pub data Action : Type 0 where
  deposit transfer withdraw : Action

abbrev pub action_text : Action → Text
action_text deposit = codes "deposit"
action_text transfer = codes "transfer"
action_text withdraw = codes "withdraw"

pub record ViewDisclosure : Type 0 where
  pub action : Action
  pub sender_owner_pubkey : Text
  pub recipient_owner_pubkey : Text
  pub amounts : List Text
  pub memo : Text
  pub timestamp : ℕ

-- The object that `JSON.stringify` is given, in the order of the interface.
unfoldable pub disclosure_json : ViewDisclosure → Json
disclosure_json d = obj (
    field (codes "action") (str (action_text d.action)) (
      field (codes "senderOwnerPubkey") (str d.sender_owner_pubkey) (
        field (codes "recipientOwnerPubkey") (str d.recipient_owner_pubkey) (
          field (codes "amounts") (arr (texts d.amounts)) (
            field (codes "memo") (str d.memo) (field (codes "timestamp") (num d.timestamp) end))))))

unfoldable pub encode_disclosure : ViewDisclosure → Bytes
encode_disclosure d = utf8 (stringify (disclosure_json d))

-- `as ViewDisclosure` checks nothing: any value may come back.
unfoldable pub decode_disclosure : Doubles → Bytes → Result Json
decode_disclosure d b = parse d (decode_utf8 b)
