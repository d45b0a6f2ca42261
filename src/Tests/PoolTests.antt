-- ===== src/Tests/PoolTests.antt =====
-- The pool's client, run on the logs of a deposit and a transfer.
use near_shield.Prelude.{◌≡◌, refl, List, [], ◌∷◌, ◌++◌, replicate, ok, list_eq}
use near_shield.Js.Text.{Text, codes, hex_bytes, starts_with, strip_0x, digit, digits, to_text}
use near_shield.Js.Json.{str}
use near_shield.Core.Field.{from_hex, new_field, rem}
use near_shield.Js.Hex.{hex_pairs, parse_byte, prefix_value, signed_byte, unsigned_value}
use near_shield.Js.BigInt.{
  after_zero, digit_value, integer_literal, is_space, parse_digits, parse_nat, to_bigint, trim_end,
  trim_start,
}
use near_shield.Js.Json.Parse.{
  parse, parse_value, parse_start, parse_array, parse_items, parse_items_end, parse_object,
  parse_fields, parse_fields_end, skip_space, is_json_space, parse_scalar, number_value, is_integer,
  span, is_number_unit, is_digit, is_number, parse_key, chars, parse_colon, escape_value, hex_value,
  parse_word, set_field, set_fields,
}
use near_shield.Js.Json.Access.{
  bigint_of, element, find_field, is_text, item_text, items_length, loop_length, record_of, text_of,
}
use near_shield.Client.MerkleTree.{append}
use near_shield.Client.Events.{
  ParsedShieldedEvents, no_events, parse_shielded_events, log_entries, strip_prefix, deposit_entry,
  transfer_entries, transfer_entries_from, insert, sort,
}
use near_shield.Client.Events.Order
use near_shield.Client.Events.Order.{IsReading}
use near_shield.Client.Callers.{NearCaller}
use near_shield.Client.PoolClient.{
  PoolClient, EmittedNote, new_client, ingest, transfer, emitted_notes, has_leaf, hex_to_bytes,
  ingest_commitments, leaf_of,
}
use near_shield.Client.PoolClient.Ingestion
use near_shield.Client.PoolClient.Ingestion.{IsConsistent, Reachable, created, transferred}
use near_shield.Tests.Packages.{toy_doubles}
use near_shield.Tests.SdkTests.{value_or}
use near_shield.Sdk.Transaction.{BuiltTx, encode_ciphertext}
use near_shield.Sdk.Transaction
use near_shield.Core.Disclosure
use near_shield.Sdk.Envelopes.{
  to_transfer_call, to_transfer_args, expect_method, as_string, as_string_pair, input_at,
  ciphertext_at,
}

-- The log of a transfer with its leaves in the wrong order.
abbrev logs : List Text
logs =
    codes "plain text"
    ∷ (codes
          "EVENT_JSON:{\"standard\":\"shielded-pool\",\"event\":\"transfer\",\"data\":{\"leaf_indices\":[1,0],\"commitments\":[\"0x"
        ++ (replicate 64 b'0'
            ++ (codes "\",\""
                ++ (replicate 64 b'1' ++ codes "\"],\"note_cts\":[\"0x0a\",\"0b\"]}}"))))
    ∷ []

abbrev caller : NearCaller
caller = record {
  call = λ contract method args opts. ok (record { logs = logs; transaction_hash = codes "tx" });
  view = λ contract method. ok (str (codes "0x00"));
}

abbrev fresh : PoolClient
fresh = new_client (codes "pool") (codes "token")

abbrev read_events : ParsedShieldedEvents
read_events = value_or no_events (parse_shielded_events toy_doubles logs)

reading : parse_shielded_events toy_doubles logs ≡ ok read_events
unfolding parse_shielded_events starts_with strip_0x digit digits to_text after_zero digit_value
    integer_literal is_space parse_digits parse_nat to_bigint trim_end trim_start parse parse_value
    parse_start parse_array parse_items parse_items_end parse_object parse_fields parse_fields_end
    skip_space is_json_space parse_scalar number_value is_integer span is_number_unit is_digit
    is_number parse_key chars parse_colon escape_value hex_value parse_word set_field set_fields
    bigint_of element find_field is_text item_text items_length loop_length record_of text_of
    log_entries strip_prefix deposit_entry transfer_entries transfer_entries_from insert sort
    list_eq
reading = refl

parse_shielded_events-IsReading_example : IsReading toy_doubles logs read_events
parse_shielded_events-IsReading_example =
    Order.parse_shielded_events-IsReading toy_doubles logs reading

abbrev paid : BuiltTx
paid = record {
  method = Disclosure.transfer;
  public_inputs =
      ("nullifiers", Transaction.strs (codes "0x01" ∷ codes "0x02" ∷ []))
      ∷ ("commitments", Transaction.strs (codes "0x03" ∷ codes "0x04" ∷ []))
      ∷ ("merkleRoot", Transaction.str (codes "0x05"))
      ∷ ("auditorPubkey", Transaction.str (codes "0x06"))
      ∷ ("recipientAuditorPubkey", Transaction.str (codes "0x07"))
      ∷ [];
  proof = 1 ∷ [];
  view_ciphertexts = (1 ∷ []) ∷ (2 ∷ []) ∷ [];
  note_ciphertexts = (3 ∷ []) ∷ (4 ∷ []) ∷ [];
}

-- The transfer is sent, and its logs are read.
paid_ingested : transfer toy_doubles caller fresh paid ≡ ingest toy_doubles fresh logs
unfolding transfer to_transfer_call to_transfer_args expect_method as_string as_string_pair input_at
    ciphertext_at encode_ciphertext to_bigint integer_literal after_zero parse_nat parse_digits
    digit_value trim_start trim_end is_space hex_bytes list_eq
paid_ingested = refl

-- The logs of the second transfer name leaves that the first has added.
Reachable-IsConsistent_example :
    IsConsistent (transfer toy_doubles caller (transfer toy_doubles caller fresh paid).0 paid).0
Reachable-IsConsistent_example =
    Ingestion.Reachable-IsConsistent toy_doubles
      (transfer toy_doubles caller (transfer toy_doubles caller fresh paid).0 paid).0
      (transferred caller (transfer toy_doubles caller fresh paid).0 paid
        (transferred caller fresh paid (created (codes "pool") (codes "token"))))

abbrev later : PoolClient
later = (ingest toy_doubles fresh logs).0

abbrev emitted : List EmittedNote
emitted = value_or [] (ingest toy_doubles fresh logs).1

ingested : ingest toy_doubles fresh logs ≡ (later, ok emitted)
unfolding ingest parse_shielded_events starts_with strip_0x digit digits to_text after_zero
    digit_value integer_literal is_space parse_digits parse_nat to_bigint trim_end trim_start parse
    parse_value parse_start parse_array parse_items parse_items_end parse_object parse_fields
    parse_fields_end skip_space is_json_space parse_scalar number_value is_integer span
    is_number_unit is_digit is_number parse_key chars parse_colon escape_value hex_value parse_word
    set_field set_fields bigint_of element find_field is_text item_text items_length loop_length
    record_of text_of log_entries strip_prefix deposit_entry transfer_entries transfer_entries_from
    insert sort list_eq hex_pairs parse_byte prefix_value signed_byte unsigned_value append
    emitted_notes has_leaf hex_to_bytes ingest_commitments leaf_of from_hex new_field rem
ingested = refl

ingest-ingest_example : ingest toy_doubles later logs ≡ (later, ok emitted)
ingest-ingest_example = Ingestion.ingest-ingest toy_doubles fresh later logs emitted ingested
