-- ===== src/Tests/RelayerTests.antt =====
-- The relayer, run on one quote.
use near_shield.Prelude.{◌≡◌, refl, ◌⊎◌, [], ◌∷◌, pos, Error, Result, ok, err}
use near_shield.Js.Text.{Text, codes}
use near_shield.Js.BigInt.{is_space}
use near_shield.Js.Numerals.{bigint_text}
use near_shield.Relayer.{RelayerConfig, SubmitRequest, quote, submit, parse_base_units}
use near_shield.Relayer.Submission
use near_shield.Relayer.Submission.{IsAcceptable}

abbrev config : RelayerConfig
config = record { near_account_id = codes "relay.near"; fee_usdc_base = pos 5 }

abbrev request : SubmitRequest
request = record {
  proof = 1 ∷ [];
  merkle_root = codes "0x00";
  nullifier = codes "0x01";
  recipient = codes "bob.near";
  amount = bigint_text (pos 60);
  auditor_pubkey = codes "0x02";
  view_ct = codes "0x03";
  relayer = (quote config 60 0).relayer;
  relayer_fee = (quote config 60 0).fee_usdc_base;
}

abbrev send : SubmitRequest → Result Text
send req = ok (codes "hash")

submit_calls_example :
    (IsAcceptable config request × (submit config send request ≡ (request ∷ [], send request)))
    ⊎ ((¬ IsAcceptable config request) × (e : Error) × (submit config send request ≡ ([], err e)))
submit_calls_example = Submission.submit_calls config request send

parse_base_units_blank_example : parse_base_units (codes "  ") ≡ ok (pos 0)
unfolding is_space
parse_base_units_blank_example = Submission.parse_base_units_blank (codes "  ") (refl, (refl, tt))
