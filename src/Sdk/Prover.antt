-- ===== src/Sdk/Prover.antt =====
-- sdk/packages/sdk/src/prover.ts and the request mapping of snarkjs-prover.ts. Circuit names are a
-- closed type, as `CircuitName` is, so no request names an unknown circuit.
pub mod Input
use Prim.Native.String.{String}
use package.text.Mathlib.Text.{◌==◌ as str_eq}
use near_shield.Prelude.{
  Option, none, some, List, [], ◌∷◌, length, ◌==◌, not, if◌then◌else◌, Result, ok, err, ◌>>=◌, ◌>>◌,
  throw_if, public_input_count, bad_hex_input,
}
use near_shield.Js.Text.{Text, Bytes}
use near_shield.Js.BigInt.{to_bigint}
use near_shield.Js.Numerals.{bigint_text}
use near_shield.Core.Disclosure.{Action, deposit, transfer, withdraw}
use near_shield.Sdk.Groth16.{SnarkjsProof, snarkjs_proof_to_bytes}

-- A witness value that is neither a text nor an array of texts is `other`.
pub data Value : Type 0 where
  text : Text → Value
  texts : List Text → Value
  other : Value

pub record ProveRequest : Type 0 where
  pub circuit : Action
  pub public_inputs : List Text
  pub witness : List (String × Value)

abbrev pub Prover : Type 0
Prover = ProveRequest → Result Bytes

abbrev pub stub_prover : Prover
stub_prover req = ok (0 ∷ [])

abbrev pub public_names : Action → List String
public_names deposit = "commitment" ∷ "amount" ∷ "auditorPubkey" ∷ "viewCtHash" ∷ []
public_names transfer =
    "merkleRoot" ∷ "nullifier0" ∷ "nullifier1" ∷ "commitmentOut0" ∷ "commitmentOut1"
    ∷ "auditorPubkey" ∷ "recipientAuditorPubkey" ∷ "viewCtHashSender" ∷ "viewCtHashRecipient" ∷ []
public_names withdraw =
    "merkleRoot" ∷ "nullifier" ∷ "recipient" ∷ "amount" ∷ "relayer" ∷ "relayerFee" ∷ "auditorPubkey"
    ∷ "viewCtHash" ∷ []

abbrev pub renames : Action → List (String × String)
renames deposit = []
renames transfer =
    ("in0OwnerPubkey", "in0Owner")
    ∷ ("in1OwnerPubkey", "in1Owner")
    ∷ ("out0OwnerPubkey", "out0Owner")
    ∷ ("out1OwnerPubkey", "out1Owner")
    ∷ []
renames withdraw = ("noteOwnerPubkey", "noteOwner") ∷ ("noteAuditorPubkey", "noteAuditor") ∷ []

-- `rename[k] ?? k`
unfoldable pub rename : List (String × String) → String → String
rename [] k = k
rename ((from, to) ∷ rest) k = if str_eq from k then to else rename rest k

unfoldable pub to_field : Text → Result Text
to_field x = do throw_if (length x == 0) bad_hex_input; v ← to_bigint x; ok (bigint_text v)

unfoldable pub to_fields : List Text → Result (List Text)
to_fields [] = ok []
to_fields (x ∷ xs) = do y ← to_field x; ys ← to_fields xs; ok (y ∷ ys)

unfoldable pub conv : Value → Result Value
conv (text x) = do y ← to_field x; ok (text y)
conv (texts xs) = do ys ← to_fields xs; ok (texts ys)
conv other = err bad_hex_input

-- An object in the order of its properties: `o[k] = v` and `o[k]`.
unfoldable pub assign : String → Value → List (String × Value) → List (String × Value)
assign k v [] = (k, v) ∷ []
assign k v ((j, w) ∷ o) = if str_eq j k then (k, v) ∷ o else (j, w) ∷ assign k v o

unfoldable pub lookup : String → List (String × Value) → Option Value
lookup k [] = none
lookup k ((j, v) ∷ o) = if str_eq j k then some v else lookup k o

-- `names.forEach((n, i) => input[n] = conv(publicInputs[i]))`, over lists of one length.
unfoldable pub assign_public :
    List String → List Text → List (String × Value) → Result (List (String × Value))
assign_public [] vs input = ok input
assign_public (n ∷ ns) [] input = err bad_hex_input
assign_public (n ∷ ns) (v ∷ vs) input = do w ← conv (text v); assign_public ns vs (assign n w input)

unfoldable pub assign_witness :
    List (String × String)
    → List (String × Value)
    → List (String × Value)
    → Result (List (String × Value))
assign_witness names [] input = ok input
assign_witness names ((k, v) ∷ ws) input = do
  w ← conv v
  assign_witness names ws (assign (rename names k) w input)

unfoldable pub prove_request_to_circom_input : ProveRequest → Result (List (String × Value))
prove_request_to_circom_input req = do
  throw_if (not (length req.public_inputs == length (public_names req.circuit))) public_input_count
  input ← assign_public (public_names req.circuit) req.public_inputs []
  assign_witness (renames req.circuit) req.witness input

-- `SnarkjsProver.prove`; `full_prove` is snarkjs with the artifacts of the circuit.
unfoldable pub snarkjs_prove :
    (Action → List (String × Value) → Result SnarkjsProof) → ProveRequest → Result Bytes
snarkjs_prove full_prove req = do
  input ← prove_request_to_circom_input req
  proof ← full_prove req.circuit input
  snarkjs_proof_to_bytes proof
