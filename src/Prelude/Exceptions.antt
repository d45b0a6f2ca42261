-- ===== src/Prelude/Exceptions.antt =====
-- Exceptions as values: every `throw` of the program is a constructor, and what a library throws
-- is `thrown`.
use Prim.Native.Nat.{ℕ}
use mathlib.Core.Path.{◌≡◌, refl}
use mathlib.Core.List.{List}
use mathlib.Core.Bool.{Bool, true, false, not}
use mathlib.Core.Logic.{◌⊎◌, inl, inr}

pub data Error : Type 0 where
  -- exceptions of the language: a malformed `BigInt` or JSON text, a value out of range
  syntax_error range_error type_error : Error
  -- the fuel of a model ran out
  out_of_fuel : Error
  -- a third-party package threw
  thrown : Error
  field_hex_length : ℕ → Error
  odd_hex : Error
  auditor_key_length recipient_key_length auditor_private_key_length : Error
  leaf_not_present : ℕ → Error
  root_drift transaction_failed : Error
  -- demo, with the message
  missing_artifacts : List ℕ → Error
  -- ceremony
  ceremony_usage ceremony_started ceremony_missing duplicate_contribution beacon_set : Error
  circuit_missing not_finalized vk_mismatch : Error
  -- RelayerError
  relayer_mismatch fee_mismatch fee_exceeds_amount : Error
  not_an_integer negative_units empty_recipient empty_proof : Error
  -- Wallet
  short_seed amount_not_positive no_transfer_inputs missing_auditor_key : Error
  change_negative value_not_conserved no_withdraw_note merkle_path_length no_merkle_root : Error
  -- envelopes
  wrong_method bad_public_input : Error
  -- snarkjs prover
  unknown_circuit public_input_count bad_hex_input bad_proof_shape : Error
  -- deploy
  vk_length dev_key vk_missing vk_json config_parse config_missing : Error
  readiness_failed custom_wasm not_confirmed bad_flag sandbox_failed : Error

-- What a function that may throw gives back.
pub data Result {κ} (B : Type κ) : Type κ where
  err : Error → Result B
  ok : B → Result B

-- `if (b) throw e`
abbrev pub throw_if : Bool → Error → Result (Unit {0})
throw_if false e = ok tt
throw_if true e = err e

-- The statements after `f`, which an exception of `m` skips.
infixl 5 ◌>>=◌
abbrev pub ◌>>=◌ {κ μ} : {B : Type κ} {C : Type μ} → Result B → (B → Result C) → Result C
err thrown_by >>= next = err thrown_by
ok value >>= next = next value

-- The same after a statement without a value.
infixl 5 ◌>>◌
abbrev pub ◌>>◌ {κ} : {C : Type κ} → Result (Unit {0}) → Result C → Result C
check >> next = check >>= (λ done. next)

pub Result-cases {κ} :
    {B : Type κ} (r : Result B) → ((e : Error) × (r ≡ err e)) ⊎ ((v : B) × (r ≡ ok v))
Result-cases (err e) = inl (e, refl)
Result-cases (ok v) = inr (v, refl)

pub ok_injective {κ} : {B : Type κ} {v w : B} → ok v ≡ ok w → v ≡ w
ok_injective h = cc

-- A chain that succeeds has succeeded at its first step.
pub >>=-eq-ok {κ μ} :
    {B : Type κ} {C : Type μ} (first : Result B) (next : B → Result C) {last : C}
    → (first >>= next) ≡ ok last
    → (v : B) × (first ≡ ok v) × (next v ≡ ok last)
>>=-eq-ok (err e) next h = absurd (cc)
>>=-eq-ok (ok v) next h = (v, refl, h)

pub throw_if_true : (b : Bool) (e : Error) {u : Unit {0}} → throw_if b e ≡ ok u → b ≡ false
throw_if_true false e h = refl
throw_if_true true e h = cc

pub throw_if-not : (b : Bool) (e : Error) {u : Unit {0}} → throw_if (not b) e ≡ ok u → b ≡ true
throw_if-not false e h = cc
throw_if-not true e h = refl
