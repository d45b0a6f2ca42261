-- ===== src/Relayer/Submission.antt =====
-- Exactly the requests that match the relayer's account and fee are sent on.
use near_shield.Prelude.{
  All, ◌≡◌, ◌≢◌, refl, arith, ◌⊎◌, ◌↔◌, inl, inr, [], ◌∷◌, length, ◌==◌, list_eq, list_eq_iff,
  list_eq_refl, ℤ, pos, ◌≤ℤ◌, ltb_ℤ, eqb_ℤ, eqb_ℤ_iff, Error, Result, ok, err, true, false, not,
  throw_if, Result-cases, >>=-eq-ok, throw_if-not, throw_if_true, relayer_mismatch, fee_mismatch,
  fee_exceeds_amount, empty_recipient, empty_proof, subst,
}
use near_shield.Js.Text.{Text, Bytes}
use near_shield.Js.BigInt.{to_bigint, is_space}
use near_shield.Js.Numerals.{to_bigint_blank}
use near_shield.Relayer.{RelayerConfig, SubmitRequest, parse_base_units, check_request, submit}

-- A request that the relayer may send: its own account and fee, and an amount that covers it.
pub record IsAcceptable (config : RelayerConfig) (req : SubmitRequest) : Type 0 where
  pub own_account : req.relayer ≡ config.near_account_id
  pub own_fee : to_bigint req.relayer_fee ≡ ok config.fee_usdc_base
  pub value : ℤ
  pub amount : to_bigint req.amount ≡ ok value
  pub fee_non_negative : pos 0 ≤ℤ config.fee_usdc_base
  pub covered : config.fee_usdc_base ≤ℤ value
  pub has_recipient : req.recipient ≢ []
  pub has_proof : req.proof ≢ []

parse_base_units_iff :
    (s : Text) (v : ℤ) → (parse_base_units s ≡ ok v) ↔ ((to_bigint s ≡ ok v) × (pos 0 ≤ℤ v))
unfolding parse_base_units
parse_base_units_iff s v = (λ h. ground arith, λ h. ground arith)

nonempty : (xs : Bytes) → (length xs == 0) ≡ false → xs ≢ []
nonempty [] h e = absurd (cc h)
nonempty (x ∷ xs) h e = cc

fee_covers : (amount fee : ℤ) → ltb_ℤ amount fee ≡ false → fee ≤ℤ amount
fee_covers amount fee h = ground arith

covered : (amount fee : ℤ) → fee ≤ℤ amount → ltb_ℤ amount fee ≡ false
covered amount fee h = ground arith

le_trans_ℤ : (a b : ℤ) → pos 0 ≤ℤ a → a ≤ℤ b → pos 0 ≤ℤ b
le_trans_ℤ a b h g = omega arith

present : (xs : Bytes) → xs ≢ [] → (length xs == 0) ≡ false
present [] h = absurd (h refl)
present (x ∷ xs) h = ground arith

module _ (config : RelayerConfig) (req : SubmitRequest) where
  check_request-IsAcceptable : check_request config req ≡ ok tt → IsAcceptable config req
  unfolding check_request
  check_request-IsAcceptable h =
      let (_, h0, h) =
        >>=-eq-ok (throw_if (not (list_eq req.relayer config.near_account_id)) relayer_mismatch) _
          h in
      let (fee, h1, h) = >>=-eq-ok (parse_base_units req.relayer_fee) _ h in
      let (amount, h2, h) = >>=-eq-ok (parse_base_units req.amount) _ h in
      let (_, h3, h) =
        >>=-eq-ok (throw_if (not (eqb_ℤ fee config.fee_usdc_base)) fee_mismatch) _ h in
      let (_, h4, h) = >>=-eq-ok (throw_if (ltb_ℤ amount fee) fee_exceeds_amount) _ h in
      let (_, h5, h) = >>=-eq-ok (throw_if (length req.recipient == 0) empty_recipient) _ h in
      let (_, h6, h) = >>=-eq-ok (throw_if (length req.proof == 0) empty_proof) _ h in
      let e : fee ≡ config.fee_usdc_base = (eqb_ℤ_iff _ _).0 (throw_if-not _ _ h3) in
      let fee_units = (parse_base_units_iff req.relayer_fee fee).0 h1 in
      record {
        own_account = (list_eq_iff _ _).0 (throw_if-not _ _ h0);
        own_fee = subst (λ f. to_bigint req.relayer_fee ≡ ok f) e fee_units.0;
        value = amount;
        amount = ((parse_base_units_iff req.amount amount).0 h2).0;
        fee_non_negative = subst (λ f. pos 0 ≤ℤ f) e fee_units.1;
        covered = subst (λ f. f ≤ℤ amount) e (fee_covers amount fee (throw_if_true _ _ h4));
        has_recipient = nonempty req.recipient (throw_if_true _ _ h5);
        has_proof = nonempty req.proof (throw_if_true _ _ h6);
      }

  IsAcceptable-check_request : IsAcceptable config req → check_request config req ≡ ok tt
  unfolding check_request
  IsAcceptable-check_request a = rw (
    a.own_account,
    list_eq_refl,
    (parse_base_units_iff _ _).1 (a.own_fee, a.fee_non_negative),
    (parse_base_units_iff _ _).1 (a.amount, le_trans_ℤ _ _ a.fee_non_negative a.covered),
    (eqb_ℤ_iff config.fee_usdc_base config.fee_usdc_base).1 refl,
    covered _ _ a.covered,
    present _ a.has_recipient,
    present _ a.has_proof,
  )

  -- `submit` sends the request on, unchanged and once, exactly if it is acceptable.
  pub submit_calls :
      (send : SubmitRequest → Result Text)
      → (IsAcceptable config req × (submit config send req ≡ (req ∷ [], send req)))
        ⊎ ((¬ IsAcceptable config req) × (e : Error) × (submit config send req ≡ ([], err e)))
  unfolding submit
  submit_calls send = elim (Result-cases (check_request config req)) [
    | inr (u, passed) ↦ inl (check_request-IsAcceptable passed, rw (passed, submit))
    | inl (e, failed) ↦ inr (λ a. cc (failed, IsAcceptable-check_request a), e, rw (failed, submit))
  ]

-- A fee or an amount that is blank is taken for 0.
pub parse_base_units_blank :
    (s : Text) → All (λ c. is_space c ≡ true) s → parse_base_units s ≡ ok (pos 0)
unfolding parse_base_units
parse_base_units_blank s h = rw (to_bigint_blank s h)
