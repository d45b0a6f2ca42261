-- ===== src/Js/Numerals.antt =====
-- Printing a number and reading it back, in decimal and in hexadecimal.
use near_shield.Prelude.{
  ℕ, zero, suc, ◌+◌, ◌*◌, ◌/◌, ◌%◌, ◌<◌, ◌≤◌, ◌≡◌, refl, arith, ap, List, false, some, [], ◌∷◌, ltb,
  All, length, ℤ, pos, negsuc, true, ok, Bool-cases, inl, inr, lt→ltb, ◌∙◌,
}
use near_shield.Js.Text.{Text, digit, digits, to_text}
use near_shield.Js.BigInt.{
  is_space, trim_start, trim_end, digit_value, parse_digits, parse_nat, after_zero, integer_literal,
  to_bigint, signed,
}

pub digit_value-digit : (d : ℕ) → d < 36 → digit_value (digit d) ≡ some d
unfolding digit_value digit
digit_value-digit d h = ground arith

-- One printed digit read.
pub parse_digits-digit :
    (r acc d : ℕ) (cs : Text)
    → r ≤ 36
    → d < r
    → parse_digits r acc (digit d ∷ cs) ≡ parse_digits r (acc * r + d) cs
unfolding parse_digits
parse_digits-digit r acc d cs hr h =
    rw (digit_value-digit d (omega arith), parse_digits, lt→ltb d r h)

-- `digits` puts the digits of its number before the text it is given.
pub digits-read :
    (f n : ℕ) (cs : Text) → n < f → parse_digits 10 0 (digits f 10 n cs) ≡ parse_digits 10 n cs
unfolding digits
digits-read zero n cs h = elim h [ ]
digits-read (suc f) n cs h = elim (Bool-cases (ltb n 10)) [
  | inl small ↦ rw small (
      parse_digits-digit 10 0 n cs (omega arith) (ground arith)
      ∙ ap (λ (k : ℕ). parse_digits 10 k cs) (omega arith))
  | inr large ↦ rw large (
      digits-read f (n / 10) (digit (n % 10) ∷ cs) (ground arith)
      ∙ parse_digits-digit 10 (n / 10) (n % 10) cs (omega arith) (omega arith)
      ∙ ap (λ (k : ℕ). parse_digits 10 k cs) (omega arith))
]

abbrev pub IsDigit : ℕ → Type 0
IsDigit c = (48 ≤ c) × (c ≤ 57)

digit-IsDigit : (d : ℕ) → d < 10 → IsDigit (digit d)
unfolding digit
digit-IsDigit d h = ground arith

digits-IsDigit : (f n : ℕ) (cs : Text) → All IsDigit cs → All IsDigit (digits f 10 n cs)
unfolding digits
digits-IsDigit zero n cs h = h
digits-IsDigit (suc f) n cs h = elim (Bool-cases (ltb n 10)) [
  | inl small ↦ rw small (digit-IsDigit n (ground arith), h)
  | inr large ↦
      rw large
        (digits-IsDigit f (n / 10) (digit (n % 10) ∷ cs) (digit-IsDigit (n % 10) (omega arith), h))
]

length-digits : (f r n : ℕ) (cs : Text) → length cs ≤ length (digits f r n cs)
unfolding digits
length-digits zero r n cs = omega arith
length-digits (suc f) r n cs = ground (arith, length-digits f r (n / r) (digit (n % r) ∷ cs))

pub to_text-IsDigit : (n : ℕ) → All IsDigit (to_text 10 n) × (0 < length (to_text 10 n))
unfolding to_text digits
to_text-IsDigit n = (
  digits-IsDigit (suc n) n [] tt,
  ground (arith, length-digits n 10 (n / 10) (digit (n % 10) ∷ [])),
)

-- A text without white space is not trimmed.
trim_end_plain : (s : Text) → All (λ c. is_space c ≡ false) s → trim_end s ≡ s
unfolding trim_end
trim_end_plain [] h = refl
trim_end_plain (c ∷ []) h = rw h.0
trim_end_plain (c ∷ d ∷ s) h = rw (trim_end_plain (d ∷ s) h.1)

pub trim_plain : (s : Text) → All (λ c. is_space c ≡ false) s → trim_end (trim_start s) ≡ s
unfolding trim_start trim_end
trim_plain [] h = refl
trim_plain (c ∷ s) h = rw h.0 (trim_end_plain (c ∷ s) h)

pub All-mono {ℓ κ μ} :
    {A : Type ℓ} {P : A → Type κ} {Q : A → Type μ}
    → ((a : A) → P a → Q a)
    → (xs : List A) → All P xs
    → All Q xs
All-mono f [] h = tt
All-mono f (x ∷ xs) h = (f x h.0, All-mono f xs h.1)

IsDigit-space : (c : ℕ) → IsDigit c → is_space c ≡ false
unfolding is_space
IsDigit-space c h = ground arith

after_zero-IsDigit :
    (ds : Text) → All IsDigit ds → after_zero ds ≡ signed pos (parse_digits 10 0 (b'0' ∷ ds))
unfolding after_zero parse_nat
after_zero-IsDigit [] h = refl
after_zero-IsDigit (x ∷ ds) h = ground arith

integer_literal-IsDigit :
    (s : Text) → All IsDigit s → 0 < length s → integer_literal s ≡ signed pos (parse_digits 10 0 s)
unfolding integer_literal parse_nat
integer_literal-IsDigit [] h k = absurd (omega arith)
integer_literal-IsDigit (c ∷ ds) h k = ground (arith, after_zero-IsDigit ds h.1)

-- `BigInt(n.toString())` is `n`.
pub to_bigint-to_text : (n : ℕ) → to_bigint (to_text 10 n) ≡ ok (pos n)
unfolding to_bigint to_text parse_digits
to_bigint-to_text n =
    let t = to_text 10 n in
    let d = to_text-IsDigit n in
    rw (trim_plain t (All-mono IsDigit-space t d.0))
      (integer_literal-IsDigit t d.0 d.1 ∙ ap (signed pos) (digits-read (suc n) n [] (omega arith)))

-- `v.toString()` of a bigint.
unfoldable pub bigint_text : ℤ → Text
bigint_text (pos n) = to_text 10 n
bigint_text (negsuc n) = b'-' ∷ to_text 10 (suc n)

-- What only holds white space is 0.
pub to_bigint_blank : (s : Text) → All (λ c. is_space c ≡ true) s → to_bigint s ≡ ok (pos 0)
unfolding to_bigint trim_start
to_bigint_blank [] h = unfold trim_end integer_literal in refl
to_bigint_blank (c ∷ s) h = rw h.0 (to_bigint_blank s h.1)

pub to_bigint-bigint_text : (n : ℕ) → to_bigint (bigint_text (pos n)) ≡ ok (pos n)
unfolding bigint_text
to_bigint-bigint_text n = to_bigint-to_text n
