-- ===== src/Js/Json/Numbers.antt =====
-- The decimal text of a number is read back as that number.
use near_shield.Prelude.{
  ℕ, zero, suc, ◌/◌, ◌%◌, ◌<◌, ◌≤◌, ◌≡◌, refl, arith, ap, sym, subst, ◌∙◌, Bool, true, false,
  Bool-cases, inl, inr, some, [], ◌∷◌, ◌++◌, All, length, ltb, list_eq, ok,
}
use mathlib.Core.List.{append-nil}
use near_shield.Js.Text.{Text, to_text, digits, digit}
use near_shield.Js.BigInt.{parse_digits, parse_nat}
use near_shield.Js.Numerals.{IsDigit, to_text-IsDigit, digits-read, All-mono}
use near_shield.Js.Json.{num}
use near_shield.Js.Json.Parse.{
  Doubles, is_digit, is_number_unit, span, before, is_integer, number_value,
}

-- A text that does not go on with a unit of `p`.
abbrev pub Ends : (ℕ → Bool) → Text → Type 0
Ends p [] = Unit
Ends p (c ∷ cs) = p c ≡ false

pub span-append :
    (p : ℕ → Bool) (xs rest : Text)
    → All (λ c. p c ≡ true) xs
    → Ends p rest
    → span p (xs ++ rest) ≡ (xs, rest)
unfolding span
span-append p [] [] h e = refl
span-append p [] (c ∷ cs) h e = rw e refl
span-append p (x ∷ xs) rest h e = rw h.0 (ap (before x) (span-append p xs rest h.1 e))

IsDigit-is_digit : (c : ℕ) → IsDigit c → is_digit c ≡ true
unfolding is_digit
IsDigit-is_digit c h = ground arith

IsDigit-is_number_unit : (c : ℕ) → IsDigit c → is_number_unit c ≡ true
unfolding is_number_unit is_digit
IsDigit-is_number_unit c h = ground arith

-- The first digit of a positive number is not 0.
digits-head :
    (f n : ℕ) (cs : Text)
    → n < f
    → 0 < n
    → (c : ℕ) × (ds : Text) × (digits f 10 n cs ≡ c ∷ ds) × (49 ≤ c)
unfolding digits
digits-head zero n cs h k = elim h [ ]
digits-head (suc f) n cs h k = elim (Bool-cases (ltb n 10)) [
  | inl small ↦ (digit n, cs, rw small refl, unfold digit in ground arith)
  | inr large ↦
      let (c, ds, e, g) =
        digits-head f (n / 10) (digit (n % 10) ∷ cs) (ground arith) (ground arith) in
      (c, ds, rw large e, g)
]

is_integer-digits : (c : ℕ) (ds : Text) → All IsDigit (c ∷ ds) → 49 ≤ c → is_integer (c ∷ ds) ≡ true
unfolding is_integer
is_integer-digits c [] h k = IsDigit-is_digit c h.0
is_integer-digits c (d ∷ ds) h k =
    let e : span is_digit (d ∷ ds) ≡ (d ∷ ds, []) =
      ap (span is_digit) (sym (append-nil (d ∷ ds)))
      ∙ span-append is_digit (d ∷ ds) [] (All-mono IsDigit-is_digit (d ∷ ds) h.1) tt in
    rw (IsDigit-is_digit c h.0, e) (unfold list_eq in ground arith)

is_integer-to_text : (n : ℕ) → is_integer (to_text 10 n) ≡ true
unfolding to_text
is_integer-to_text zero = unfold digits digit is_integer is_digit in refl
is_integer-to_text (suc n) =
    let (c, ds, e, g) = digits-head (suc (suc n)) (suc n) [] (omega arith) (omega arith) in
    rw e (is_integer-digits c ds (subst (All IsDigit) e (to_text-IsDigit (suc n)).0) g)

parse_nat-to_text : (n : ℕ) → parse_nat 10 (to_text 10 n) ≡ some n
unfolding parse_nat to_text parse_digits
parse_nat-to_text n =
    nonempty (to_text 10 n) (to_text-IsDigit n).1 ∙ digits-read (suc n) n [] (omega arith)
  where
    nonempty : (t : Text) → 0 < length t → parse_nat 10 t ≡ parse_digits 10 0 t
    nonempty [] h = absurd (omega arith)
    nonempty (c ∷ cs) h = refl

pub number_value-to_text :
    (d : Doubles) (n : ℕ) → n ≤ 9007199254740992 → number_value d (to_text 10 n) ≡ ok (num n)
unfolding number_value
number_value-to_text d n h = rw (is_integer-to_text n, parse_nat-to_text n) (ground arith)

pub span-to_text :
    (n : ℕ) (rest : Text)
    → Ends is_number_unit rest
    → span is_number_unit (to_text 10 n ++ rest) ≡ (to_text 10 n, rest)
span-to_text n rest h =
    span-append is_number_unit (to_text 10 n) rest
      (All-mono IsDigit-is_number_unit (to_text 10 n) (to_text-IsDigit n).0) h
