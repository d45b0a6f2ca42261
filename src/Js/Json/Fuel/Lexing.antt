-- ===== src/Js/Json/Fuel/Lexing.antt =====
-- What the lexing steps leave of the input.
use near_shield.Prelude.{
  ℕ, zero, suc, ◌+◌, ◌*◌, ◌<◌, ◌≤◌, ◌≡◌, refl, arith, Bool, Bool-cases, inl, inr, Option, none,
  some, [], ◌∷◌, length, ltb, ◌==◌, Result, ok, err, ◌>>=◌, syntax_error,
}
use near_shield.Js.Text.{Text}
use near_shield.Js.Json.Parse.{
  skip_space, Mode, plain, escaped, hex, escape_value, hex_value, put, chars, span, parse_key,
  parse_colon, parse_word,
}

-- A SyntaxError, or a value with less than `n` units left.
abbrev pub Within : {A : Type 0} → ℕ → Result (A × Text) → Type 0
Within n (err e) = e ≡ syntax_error
Within n (ok (v, rest)) = length rest < n

pub Within-bind :
    {A B : Type 0} (n m : ℕ) (r : Result (A × Text)) (next : A × Text → Result (B × Text))
    → Within n r
    → ((v : A) (rest : Text) → length rest < n → Within m (next (v, rest)))
    → Within m (r >>= next)
Within-bind n m (err e) next h step = h
Within-bind n m (ok (v, rest)) next h step = step v rest h

pub Within-mono : {A : Type 0} (n m : ℕ) (r : Result (A × Text)) → n ≤ m → Within n r → Within m r
Within-mono n m (err e) le h = h
Within-mono n m (ok (v, rest)) le h = omega (arith, h, le)

pub length-skip_space : (cs : Text) → length (skip_space cs) ≤ length cs
unfolding skip_space
length-skip_space [] = omega arith
length-skip_space (c ∷ cs) = ground (arith, length-skip_space cs)

pub Within-put : (c n : ℕ) (r : Result (Text × Text)) → Within n r → Within (suc n) (put c r)
Within-put c n (err e) h = h
Within-put c n (ok (s, rest)) h = omega (arith, h)

pub chars-Within : (m : Mode) (cs : Text) → Within (length cs) (chars m cs)
unfolding chars
chars-Within m [] = refl
chars-Within plain (c ∷ cs) = elim (Bool-cases (c == b'"')) [
  | inl quote ↦ rw quote (omega arith)
  | inr other ↦ elim (Bool-cases (c == b'\\')) [
    | inl slash ↦
        rw (other, slash)
          (Within-mono (length cs) (suc (length cs)) _ (omega arith) (chars-Within escaped cs))
    | inr unit ↦ elim (Bool-cases (ltb c 32)) [
      | inl control ↦ rw (other, unit, control) refl
      | inr keep ↦ rw (other, unit, keep) (Within-put c (length cs) _ (chars-Within plain cs))
    ]
  ]
]
chars-Within escaped (c ∷ cs) = elim (Bool-cases (c == b'u')) [
  | inl unicode ↦
      rw unicode
        (Within-mono (length cs) (suc (length cs)) _ (omega arith) (chars-Within (hex 3 0) cs))
  | inr simple ↦ rw simple (by_escape (escape_value c) (chars-Within plain cs))
]
  where
    by_escape :
        (o : Option ℕ)
        → Within (length cs) (chars plain cs)
        → Within {A = Text}
            (suc (length cs))
            (elim o [ none ↦ err syntax_error | some d ↦ put d (chars plain cs) ])
    by_escape none h = refl
    by_escape (some d) h = Within-put d (length cs) _ h
chars-Within (hex zero v) (c ∷ cs) = by_digit (hex_value c) (chars-Within plain cs)
  where
    by_digit :
        (o : Option ℕ)
        → Within (length cs) (chars plain cs)
        → Within {A = Text}
            (suc (length cs))
            (elim o [ none ↦ err syntax_error | some d ↦ put (v * 16 + d) (chars plain cs) ])
    by_digit none h = refl
    by_digit (some d) h = Within-put (v * 16 + d) (length cs) _ h
chars-Within (hex (suc n) v) (c ∷ cs) = by_digit (hex_value c) (λ w. chars-Within (hex n w) cs)
  where
    by_digit :
        (o : Option ℕ)
        → ((w : ℕ) → Within (length cs) (chars (hex n w) cs))
        → Within {A = Text}
            (suc (length cs))
            (elim o [ none ↦ err syntax_error | some d ↦ chars (hex n (v * 16 + d)) cs ])
    by_digit none h = refl
    by_digit (some d) h = Within-mono (length cs) (suc (length cs)) _ (omega arith) (h (v * 16 + d))

-- The same for a step that only gives the rest.
abbrev pub Leaves : ℕ → Result Text → Type 0
Leaves n (err e) = e ≡ syntax_error
Leaves n (ok rest) = length rest < n

pub Leaves-bind :
    {B : Type 0} (n m : ℕ) (r : Result Text) (next : Text → Result (B × Text))
    → Leaves n r
    → ((rest : Text) → length rest < n → Within m (next rest))
    → Within m (r >>= next)
Leaves-bind n m (err e) next h step = h
Leaves-bind n m (ok rest) next h step = step rest h

pub parse_word-Leaves : (w cs : Text) → Leaves (suc (length cs)) (parse_word w cs)
unfolding parse_word
parse_word-Leaves [] cs = omega arith
parse_word-Leaves (w ∷ ws) [] = refl
parse_word-Leaves (w ∷ ws) (c ∷ cs) = elim (Bool-cases (c == w)) [
  | inl same ↦ rw same (longer (parse_word ws cs) (parse_word-Leaves ws cs))
  | inr other ↦ rw other refl
]
  where
    longer : (r : Result Text) → Leaves (suc (length cs)) r → Leaves (suc (suc (length cs))) r
    longer (err e) h = h
    longer (ok rest) h = omega (arith, h)

pub parse_colon-Leaves : (cs : Text) → Leaves (length cs) (parse_colon cs)
unfolding parse_colon
parse_colon-Leaves [] = refl
parse_colon-Leaves (c ∷ cs) = elim (Bool-cases (c == b':')) [
  | inl colon ↦ rw colon (omega arith)
  | inr other ↦ rw other refl
]

pub parse_key-Within : (cs : Text) → Within (length cs) (parse_key cs)
unfolding parse_key
parse_key-Within [] = refl
parse_key-Within (c ∷ cs) = elim (Bool-cases (c == b'"')) [
  | inl quote ↦
      rw quote (Within-mono (length cs) (suc (length cs)) _ (omega arith) (chars-Within plain cs))
  | inr other ↦ rw other refl
]

pub span-length : (p : ℕ → Bool) (cs : Text) → length (span p cs).1 ≤ length cs
unfolding span
span-length p [] = omega arith
span-length p (c ∷ cs) = elim (Bool-cases (p c)) [
  | inl more ↦ rw more (omega (arith, span-length p cs))
  | inr done ↦ rw done (omega arith)
]
