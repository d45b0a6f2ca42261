-- ===== src/Js/Json/Strings.antt =====
-- A quoted string is read back, whatever its code units are.
use mathlib.Core.List.{append_assoc}
use near_shield.Prelude.{
  ℕ, zero, suc, ◌+◌, ◌/◌, ◌%◌, ◌-◌, ◌<◌, ◌≤◌, ◌≡◌, refl, arith, ap, sym, subst, ◌∙◌, Bool, true,
  false, Bool-cases, inl, inr, ◌⊎◌, ◌&&◌, ◌||◌, some, [], ◌∷◌, ◌++◌, ltb, leb, lt→ltb, ◌==◌,
  list_eq, list_eq_iff, if◌then◌else◌, ok,
}
use near_shield.Js.Text.{Text, to_text, pad_start, digits, digit}
use near_shield.Js.Numerals.{digit_value-digit}
use near_shield.Js.Json.{escape_u, quote_unit, quote_units}
use near_shield.Js.Json.Parse.{plain, escaped, escape_value, hex_value, put, chars}

-- Four digits of a 16-bit number.
abbrev four : ℕ → Text
four c = digit (c / 4096) ∷ digit (c / 256 % 16) ∷ digit (c / 16 % 16) ∷ digit (c % 16) ∷ []

-- A test that every number under a bound passes.
passes : (ℕ → Bool) → ℕ → Bool
passes test zero = true
passes test (suc bound) = passes test bound && test bound

passes-lookup :
    (test : ℕ → Bool) (bound c : ℕ) → c < bound → passes test bound ≡ true → test c ≡ true
unfolding passes
passes-lookup test zero c small h = absurd (omega arith)
passes-lookup test (suc bound) c small h = ground (arith, passes-lookup test bound c)

four_below_32 : passes (λ c. list_eq (pad_start 4 b'0' (to_text 16 c)) (four c)) 32 ≡ true
unfolding passes list_eq to_text digits digit
four_below_32 = refl

four_surrogates :
    passes (λ c. list_eq (pad_start 4 b'0' (to_text 16 (0xd800 + c))) (four (0xd800 + c))) 2048
    ≡ true
unfolding passes list_eq to_text digits digit
four_surrogates = refl

hex_value-digit : (n : ℕ) → n < 16 → hex_value (digit n) ≡ some n
unfolding hex_value
hex_value-digit n h = rw (digit_value-digit n (omega arith), hex_value) (rw (lt→ltb n 16 h) refl)

-- The four digits of an escape.
chars-four :
    (c : ℕ) (t : Text) → c < 65536 → chars escaped (b'u' ∷ (four c ++ t)) ≡ put c (chars plain t)
unfolding chars
chars-four c t h =
    rw (hex_value-digit (c / 4096) (omega arith), chars)
      (rw (hex_value-digit (c / 256 % 16) (omega arith), chars)
        (rw (hex_value-digit (c / 16 % 16) (omega arith), chars)
          (rw (hex_value-digit (c % 16) (omega arith), chars)
            (ap (λ (n : ℕ). put n (chars plain t)) (omega arith)))))

chars-escape_u :
    (c : ℕ) (t : Text)
    → c < 65536
    → pad_start 4 b'0' (to_text 16 c) ≡ four c
    → chars plain (escape_u c ++ t) ≡ put c (chars plain t)
unfolding escape_u chars
chars-escape_u c t h e = rw e (chars-four c t h)

-- The units that are escaped by a letter or by themselves.
abbrev named : ℕ → Bool
named c = c == b'"' || c == b'\\' || c == 8 || c == 9 || c == 10 || c == 12 || c == 13

named_cases :
    (P : ℕ → Type 0) (c : ℕ)
    → P b'"'
    → P b'\\'
    → P 8
    → P 9
    → P 10
    → P 12
    → P 13
    → named c ≡ true
    → P c
named_cases P c p0 p1 p2 p3 p4 p5 p6 h = elim (which c h) [
  | inl e ↦ subst P (sym e) p0
  | inr (inl e) ↦ subst P (sym e) p1
  | inr (inr (inl e)) ↦ subst P (sym e) p2
  | inr (inr (inr (inl e))) ↦ subst P (sym e) p3
  | inr (inr (inr (inr (inl e)))) ↦ subst P (sym e) p4
  | inr (inr (inr (inr (inr (inl e))))) ↦ subst P (sym e) p5
  | inr (inr (inr (inr (inr (inr e))))) ↦ subst P (sym e) p6
]
  where
    which :
        (c : ℕ)
        → named c ≡ true
        → (c ≡ b'"') ⊎ ((c ≡ b'\\') ⊎ ((c ≡ 8) ⊎ ((c ≡ 9) ⊎ ((c ≡ 10) ⊎ ((c ≡ 12) ⊎ (c ≡ 13))))))
    which c h = ground arith

escaped_unit : ℕ → Bool
escaped_unit c = ltb c 32 || leb 0xd800 c && leb c 0xdfff

quote_unit_raw :
    (c : ℕ) → named c ≡ false → quote_unit c ≡ (if escaped_unit c then escape_u c else c ∷ [])
unfolding quote_unit escaped_unit
quote_unit_raw c h = ground arith

escaped_unit-four :
    (c : ℕ) → escaped_unit c ≡ true → (c < 65536) × (pad_start 4 b'0' (to_text 16 c) ≡ four c)
unfolding escaped_unit
escaped_unit-four c h = elim (Bool-cases (ltb c 32)) [
  | inl small ↦
      let lt : c < 32 = ground arith in
      (omega (arith, lt), (list_eq_iff _ _).0 (passes-lookup _ 32 c lt four_below_32))
  | inr large ↦
      let low : 0xd800 ≤ c = ground arith in
      let high : c ≤ 0xdfff = ground arith in
      let e : 0xd800 + (c - 0xd800) ≡ c = omega (arith, low) in
      (
        omega (arith, high),
        subst (λ (n : ℕ). pad_start 4 b'0' (to_text 16 n) ≡ four n) e
            ((list_eq_iff _ _).0
              (passes-lookup _ 2048 (c - 0xd800) (omega (arith, low, high)) four_surrogates)),
      )
]

raw_lem : (c : ℕ) → named c ≡ false → escaped_unit c ≡ false → (c == b'"') ≡ false
raw_lem c h g = ground arith

chars-plain :
    (c : ℕ) (t : Text)
    → named c ≡ false
    → escaped_unit c ≡ false
    → chars plain (c ∷ t) ≡ put c (chars plain t)
unfolding chars escaped_unit
chars-plain c t h g = ground arith

chars-quote_unit : (c : ℕ) (t : Text) → chars plain (quote_unit c ++ t) ≡ put c (chars plain t)
unfolding quote_unit chars escape_value
chars-quote_unit c t = elim (Bool-cases (named c)) [
  | inl h ↦
      named_cases (λ n. chars plain (quote_unit n ++ t) ≡ put n (chars plain t)) c refl refl refl
        refl refl refl refl h
  | inr h ↦ quoted c t h
]
  where
    quoted :
        (c : ℕ) (t : Text)
        → named c ≡ false
        → chars plain (quote_unit c ++ t) ≡ put c (chars plain t)
    quoted c t h = elim (Bool-cases (escaped_unit c)) [
      | inl g ↦
          let (lt, e) = escaped_unit-four c g in
          ap (λ s. chars plain (s ++ t))
            (quote_unit_raw c h ∙ ap (λ b. if b then escape_u c else c ∷ []) g)
          ∙ chars-escape_u c t lt e
      | inr g ↦
          ap (λ s. chars plain (s ++ t))
            (quote_unit_raw c h ∙ ap (λ b. if b then escape_u c else c ∷ []) g)
          ∙ chars-plain c t h g
    ]

chars-surrogate : (c : ℕ) (t : Text) → 0xd800 ≤ c → chars plain (c ∷ t) ≡ put c (chars plain t)
unfolding chars
chars-surrogate c t h = ground arith

is_pair : ℕ → ℕ → Bool
is_pair c d = leb 0xd800 c && leb c 0xdbff && leb 0xdc00 d && leb d 0xdfff

is_pair_bounds : (c d : ℕ) → is_pair c d ≡ true → (0xd800 ≤ c) × (0xd800 ≤ d)
unfolding is_pair
is_pair_bounds c d h = ground arith

-- The printed units of a string, up to the closing quote, are read back.
pub chars-quote_units : (s rest : Text) → chars plain (quote_units s ++ b'"' ∷ rest) ≡ ok (s, rest)
unfolding quote_units is_pair
chars-quote_units [] rest = unfold chars in refl
chars-quote_units (c ∷ []) rest =
    chars-quote_unit c (b'"' ∷ rest) ∙ ap (put c) (chars-quote_units [] rest)
chars-quote_units (c ∷ d ∷ cs) rest = elim (Bool-cases (is_pair c d)) [
  | inl pair ↦
      let (hc, hd) = is_pair_bounds c d pair in
      let ih = chars-quote_units cs rest in
      rw pair (
        chars-surrogate c (d ∷ (quote_units cs ++ b'"' ∷ rest)) hc
        ∙ ap (put c) (chars-surrogate d (quote_units cs ++ b'"' ∷ rest) hd ∙ ap (put d) ih))
  | inr single ↦
      let ih = chars-quote_units (d ∷ cs) rest in
      rw single (
        ap (chars plain) (append_assoc (quote_unit c) (quote_units (d ∷ cs)) (b'"' ∷ rest))
        ∙ chars-quote_unit c (quote_units (d ∷ cs) ++ b'"' ∷ rest)
        ∙ ap (put c) ih)
]
