-- ===== src/Core/Encrypt/Printed.antt =====
-- Printed JSON has no lone surrogates, so it survives UTF-8.
use mathlib.Core.List.{append-nil}
use near_shield.Prelude.{
  ℕ, zero, suc, ◌-◌, ◌/◌, ◌%◌, ◌<◌, ◌≡◌, refl, arith, ap, subst, ◌∙◌, true, false, Bool-cases, inl,
  inr, ◌&&◌, All, List, [], ◌∷◌, ◌++◌, length, replicate, ltb, leb,
}
use near_shield.Js.Text.{Text, codes, to_text, digits, digit}
use near_shield.Js.Numerals.{IsDigit, to_text-IsDigit}
use near_shield.Js.Json.{
  Json, Items, Fields, null, bool, num, real, str, arr, obj, nil, cons, end, field, stringify,
  items_text, fields_text, escape_u, quote_units, quote_unit, quote_text,
}
use near_shield.Js.Json.Keys.{IsUnit, IsPlain, ItemsPlain, FieldsPlain}
use near_shield.Core.Encrypt.Utf8.{utf8, is_high, is_low}
use near_shield.Core.Encrypt.TextDecoder.{drop_bom, decode_utf8}
use near_shield.Core.Encrypt.WellFormed.{
  IsBasic, IsWellFormed, Keeps, Keeps-All, Keeps-append, Keeps-cons, decode_from-utf8,
}

All-append {ℓ κ} :
    {A : Type ℓ} (P : A → Type κ) (xs ys : List A) → All P xs → All P ys → All P (xs ++ ys)
All-append P [] ys h g = g
All-append P (x ∷ xs) ys h g = (h.0, All-append P xs ys h.1 g)

All-replicate {ℓ κ} : {A : Type ℓ} (P : A → Type κ) (n : ℕ) (a : A) → P a → All P (replicate n a)
All-replicate P zero a h = tt
All-replicate P (suc n) a h = (h, All-replicate P n a h)

IsBasic-digit : (d : ℕ) → d < 36 → IsBasic (digit d)
unfolding digit
IsBasic-digit d h = ground arith

IsBasic-digits_16 : (f n : ℕ) (cs : Text) → All IsBasic cs → All IsBasic (digits f 16 n cs)
unfolding digits
IsBasic-digits_16 zero n cs h = h
IsBasic-digits_16 (suc f) n cs h = elim (Bool-cases (ltb n 16)) [
  | inl small ↦ rw small (IsBasic-digit n (ground arith), h)
  | inr large ↦
      rw large (
        IsBasic-digits_16 f (n / 16) (digit (n % 16) ∷ cs)
          (IsBasic-digit (n % 16) (omega arith), h))
]

IsBasic-digits_10 : (f n : ℕ) (cs : Text) → All IsBasic cs → All IsBasic (digits f 10 n cs)
unfolding digits
IsBasic-digits_10 zero n cs h = h
IsBasic-digits_10 (suc f) n cs h = elim (Bool-cases (ltb n 10)) [
  | inl small ↦ rw small (IsBasic-digit n (ground arith), h)
  | inr large ↦
      rw large (
        IsBasic-digits_10 f (n / 10) (digit (n % 10) ∷ cs)
          (IsBasic-digit (n % 10) (omega arith), h))
]

IsBasic-escape_u : (c : ℕ) → All IsBasic (escape_u c)
unfolding escape_u to_text
IsBasic-escape_u c =
    let t = digits (suc c) 16 c [] in
    (
      (omega arith, inl (omega arith)),
      (
        (omega arith, inl (omega arith)),
        All-append IsBasic (replicate (4 - length t) b'0') t
            (All-replicate IsBasic (4 - length t) b'0' (omega arith, inl (omega arith)))
            (IsBasic-digits_16 (suc c) c [] tt),
      ),
    )

-- A unit that is printed as it is is no surrogate.
IsBasic-quote_unit : (c : ℕ) → c < 65536 → All IsBasic (quote_unit c)
unfolding quote_unit
IsBasic-quote_unit c h = ground (arith, IsBasic-escape_u c)

IsWellFormed-pair :
    (c d : ℕ) (t : Text)
    → (is_high c && is_low d) ≡ true
    → IsWellFormed t
    → IsWellFormed (c ∷ d ∷ t)
unfolding IsWellFormed
IsWellFormed-pair c d t h g = rw h g

pair_lem :
    (c d : ℕ)
    → (is_high c && is_low d) ≡ (leb 0xd800 c && leb c 0xdbff && leb 0xdc00 d && leb d 0xdfff)
unfolding is_high is_low
pair_lem c d = ground arith

Keeps-quote_units : (s : Text) → All IsUnit s → Keeps (quote_units s)
unfolding quote_units
Keeps-quote_units [] h = λ t w. w
Keeps-quote_units (c ∷ []) h = Keeps-All (quote_unit c) (IsBasic-quote_unit c h.0)
Keeps-quote_units (c ∷ d ∷ cs) h =
    elim (Bool-cases (leb 0xd800 c && leb c 0xdbff && leb 0xdc00 d && leb d 0xdfff)) [
      | inl pair ↦ rw pair (λ t w.
          IsWellFormed-pair c d (quote_units cs ++ t) (pair_lem c d ∙ pair)
            (Keeps-quote_units cs h.1.1 t w))
      | inr single ↦ rw single (
          Keeps-append (quote_unit c) (quote_units (d ∷ cs))
            (Keeps-All (quote_unit c) (IsBasic-quote_unit c h.0)) (Keeps-quote_units (d ∷ cs) h.1))
    ]

-- An ASCII unit.
basic : (c : ℕ) → c < 128 → IsBasic c
basic c h = ground arith

Keeps-quote_text : (s : Text) → All IsUnit s → Keeps (quote_text s)
unfolding quote_text
Keeps-quote_text s h = Keeps-cons b'"' (quote_units s ++ b'"' ∷ []) (basic b'"' (omega arith)) (
    Keeps-append (quote_units s) (b'"' ∷ []) (Keeps-quote_units s h)
      (Keeps-All (b'"' ∷ []) (basic b'"' (omega arith), tt)))

-- A key, a colon, a value and the rest of an object.
Keeps-field :
    (k value rest : Text)
    → All IsUnit k
    → Keeps value
    → Keeps rest
    → Keeps (quote_text k ++ (b':' ∷ (value ++ rest)))
Keeps-field k value rest h g w =
    Keeps-append (quote_text k) (b':' ∷ (value ++ rest)) (Keeps-quote_text k h)
      (Keeps-cons b':' (value ++ rest) (basic b':' (omega arith)) (Keeps-append value rest g w))

mutual
  unfolding stringify IsPlain to_text

  Keeps-stringify : (v : Json) → IsPlain v → Keeps (stringify v)
  Keeps-stringify null p = Keeps-All (codes "null") (omega arith)
  Keeps-stringify (bool true) p = Keeps-All (codes "true") (omega arith)
  Keeps-stringify (bool false) p = Keeps-All (codes "false") (omega arith)
  Keeps-stringify (num n) p = Keeps-All (to_text 10 n) (IsBasic-digits_10 (suc n) n [] tt)
  Keeps-stringify (real t) p = absurd p
  Keeps-stringify (str s) p = Keeps-quote_text s p
  Keeps-stringify (arr nil) p = Keeps-All (codes "[]") (omega arith)
  Keeps-stringify (arr (cons v xs)) p =
      Keeps-cons b'[' (stringify v ++ items_text xs) (basic b'[' (omega arith)) (
        Keeps-append (stringify v) (items_text xs) (Keeps-stringify v p.0)
          (Keeps-items_text xs p.1))
  Keeps-stringify (obj end) p = Keeps-All (codes "{}") (omega arith)
  Keeps-stringify (obj (field k v fs)) p =
      Keeps-cons b'{' (quote_text k ++ (b':' ∷ (stringify v ++ fields_text fs)))
        (basic b'{' (omega arith))
        (Keeps-field k (stringify v) (fields_text fs) p.1.0 (Keeps-stringify v p.1.1)
          (Keeps-fields_text fs p.1.2))

  Keeps-items_text : (xs : Items) → ItemsPlain xs → Keeps (items_text xs)
  Keeps-items_text nil p = Keeps-All (codes "]") (omega arith)
  Keeps-items_text (cons v xs) p =
      Keeps-cons b',' (stringify v ++ items_text xs) (basic b',' (omega arith)) (
        Keeps-append (stringify v) (items_text xs) (Keeps-stringify v p.0)
          (Keeps-items_text xs p.1))

  Keeps-fields_text : (fs : Fields) → FieldsPlain fs → Keeps (fields_text fs)
  Keeps-fields_text end p = Keeps-All (codes "}") (omega arith)
  Keeps-fields_text (field k v fs) p =
      Keeps-cons b',' (quote_text k ++ (b':' ∷ (stringify v ++ fields_text fs)))
        (basic b',' (omega arith))
        (Keeps-field k (stringify v) (fields_text fs) p.0 (Keeps-stringify v p.1)
          (Keeps-fields_text fs p.2))

IsWellFormed-stringify : (v : Json) → IsPlain v → IsWellFormed (stringify v)
unfolding IsWellFormed
IsWellFormed-stringify v p =
    subst IsWellFormed (append-nil (stringify v)) (Keeps-stringify v p [] tt)

drop_bom-stringify : (v : Json) → IsPlain v → drop_bom (stringify v) ≡ stringify v
unfolding stringify IsPlain quote_text
drop_bom-stringify null p = refl
drop_bom-stringify (bool true) p = refl
drop_bom-stringify (bool false) p = refl
drop_bom-stringify (num n) p = digits_first (to_text 10 n) (to_text-IsDigit n).0
  where
    digits_first : (t : Text) → All IsDigit t → drop_bom t ≡ t
    digits_first [] h = refl
    digits_first (c ∷ cs) h = ground arith
drop_bom-stringify (real t) p = absurd p
drop_bom-stringify (str s) p = refl
drop_bom-stringify (arr nil) p = refl
drop_bom-stringify (arr (cons v xs)) p = refl
drop_bom-stringify (obj end) p = refl
drop_bom-stringify (obj (field k v fs)) p = refl

-- `TextDecoder` undoes `TextEncoder` on what `JSON.stringify` prints.
pub decode_utf8-stringify : (v : Json) → IsPlain v → decode_utf8 (utf8 (stringify v)) ≡ stringify v
unfolding decode_utf8
decode_utf8-stringify v p =
    ap drop_bom (decode_from-utf8 (stringify v) (IsWellFormed-stringify v p))
    ∙ drop_bom-stringify v p
