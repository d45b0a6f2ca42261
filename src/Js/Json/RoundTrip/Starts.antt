-- ===== src/Js/Json/RoundTrip/Starts.antt =====
-- How printed values begin.
use near_shield.Prelude.{
  ℕ, ◌<◌, ◌≡◌, refl, arith, true, false, All, [], ◌∷◌, ◌++◌, length, ◌==◌, ok, ◌>>=◌,
}
use near_shield.Js.Text.{Text, to_text}
use near_shield.Js.Numerals.{IsDigit, to_text-IsDigit}
use near_shield.Js.Json.{
  Json, null, bool, num, real, str, arr, obj, nil, cons, end, field, quote_text, stringify,
}
use near_shield.Js.Json.Parse.{
  Doubles, is_json_space, skip_space, is_number_unit, span, number_value, parse_scalar,
}
use near_shield.Js.Json.Keys.{IsPlain}

-- A digit begins no other value and is no space.
pub digit_start : (c : ℕ) → IsDigit c → is_json_space c ≡ false
unfolding is_json_space
digit_start c h = ground arith

pub to_text-IsDigit_first : (n : ℕ) → (c : ℕ) × (ds : Text) × (to_text 10 n ≡ c ∷ ds) × IsDigit c
to_text-IsDigit_first n = split (to_text 10 n) (to_text-IsDigit n).0 (to_text-IsDigit n).1
  where
    split :
        (t : Text) → All IsDigit t → 0 < length t → (c : ℕ) × (ds : Text) × (t ≡ c ∷ ds) × IsDigit c
    split [] h k = absurd (omega arith)
    split (c ∷ ds) h k = (c, ds, refl, h.0)

pub parse_scalar-digit :
    (d : Doubles) (c : ℕ) (cs : Text)
    → IsDigit c
    → parse_scalar d c cs ≡ (
        number_value d (span is_number_unit (c ∷ cs)).0 >>= λ v.
        ok (v, (span is_number_unit (c ∷ cs)).1))
unfolding parse_scalar
parse_scalar-digit d c cs h = ground arith

-- The first unit of a printed value: no space and no closing bracket.
pub printed_start :
    (v : Json)
    → IsPlain v
    → (c : ℕ) × (cs : Text) × (stringify v ≡ c ∷ cs)
      × (is_json_space c ≡ false)
      × ((c == b']') ≡ false)
unfolding stringify IsPlain is_json_space quote_text
printed_start null h = (b'n', _, refl, refl, refl)
printed_start (bool true) h = (b't', _, refl, refl, refl)
printed_start (bool false) h = (b'f', _, refl, refl, refl)
printed_start (num n) h =
    let (c, ds, e, g) = to_text-IsDigit_first n in (c, ds, e, digit_start c g, ground arith)
printed_start (real t) h = absurd h
printed_start (str s) h = (b'"', _, refl, refl, refl)
printed_start (arr nil) h = (b'[', _, refl, refl, refl)
printed_start (arr (cons v xs)) h = (b'[', _, refl, refl, refl)
printed_start (obj end) h = (b'{', _, refl, refl, refl)
printed_start (obj (field k v fs)) h = (b'{', _, refl, refl, refl)

pub skip_space-stringify :
    (v : Json) (t : Text) → IsPlain v → skip_space (stringify v ++ t) ≡ stringify v ++ t
unfolding skip_space
skip_space-stringify v t h = let (c, cs, e, space, _) = printed_start v h in rw (e, space) refl
