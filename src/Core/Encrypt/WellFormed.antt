-- ===== src/Core/Encrypt/WellFormed.antt =====
-- Texts without lone surrogates are decoded from their UTF-8 encoding.
use mathlib.Core.List.{append-nil, append_assoc}
use near_shield.Prelude.{
  ℕ, ◌+◌, ◌-◌, ◌*◌, ◌<◌, ◌≤◌, ◌≡◌, ◌⊎◌, refl, arith, ap, sym, subst, ◌∙◌, true, false, Bool-cases,
  inl, inr, ◌&&◌, All, [], ◌∷◌, ◌++◌, if◌then◌else◌,
}
use near_shield.Js.Text.{Text, Bytes}
use near_shield.Core.Encrypt.Utf8.{is_high, is_low, encode_point, encode_unit, utf8}
use near_shield.Core.Encrypt.TextDecoder.{start, units, decode_from}
use near_shield.Core.Encrypt.Characters.{decode_from-encode_point}

-- A unit that stands for itself.
abbrev pub IsBasic : ℕ → Type 0
IsBasic c = (c < 65536) × ((c < 0xd800) ⊎ (0xdfff < c))

-- Surrogates stand in pairs.
unfoldable pub IsWellFormed : Text → Type 0
IsWellFormed [] = Unit
IsWellFormed (c ∷ []) = IsBasic c
IsWellFormed (c ∷ d ∷ cs) =
    if is_high c && is_low d then IsWellFormed cs else IsBasic c × IsWellFormed (d ∷ cs)

units_basic : (c : ℕ) → IsBasic c → units c ≡ c ∷ []
unfolding units
units_basic c h = ground arith

encode_unit_basic : (c : ℕ) → IsBasic c → encode_unit c ≡ encode_point c
unfolding encode_unit
encode_unit_basic c h = ap encode_point (ground arith)

decode_unit :
    (c : ℕ) (bs : Bytes)
    → IsBasic c
    → decode_from start (encode_unit c ++ bs) ≡ c ∷ decode_from start bs
decode_unit c bs h =
    ap (λ t. decode_from start (t ++ bs)) (encode_unit_basic c h)
    ∙ decode_from-encode_point c bs (record { bound = omega arith; no_surrogate = h.1 })
    ∙ ap (λ t. t ++ decode_from start bs) (units_basic c h)

pair_bounds :
    (c d : ℕ)
    → (is_high c && is_low d) ≡ true
    → (0xd800 ≤ c) × (c ≤ 0xdbff) × (0xdc00 ≤ d) × (d ≤ 0xdfff)
unfolding is_high is_low
pair_bounds c d h = ground arith

units_pair :
    (c d : ℕ)
    → (is_high c && is_low d) ≡ true
    → units (0x10000 + (c - 0xd800) * 1024 + (d - 0xdc00)) ≡ c ∷ d ∷ []
unfolding units
units_pair c d h = let b = pair_bounds c d h in ground arith

decode_pair :
    (c d : ℕ) (bs : Bytes)
    → (is_high c && is_low d) ≡ true
    → decode_from start (encode_point (0x10000 + (c - 0xd800) * 1024 + (d - 0xdc00)) ++ bs)
      ≡ c ∷ d ∷ decode_from start bs
decode_pair c d bs h =
    let b = pair_bounds c d h in
    decode_from-encode_point (0x10000 + (c - 0xd800) * 1024 + (d - 0xdc00)) bs
      (record { bound = omega (arith, b); no_surrogate = inr (omega (arith, b)) })
    ∙ ap (λ t. t ++ decode_from start bs) (units_pair c d h)

pub decode_from-utf8 : (s : Text) → IsWellFormed s → decode_from start (utf8 s) ≡ s
unfolding utf8 IsWellFormed
decode_from-utf8 [] h = unfold decode_from in refl
decode_from-utf8 (c ∷ []) h =
    ap (decode_from start) (sym (append-nil (encode_unit c)))
    ∙ decode_unit c [] h
    ∙ ap (◌∷◌ c) (decode_from-utf8 [] tt)
decode_from-utf8 (c ∷ d ∷ cs) h = elim (Bool-cases (is_high c && is_low d)) [
  | inl pair ↦
      rw pair
        (decode_pair c d (utf8 cs) pair ∙ ap (λ t. c ∷ d ∷ t) (decode_from-utf8 cs (rw pair at h)))
  | inr single ↦
      let w : IsBasic c × IsWellFormed (d ∷ cs) = rw single at h in
      rw single (decode_unit c (utf8 (d ∷ cs)) w.0 ∙ ap (◌∷◌ c) (decode_from-utf8 (d ∷ cs) w.1))
]

-- A text that keeps what follows it well formed.
abbrev pub Keeps : Text → Type 0
Keeps s = (t : Text) → IsWellFormed t → IsWellFormed (s ++ t)

basic_not_high : (c d : ℕ) → IsBasic c → (is_high c && is_low d) ≡ false
unfolding is_high
basic_not_high c d h = ground arith

IsBasic-cons : (c : ℕ) (t : Text) → IsBasic c → IsWellFormed t → IsWellFormed (c ∷ t)
unfolding IsWellFormed
IsBasic-cons c [] h g = h
IsBasic-cons c (d ∷ cs) h g = rw (basic_not_high c d h) (h, g)

pub Keeps-All : (s : Text) → All IsBasic s → Keeps s
Keeps-All [] h t g = g
Keeps-All (c ∷ s) h t g = IsBasic-cons c (s ++ t) h.0 (Keeps-All s h.1 t g)

pub Keeps-append : (r s : Text) → Keeps r → Keeps s → Keeps (r ++ s)
Keeps-append r s h g t w = subst IsWellFormed (sym (append_assoc r s t)) (h (s ++ t) (g t w))

pub Keeps-cons : (c : ℕ) (s : Text) → IsBasic c → Keeps s → Keeps (c ∷ s)
Keeps-cons c s h g t w = IsBasic-cons c (s ++ t) h (g t w)
