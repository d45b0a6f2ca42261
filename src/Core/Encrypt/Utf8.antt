-- ===== src/Core/Encrypt/Utf8.antt =====
-- `new TextEncoder().encode(s)`: UTF-8 of a string of UTF-16 units; a lone surrogate is U+FFFD.
use near_shield.Prelude.{
  ℕ, ◌+◌, ◌-◌, ◌*◌, ◌/◌, ◌%◌, ◌≡◌, refl, Bool, ◌&&◌, [], ◌∷◌, ◌++◌, ltb, leb, if◌then◌else◌,
}
use near_shield.Js.Text.{Text, Bytes, codes}

unfoldable pub is_high : ℕ → Bool
is_high c = leb 0xd800 c && leb c 0xdbff

unfoldable pub is_low : ℕ → Bool
is_low c = leb 0xdc00 c && leb c 0xdfff

-- The encoding of one code point.
unfoldable pub encode_point : ℕ → Bytes
encode_point c =
    if ltb c 0x80
    then c ∷ []
    else if ltb c 0x800
    then (0xc0 + c / 64) ∷ (0x80 + c % 64) ∷ []
    else if ltb c 0x10000
    then (0xe0 + c / 4096) ∷ (0x80 + c / 64 % 64) ∷ (0x80 + c % 64) ∷ []
    else (0xf0 + c / 262144) ∷ (0x80 + c / 4096 % 64) ∷ (0x80 + c / 64 % 64) ∷ (0x80 + c % 64) ∷ []

unfoldable pub encode_unit : ℕ → Bytes
encode_unit c = encode_point (if leb 0xd800 c && leb c 0xdfff then 0xfffd else c)

unfoldable pub utf8 : Text → Bytes
utf8 [] = []
utf8 (c ∷ []) = encode_unit c
utf8 (c ∷ d ∷ cs) =
    let pair = encode_point (0x10000 + (c - 0xd800) * 1024 + (d - 0xdc00)) ++ utf8 cs in
    let single = encode_unit c ++ utf8 (d ∷ cs) in if is_high c && is_low d then pair else single

utf8_runs :
    (utf8 (codes "ab") ≡ b'a' ∷ b'b' ∷ [])
    × (utf8 (0xe9 ∷ []) ≡ 0xc3 ∷ 0xa9 ∷ [])
    × (utf8 (0xd83d ∷ 0xde00 ∷ []) ≡ 0xf0 ∷ 0x9f ∷ 0x98 ∷ 0x80 ∷ [])
unfolding utf8 encode_unit encode_point is_high is_low
utf8_runs = (refl, refl, refl)
