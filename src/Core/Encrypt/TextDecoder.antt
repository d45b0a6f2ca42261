-- ===== src/Core/Encrypt/TextDecoder.antt =====
-- `new TextDecoder().decode(b)`: UTF-8 to UTF-16 code units. What is malformed becomes U+FFFD, and a
-- byte order mark in front is dropped.
use near_shield.Prelude.{
  ℕ, zero, suc, ◌+◌, ◌-◌, ◌*◌, ◌/◌, ◌%◌, ◌≡◌, refl, ◌&&◌, [], ◌∷◌, ◌++◌, ltb, leb, ◌==◌,
  if◌then◌else◌,
}
use near_shield.Js.Text.{Text, Bytes, codes}

-- Between two characters, or with the bits so far, how many bytes follow the next one, and the
-- bounds of the next one.
pub data Decoder : Type 0 where
  start : Decoder
  more : ℕ → ℕ → ℕ → ℕ → Decoder

unfoldable pub units : ℕ → Text
units c =
    if ltb c 0x10000
    then c ∷ []
    else (0xd800 + (c - 0x10000) / 1024) ∷ (0xdc00 + (c - 0x10000) % 1024) ∷ []

unfoldable pub first_byte : ℕ → Decoder × Text
first_byte b =
    if ltb b 0x80
    then (start, b ∷ [])
    else if leb 0xc2 b && leb b 0xdf
    then (more (b - 0xc0) 0 0x80 0xbf, [])
    else if leb 0xe0 b && leb b 0xef
    then (
      more (b - 0xe0) 1 (if b == 0xe0 then 0xa0 else 0x80) (if b == 0xed then 0x9f else 0xbf),
      [],
    )
    else if leb 0xf0 b && leb b 0xf4
    then (
      more (b - 0xf0) 2 (if b == 0xf0 then 0x90 else 0x80) (if b == 0xf4 then 0x8f else 0xbf),
      [],
    )
    else (start, 0xfffd ∷ [])

abbrev pub replaced : Decoder × Text → Decoder × Text
replaced (m, out) = (m, 0xfffd ∷ out)

unfoldable pub continue_with : ℕ → ℕ → ℕ → Decoder × Text
continue_with v zero b = (start, units (v * 64 + b % 64))
continue_with v (suc n) b = (more (v * 64 + b % 64) n 0x80 0xbf, [])

-- A byte out of bounds ends the malformed character and is read again as a first byte.
unfoldable pub decode_byte : Decoder → ℕ → Decoder × Text
decode_byte start b = first_byte b
decode_byte (more v n low high) b =
    if leb low b && leb b high then continue_with v n b else replaced (first_byte b)

unfoldable pub decode_from : Decoder → Bytes → Text
decode_from start [] = []
decode_from (more v n low high) [] = 0xfffd ∷ []
decode_from m (b ∷ bs) = (decode_byte m b).1 ++ decode_from (decode_byte m b).0 bs

abbrev pub drop_bom : Text → Text
drop_bom [] = []
drop_bom (c ∷ cs) = if c == 0xfeff then cs else c ∷ cs

unfoldable pub decode_utf8 : Bytes → Text
decode_utf8 b = drop_bom (decode_from start b)

decode_utf8_runs :
    (decode_utf8 (b'a' ∷ 0xc3 ∷ 0xa9 ∷ []) ≡ b'a' ∷ 0xe9 ∷ [])
    × (decode_utf8 (0xf0 ∷ 0x9f ∷ 0x98 ∷ 0x80 ∷ []) ≡ 0xd83d ∷ 0xde00 ∷ [])
    × (decode_utf8 (0xe2 ∷ 0x82 ∷ b'a' ∷ []) ≡ 0xfffd ∷ b'a' ∷ [])
    × (decode_utf8 (0xc0 ∷ 0x80 ∷ []) ≡ 0xfffd ∷ 0xfffd ∷ [])
    × (decode_utf8 (0xef ∷ 0xbb ∷ 0xbf ∷ b'x' ∷ []) ≡ codes "x")
unfolding decode_utf8 decode_from decode_byte continue_with first_byte units
decode_utf8_runs = (refl, refl, refl, refl, refl)
