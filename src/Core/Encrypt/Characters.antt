-- ===== src/Core/Encrypt/Characters.antt =====
-- A character is decoded from its UTF-8 encoding.
use near_shield.Prelude.{
  ℕ, suc, ◌+◌, ◌*◌, ◌/◌, ◌%◌, ◌<◌, ◌≤◌, ◌≡◌, refl, arith, ap, sym, ◌∙◌, Bool-cases, inl, inr, ◌⊎◌,
  [], ◌∷◌, ◌++◌, ltb, ◌==◌, if◌then◌else◌,
}
use near_shield.Js.Text.{Text, Bytes}
use near_shield.Core.Encrypt.Utf8.{encode_point}
use near_shield.Core.Encrypt.TextDecoder.{
  Decoder, start, more, units, first_byte, continue_with, decode_byte, decode_from,
}

-- A code point that is no surrogate.
pub record IsPoint (c : ℕ) : Type 0 where
  pub bound : c < 0x110000
  pub no_surrogate : (c < 0xd800) ⊎ (0xdfff < c)

-- One byte of the decoder.
step :
    (m : Decoder) (b : ℕ) (bs : Bytes) {m' : Decoder} {out : Text}
    → decode_byte m b ≡ (m', out)
    → decode_from m (b ∷ bs) ≡ out ++ decode_from m' bs
unfolding decode_from
step start b bs e = rw e refl
step (more v n low high) b bs e = rw e refl

follow :
    (v n low high b : ℕ)
    → low ≤ b
    → b ≤ high
    → decode_byte (more v n low high) b ≡ continue_with v n b
unfolding decode_byte
follow v n low high b h g = ground arith

-- The last byte of a character.
last_byte :
    (v low c : ℕ) (bs : Bytes)
    → low ≤ 0x80 + c % 64
    → v * 64 + c % 64 ≡ c
    → decode_from (more v 0 low 0xbf) ((0x80 + c % 64) ∷ bs) ≡ units c ++ decode_from start bs
unfolding continue_with
last_byte v low c bs h e = step (more v 0 low 0xbf) (0x80 + c % 64) bs (
    follow v 0 low 0xbf (0x80 + c % 64) h (omega arith)
    ∙ ap (λ (x : ℕ). (start, units x)) (omega (arith, e)))

-- A byte in the middle, with the bits of `x`.
middle_byte :
    (v n low high x y : ℕ) (bs : Bytes)
    → low ≤ 0x80 + x % 64
    → 0x80 + x % 64 ≤ high
    → v * 64 + x % 64 ≡ y
    → decode_from (more v (suc n) low high) ((0x80 + x % 64) ∷ bs)
      ≡ decode_from (more y n 0x80 0xbf) bs
unfolding continue_with
middle_byte v n low high x y bs h g e = step (more v (suc n) low high) (0x80 + x % 64) bs (
    follow v (suc n) low high (0x80 + x % 64) h g
    ∙ ap (λ (z : ℕ). (more z n 0x80 0xbf, [])) (omega (arith, e)))

one_byte :
    (c : ℕ) (bs : Bytes)
    → c < 0x80
    → decode_from start (encode_point c ++ bs) ≡ units c ++ decode_from start bs
one_byte c bs h =
    ap (λ t. decode_from start (t ++ bs)) encoded
    ∙ step start c bs first
    ∙ ap (λ t. t ++ decode_from start bs) (sym printed)
  where
    encoded : encode_point c ≡ c ∷ []
    encoded = unfold encode_point in ground arith

    first : decode_byte start c ≡ (start, c ∷ [])
    first = unfold decode_byte first_byte in ground arith

    printed : units c ≡ c ∷ []
    printed = unfold units in ground arith

two_bytes :
    (c : ℕ) (bs : Bytes)
    → 0x80 ≤ c
    → c < 0x800
    → decode_from start (encode_point c ++ bs) ≡ units c ++ decode_from start bs
two_bytes c bs h g =
    ap (λ t. decode_from start (t ++ bs)) encoded
    ∙ step start (0xc0 + c / 64) ((0x80 + c % 64) ∷ bs) first
    ∙ last_byte (c / 64) 0x80 c bs (omega arith) (omega arith)
  where
    encoded : encode_point c ≡ (0xc0 + c / 64) ∷ (0x80 + c % 64) ∷ []
    encoded = unfold encode_point in ground arith

    first : decode_byte start (0xc0 + c / 64) ≡ (more (c / 64) 0 0x80 0xbf, [])
    first = unfold decode_byte first_byte in ground arith

low_of : ℕ → ℕ
low_of b = if b == 0xe0 then 0xa0 else 0x80

high_of : ℕ → ℕ
high_of b = if b == 0xed then 0x9f else 0xbf

three_bytes :
    (c : ℕ) (bs : Bytes)
    → 0x800 ≤ c
    → c < 0x10000
    → IsPoint c
    → decode_from start (encode_point c ++ bs) ≡ units c ++ decode_from start bs
three_bytes c bs h g p =
    ap (λ t. decode_from start (t ++ bs)) encoded
    ∙ step start (0xe0 + c / 4096) ((0x80 + c / 64 % 64) ∷ (0x80 + c % 64) ∷ bs) first
    ∙ middle_byte (c / 4096) 0 (low_of (0xe0 + c / 4096)) (high_of (0xe0 + c / 4096)) (c / 64)
        (c / 64) ((0x80 + c % 64) ∷ bs) above below (omega arith)
    ∙ last_byte (c / 64) 0x80 c bs (omega arith) (omega arith)
  where
    encoded : encode_point c ≡ (0xe0 + c / 4096) ∷ (0x80 + c / 64 % 64) ∷ (0x80 + c % 64) ∷ []
    encoded = unfold encode_point in ground arith

    first :
        decode_byte start (0xe0 + c / 4096)
        ≡ (more (c / 4096) 1 (low_of (0xe0 + c / 4096)) (high_of (0xe0 + c / 4096)), [])
    first = unfold decode_byte first_byte low_of high_of in ground arith

    above : low_of (0xe0 + c / 4096) ≤ 0x80 + c / 64 % 64
    above = unfold low_of in ground arith

    below : 0x80 + c / 64 % 64 ≤ high_of (0xe0 + c / 4096)
    below = unfold high_of in ground arith

low_of_four : ℕ → ℕ
low_of_four b = if b == 0xf0 then 0x90 else 0x80

high_of_four : ℕ → ℕ
high_of_four b = if b == 0xf4 then 0x8f else 0xbf

four_bytes :
    (c : ℕ) (bs : Bytes)
    → 0x10000 ≤ c
    → c < 0x110000
    → decode_from start (encode_point c ++ bs) ≡ units c ++ decode_from start bs
four_bytes c bs h g =
    ap (λ t. decode_from start (t ++ bs)) encoded
    ∙ step start (0xf0 + c / 262144)
        ((0x80 + c / 4096 % 64) ∷ (0x80 + c / 64 % 64) ∷ (0x80 + c % 64) ∷ bs) first
    ∙ middle_byte (c / 262144) 1 (low_of_four (0xf0 + c / 262144))
        (high_of_four (0xf0 + c / 262144)) (c / 4096) (c / 4096)
        ((0x80 + c / 64 % 64) ∷ (0x80 + c % 64) ∷ bs) above below (omega arith)
    ∙ middle_byte (c / 4096) 0 0x80 0xbf (c / 64) (c / 64) ((0x80 + c % 64) ∷ bs) (omega arith)
        (omega arith) (omega arith)
    ∙ last_byte (c / 64) 0x80 c bs (omega arith) (omega arith)
  where
    encoded :
        encode_point c
        ≡ (0xf0 + c / 262144) ∷ (0x80 + c / 4096 % 64) ∷ (0x80 + c / 64 % 64) ∷ (0x80 + c % 64) ∷ []
    encoded = unfold encode_point in ground arith

    first : decode_byte start (0xf0 + c / 262144) ≡ (
      more (c / 262144) 2 (low_of_four (0xf0 + c / 262144)) (high_of_four (0xf0 + c / 262144)),
      [],
    )
    first = unfold decode_byte first_byte low_of_four high_of_four in ground arith

    above : low_of_four (0xf0 + c / 262144) ≤ 0x80 + c / 4096 % 64
    above = unfold low_of_four in ground arith

    below : 0x80 + c / 4096 % 64 ≤ high_of_four (0xf0 + c / 262144)
    below = unfold high_of_four in ground arith

-- A character is decoded from its encoding, whatever follows.
pub decode_from-encode_point :
    (c : ℕ) (bs : Bytes)
    → IsPoint c
    → decode_from start (encode_point c ++ bs) ≡ units c ++ decode_from start bs
decode_from-encode_point c bs p = elim (Bool-cases (ltb c 0x80)) [
  | inl h ↦ one_byte c bs (ground arith)
  | inr h ↦ elim (Bool-cases (ltb c 0x800)) [
    | inl g ↦ two_bytes c bs (ground arith) (ground arith)
    | inr g ↦ elim (Bool-cases (ltb c 0x10000)) [
      | inl k ↦ three_bytes c bs (ground arith) (ground arith) p
      | inr k ↦ four_bytes c bs (ground arith) p.bound
    ]
  ]
]
