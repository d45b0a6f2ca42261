-- ===== src/Js/Text.antt =====
-- JavaScript strings as lists of UTF-16 code units, and `Uint8Array` as lists of bytes.
use Prim.Native.Char.{code}
use Prim.Native.String.{String}
use near_shield.Prelude.{
  ℕ, zero, suc, ◌+◌, ◌-◌, ◌/◌, ◌%◌, Bool, true, false, List, [], ◌∷◌, ◌++◌, length, replicate, ltb,
  ◌==◌, ◌&&◌, if◌then◌else◌, take, drop, ◌≡◌, refl,
}

abbrev pub Text : Type 0
Text = List ℕ

abbrev pub Bytes : Type 0
Bytes = List ℕ

-- The code units of an ASCII literal.
abbrev pub codes : String → Text
codes String.[] = []
codes (String.◌∷◌ c s) = code c ∷ codes s

-- `n.toString(radix)` for `n >= 0`; the digits are produced from the last one on.
unfoldable pub digit : ℕ → ℕ
digit d = if ltb d 10 then 48 + d else 87 + d

unfoldable pub digits : ℕ → ℕ → ℕ → Text → Text
digits zero r n acc = acc
digits (suc f) r n acc =
    let rest = digits f r (n / r) (digit (n % r) ∷ acc) in if ltb n r then digit n ∷ acc else rest

unfoldable pub to_text : ℕ → ℕ → Text
to_text r n = digits (suc n) r n []

-- `s.padStart(n, c)` for a one-unit `c`.
abbrev pub pad_start : ℕ → ℕ → Text → Text
pad_start n c s = replicate (n - length s) c ++ s

-- `b.toString(16).padStart(2, "0")`
unfoldable pub hex_byte : ℕ → Text
hex_byte b = pad_start 2 b'0' (to_text 16 b)

-- `Array.from(bytes).map(...).join("")`
unfoldable pub hex_bytes : Bytes → Text
hex_bytes [] = []
hex_bytes (b ∷ bs) = hex_byte b ++ hex_bytes bs

-- `s.startsWith(p)`
unfoldable pub starts_with : Text → Text → Bool
starts_with s [] = true
starts_with [] (c ∷ p) = false
starts_with (x ∷ s) (c ∷ p) = x == c && starts_with s p

-- `b.subarray(i, j)` and `s.slice(i, j)` for `i <= j`.
abbrev pub subarray {ℓ} : {A : Type ℓ} → List A → ℕ → ℕ → List A
subarray b i j = take (j - i) (drop i b)

-- `s.startsWith("0x") ? s.slice(2) : s`
unfoldable pub strip_0x : Text → Text
strip_0x s = if starts_with s (codes "0x") then drop 2 s else s

hex_bytes_run : hex_bytes (0 ∷ 10 ∷ 255 ∷ []) ≡ codes "000aff"
unfolding hex_bytes hex_byte to_text digits digit
hex_bytes_run = refl
