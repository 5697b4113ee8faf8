-- ===== src/Bchain/Hex.antt =====
-- encoding/hex: the text of a byte slice, as the parsers write and read it.
use organic_blockbook.Prelude.{
  ℕ, ◌+◌, ◌-◌, ◌*◌, ◌/◌, ◌%◌, ◌<◌, ◌≡◌, refl, ap, arith, ltb, leb, ◌&&◌, if◌then◌else◌, [], ◌∷◌,
  Option, none, some, All, length,
}
use organic_blockbook.Prelude.Bytes.{Bytes}
use organic_blockbook.Prelude.Options.{◌>>=◌}

abbrev pub hex_digit : ℕ → ℕ
hex_digit n = if ltb n 10 then 48 + n else 87 + n

-- `hex.EncodeToString`
unfoldable pub hex_encode : Bytes → Bytes
hex_encode [] = []
hex_encode (b ∷ bs) = hex_digit (b / 16) ∷ hex_digit (b % 16) ∷ hex_encode bs

-- The value of a digit, in lower or upper case.
unfoldable pub hex_value : ℕ → Option ℕ
hex_value c =
    if leb 48 c && leb c 57
    then some (c - 48)
    else if leb 97 c && leb c 102
    then some (c - 87)
    else if leb 65 c && leb c 70
    then some (c - 55)
    else none

-- `hex.DecodeString`; `none` is an error.
unfoldable pub hex_decode : Bytes → Option Bytes
unfolding hex_value
hex_decode [] = some []
hex_decode (c ∷ []) = none
hex_decode (c ∷ d ∷ s) = do
  hi ← hex_value c
  lo ← hex_value d
  bs ← hex_decode s
  some ((hi * 16 + lo) ∷ bs)

abbrev pub IsBytes : Bytes → Type 0
IsBytes b = All (λ x. x < 256) b

hex_value-hex_digit : (n : ℕ) → n < 16 → hex_value (hex_digit n) ≡ some n
unfolding hex_value
hex_value-hex_digit n h = ground arith

pub hex_decode-hex_encode : (b : Bytes) → IsBytes b → hex_decode (hex_encode b) ≡ some b
unfolding hex_decode hex_encode
hex_decode-hex_encode [] h = refl
hex_decode-hex_encode (b ∷ bs) (small, h) =
    rw
      (
        hex_value-hex_digit (b / 16) (omega arith),
        hex_value-hex_digit (b % 16) (omega arith),
        hex_decode-hex_encode bs h,
      )
      (ap (λ x. some (x ∷ bs)) (omega arith))

pub length-hex_encode : (b : Bytes) → length (hex_encode b) ≡ 2 * length b
unfolding hex_encode
length-hex_encode [] = omega arith
length-hex_encode (b ∷ bs) = omega (arith, length-hex_encode bs)

-- What EncodeToString writes.
abbrev pub IsHexText : Bytes → Type 0
IsHexText s = (b : Bytes) × IsBytes b × (s ≡ hex_encode b)
