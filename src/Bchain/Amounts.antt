-- ===== src/Bchain/Amounts.antt =====
-- bchain/baseparser.go: amounts as decimal texts, AmountToBigInt and AmountToDecimalString.
pub mod Texts
pub mod RoundTrip
use organic_blockbook.Prelude.{
  ℕ, zero, suc, ◌+◌, ◌-◌, ◌*◌, ◌/◌, ◌%◌, ◌&&◌, ltb, leb, ◌==◌, if◌then◌else◌, List, [], ◌∷◌, ◌++◌,
  Option, none, some, length, take, drop,
}
use organic_blockbook.Prelude.Int.{ℤ, pos, negsuc}
use organic_blockbook.Prelude.Bytes.{Bytes}

-- The length of the constant `zeros`.
abbrev pub max_decimals : ℕ
max_decimals = 40

-- `zeros[:n]`
abbrev pub zeros : ℕ → Bytes
zeros zero = []
zeros (suc n) = 48 ∷ zeros n

unfoldable pub digits_fuel : ℕ → ℕ → Bytes
digits_fuel zero n = []
digits_fuel (suc f) n =
    let higher = digits_fuel f (n / 10) in
    if ltb n 10 then (48 + n) ∷ [] else higher ++ (48 + n % 10) ∷ []

-- The decimal digits of a number; it has no more of them than its value and one.
unfoldable pub digits : ℕ → Bytes
unfolding digits_fuel
digits n = digits_fuel (suc n) n

-- The sign and the digits of `String` of a big.Int.
abbrev pub sign_of : ℤ → Bytes
sign_of (pos n) = []
sign_of (negsuc n) = 45 ∷ []

abbrev pub abs_of : ℤ → ℕ
abs_of (pos n) = n
abs_of (negsuc n) = suc n

-- The value of digits behind an accumulator; `none` if there is another character.
unfoldable pub number : ℕ → Bytes → Option ℕ
number acc [] = some acc
number acc (c ∷ s) =
    let rest = number (acc * 10 + (c - 48)) s in if leb 48 c && leb c 57 then rest else none

unfoldable pub magnitude_of : Bytes → Option ℕ
unfolding number
magnitude_of [] = none
magnitude_of (c ∷ s) = number 0 (c ∷ s)

abbrev pub negated : ℕ → ℤ
negated zero = pos 0
negated (suc n) = negsuc n

-- `SetString` with the base 10: an optional sign and at least one digit.
unfoldable pub set_string : Bytes → Option ℤ
unfolding magnitude_of
set_string [] = none
set_string (c ∷ s) =
    if c == 45
    then elim (magnitude_of s) [ none ↦ none | some n ↦ some (negated n) ]
    else if c == 43
    then elim (magnitude_of s) [ none ↦ none | some n ↦ some (pos n) ]
    else elim (magnitude_of (c ∷ s)) [ none ↦ none | some n ↦ some (pos n) ]

-- `strings.IndexByte(s, '.')`; `none` is -1.
unfoldable pub index_of_dot : Bytes → Option ℕ
index_of_dot [] = none
index_of_dot (c ∷ s) =
    let rest = index_of_dot s in
    if c == 46 then some 0 else elim rest [ none ↦ none | some i ↦ some (suc i) ]

abbrev pub limited : ℕ → ℕ
limited d = if ltb max_decimals d then max_decimals else d

-- The text without the point, with as many decimals as there are to be.
unfoldable pub shifted_text : ℕ → Bytes → Bytes
unfolding index_of_dot
shifted_text d s = elim (index_of_dot s) [
  | none ↦ s ++ zeros d
  | some i ↦
      if ltb (length s) (d + i + 1)
      then take i s ++ (drop (i + 1) s ++ zeros (d + i + 1 - length s))
      else take i s ++ drop (i + 1) (take (d + i + 1) s)
]

-- AmountToBigInt; `none` is its error.
unfoldable pub amount_to_big_int : ℕ → Bytes → Option ℤ
unfolding shifted_text set_string
amount_to_big_int decimals n = set_string (shifted_text (limited decimals) n)

-- `strings.TrimRight(s, "0")`
unfoldable pub trim_zeros : Bytes → Bytes
trim_zeros [] = []
trim_zeros (c ∷ s) = elim (trim_zeros s) [
  | [] ↦ if c == 48 then [] else c ∷ []
  | x ∷ xs ↦ c ∷ (x ∷ xs)
]

-- Zeros in front, so that there is a digit before the point.
unfoldable pub padded : ℕ → Bytes → Bytes
padded d n = if leb (length n) d then zeros (d - length n + 1) ++ n else n

abbrev pub with_point : Bytes → Bytes → Bytes
with_point whole [] = whole
with_point whole (c ∷ ad) = whole ++ 46 ∷ c ∷ ad

-- AmountToDecimalString of an amount that is not nil.
unfoldable pub amount_to_decimal_string : ℤ → ℕ → Bytes
unfolding digits padded trim_zeros
amount_to_decimal_string a decimals =
    let d = limited decimals in
    let n = padded d (digits (abs_of a)) in
    let i = length n - d in sign_of a ++ with_point (take i n) (trim_zeros (drop i n))
