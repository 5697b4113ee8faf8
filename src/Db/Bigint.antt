-- ===== src/Db/Bigint.antt =====
-- db/rocksdb.go: packBigint and unpackBigint, the length-prefixed big-endian form of amounts.
-- A big.Int is an integer, and `Bits` its magnitude in words of 64 bits, lowest first.
pub mod Words
pub mod RoundTrip
use organic_blockbook.Prelude.{
  ℕ, zero, suc, ◌+◌, ◌-◌, ◌*◌, ◌/◌, ◌%◌, ◌^◌, List, [], ◌∷◌, ◌++◌, reverse, Option, none, some, ltb,
  leb, ◌==◌, if◌then◌else◌, length, take, drop,
}
use organic_blockbook.Prelude.Int.{ℤ, pos, pos_part, neg_part}
use organic_blockbook.Prelude.Bytes.{Bytes, be_bytes, be_value}

abbrev pub word_base : ℕ
word_base = 2 ^ 64

abbrev pub max_packed_bigint_words : ℕ
max_packed_bigint_words = 31

abbrev pub max_packed_bigint_bytes : ℕ
max_packed_bigint_bytes = 249

-- `x.Abs`
abbrev pub magnitude : ℤ → ℕ
magnitude z = pos_part z + neg_part z

pub words_fuel : ℕ → ℕ → List ℕ
words_fuel zero n = []
words_fuel (suc f) n =
    let rest = words_fuel f (n / word_base) in if n == 0 then [] else (n % word_base) ∷ rest

-- `x.Bits()`: a number has fewer words than its value, so the fuel does not run out.
unfoldable pub bits : ℕ → List ℕ
unfolding words_fuel
bits n = words_fuel n n

-- The loop over `mask`: from `fb = k` down to the highest byte of the word that is not zero.
unfoldable pub significant_bytes : ℕ → ℕ → ℕ
significant_bytes zero w = 0
significant_bytes (suc k) w = if (w / 256 ^ k) % 256 == 0 then significant_bytes k w else suc k

-- The words below the top one, in reverse order, 8 bytes each.
unfoldable pub word_bytes : List ℕ → Bytes
word_bytes [] = []
word_bytes (d ∷ ds) = be_bytes 8 d ++ word_bytes ds

-- The words, highest first, after the number of those that fit.
unfoldable pub pack_words : ℕ → List ℕ → Bytes
unfolding significant_bytes word_bytes
pack_words fit [] = 0 ∷ []
pack_words fit (w0 ∷ lower) =
    let kept = take (fit - 1) lower in
    let fb = significant_bytes 8 w0 in
    ((fb + 8 * length kept) % 256) ∷ (be_bytes fb w0 ++ word_bytes kept)

unfoldable pub pack_bigint : ℤ → Bytes
unfolding pack_words
pack_bigint bi =
    let w = bits (magnitude bi) in
    let lw = length w in
    let s = if ltb max_packed_bigint_words lw then lw - max_packed_bigint_words else 0 in
    pack_words (lw - s) (reverse w)

-- The value and the number of bytes read; `none` is the panic on a buffer that is too short.
unfoldable pub unpack_bigint : Bytes → Option (ℤ × ℕ)
unpack_bigint [] = none
unpack_bigint (b ∷ buf) =
    if leb b (length buf) then some (pos (be_value (take b buf)), b + 1) else none
