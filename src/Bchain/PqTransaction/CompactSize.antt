-- ===== src/Bchain/PqTransaction/CompactSize.antt =====
-- compactSize: every number within the limit is read from its shortest form, whatever follows it, and
-- longer forms are refused.
use organic_blockbook.Prelude.{
  ℕ, zero, suc, ◌/◌, ◌%◌, ◌^◌, ◌<◌, ◌≡◌, refl, sym, ◌∙◌, arith, ltb, if◌then◌else◌, [], ◌∷◌, ◌++◌,
  length, length-append, Bool-cases, inl, inr,
}
use organic_blockbook.Prelude.Bytes.{Bytes, take-append, drop-append}
use organic_blockbook.Prelude.Options.{ok, err}
use organic_blockbook.Bchain.PqTransaction.{
  read_full, le_value, read_le, long_size, size_value, compact_size, invalid_compact_size,
  exceeds_limit,
}
use native.Mathlib.Nat.{pow-suc}

-- The `k` low bytes of `w`, lowest first.
unfoldable pub le_bytes : ℕ → ℕ → Bytes
le_bytes zero w = []
le_bytes (suc k) w = (w % 256) ∷ le_bytes k (w / 256)

-- The shortest form of a number below 2^64.
unfoldable pub put_compact_size : ℕ → Bytes
unfolding le_bytes
put_compact_size n =
    if ltb n 253
    then n ∷ []
    else if ltb n (2 ^ 16)
    then 253 ∷ le_bytes 2 n
    else if ltb n (2 ^ 32)
    then 254 ∷ le_bytes 4 n
    else 255 ∷ le_bytes 8 n

pub length-le_bytes : (k w : ℕ) → length (le_bytes k w) ≡ k
unfolding le_bytes
length-le_bytes zero w = refl
length-le_bytes (suc k) w = omega (arith, length-le_bytes k (w / 256))

le_value-le_bytes : (k w : ℕ) → w < 256 ^ k → le_value (le_bytes k w) ≡ w
unfolding le_bytes le_value
le_value-le_bytes zero w h = omega arith
le_value-le_bytes (suc k) w h =
    omega (arith, le_value-le_bytes k (w / 256) (omega (arith, pow-suc 256 k)))

pub read_full-append :
    (b rest : Bytes) (n : ℕ) → n ≡ length b → read_full n (b ++ rest) ≡ ok (b, rest)
unfolding read_full
read_full-append b rest n e =
    rw e (ground (arith, length-append b rest, take-append b rest, drop-append b rest))

pub read_le-le_bytes :
    (k w : ℕ) (rest : Bytes) → w < 256 ^ k → read_le k (le_bytes k w ++ rest) ≡ ok (w, rest)
unfolding read_le
read_le-le_bytes k w rest h =
    rw (read_full-append (le_bytes k w) rest k (sym (length-le_bytes k w)), le_value-le_bytes k w h)

-- A number that fits `k` bytes is read in the form of `k` bytes exactly if no shorter form holds it.
pub long_size_lem :
    (k least w : ℕ) (rest : Bytes)
    → w < 256 ^ k
    → long_size k least (le_bytes k w ++ rest)
      ≡ (if ltb w least then err invalid_compact_size else ok (w, rest))
unfolding long_size
long_size_lem k least w rest h = rw (read_le-le_bytes k w rest h, long_size)

size_value-put :
    (n : ℕ) (rest : Bytes)
    → n < 2 ^ 64
    → (first : ℕ) × (tail : Bytes) × (put_compact_size n ++ rest ≡ first ∷ tail)
      × (size_value first tail ≡ ok (n, rest))
unfolding put_compact_size size_value
size_value-put n rest h = elim (Bool-cases (ltb n 253)) [
  | inl one ↦ (n, rest, rw one, ground arith)
  | inr more ↦ elim (Bool-cases (ltb n (2 ^ 16))) [
    | inl three ↦ (
      253,
      le_bytes 2 n ++ rest,
      rw (more, three),
      long_size_lem 2 253 n rest (ground arith) ∙ ground arith,
    )
    | inr more2 ↦ elim (Bool-cases (ltb n (2 ^ 32))) [
      | inl five ↦ (
        254,
        le_bytes 4 n ++ rest,
        rw (more, more2, five),
        long_size_lem 4 (2 ^ 16) n rest (ground arith) ∙ ground arith,
      )
      | inr more4 ↦ (
        255,
        le_bytes 8 n ++ rest,
        rw (more, more2, more4),
        long_size_lem 8 (2 ^ 32) n rest h ∙ ground arith,
      )
    ]
  ]
]

-- A number below 2^64 in its shortest form is read if it is within the limit, whatever follows it,
-- and is refused as too large otherwise.
pub compact_size-put :
    (limit n : ℕ) (rest : Bytes)
    → n < 2 ^ 64
    → compact_size limit (put_compact_size n ++ rest)
      ≡ (if ltb limit n then err exceeds_limit else ok (n, rest))
unfolding compact_size
compact_size-put limit n rest h =
    let (first, tail, e, read) = size_value-put n rest h in rw (e, read)

-- The forms of three, five and nine bytes are refused for every number that a shorter form holds.
pub compact_size_canonical :
    (limit n : ℕ) (rest : Bytes)
    → n < 2 ^ 64
    → (compact_size limit (253 ∷ le_bytes 2 (n % 253) ++ rest) ≡ err invalid_compact_size)
      × (compact_size limit (254 ∷ le_bytes 4 (n % 2 ^ 16) ++ rest) ≡ err invalid_compact_size)
      × (compact_size limit (255 ∷ le_bytes 8 (n % 2 ^ 32) ++ rest) ≡ err invalid_compact_size)
unfolding compact_size size_value
compact_size_canonical limit n rest h = (
  rw (long_size_lem 2 253 (n % 253) rest (omega arith)) (ground arith),
  rw (long_size_lem 4 (2 ^ 16) (n % 2 ^ 16) rest (omega arith)) (ground arith),
  rw (long_size_lem 8 (2 ^ 32) (n % 2 ^ 32) rest (omega arith)) (ground arith),
)
