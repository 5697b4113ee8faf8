-- ===== src/Db/Keys/Order.antt =====
-- The order of keys, by which RocksDB iterates: newer blocks stand before older ones.
use organic_blockbook.Prelude.{
  ℕ, zero, suc, ◌/◌, ◌%◌, ◌^◌, ◌<◌, ◌≡◌, refl, ◌∙◌, arith, [], ◌∷◌, ◌++◌, Bool, true, false, ◌&&◌,
  ◌||◌, ltb, ◌==◌, length,
}
use organic_blockbook.Prelude.Bytes.{Bytes, bytes_eq, be_bytes, length-be_bytes}
use organic_blockbook.Db.Keys.{pack_uint, pack_address_key, not32}
use native.Mathlib.Nat.{pow-suc}

-- `bytes.Compare(a, b) < 0`
unfoldable pub bytes_lt : Bytes → Bytes → Bool
bytes_lt [] [] = false
bytes_lt [] (y ∷ ys) = true
bytes_lt (x ∷ xs) [] = false
bytes_lt (x ∷ xs) (y ∷ ys) = ltb x y || ((x == y) && bytes_lt xs ys)

bytes_lt-snoc :
    (xs ys : Bytes) (a b : ℕ)
    → length xs ≡ length ys
    → bytes_lt (xs ++ a ∷ []) (ys ++ b ∷ []) ≡ (bytes_lt xs ys || (bytes_eq xs ys && ltb a b))
unfolding bytes_lt bytes_eq
bytes_lt-snoc [] [] a b h = ground arith
bytes_lt-snoc [] (y ∷ ys) a b h = absurd (omega arith)
bytes_lt-snoc (x ∷ xs) [] a b h = absurd (omega arith)
bytes_lt-snoc (x ∷ xs) (y ∷ ys) a b h = ground (arith, bytes_lt-snoc xs ys a b (omega arith))

bytes_eq-snoc :
    (xs ys : Bytes) (a b : ℕ)
    → length xs ≡ length ys
    → bytes_eq (xs ++ a ∷ []) (ys ++ b ∷ []) ≡ (bytes_eq xs ys && (a == b))
unfolding bytes_eq
bytes_eq-snoc [] [] a b h = ground arith
bytes_eq-snoc [] (y ∷ ys) a b h = absurd (omega arith)
bytes_eq-snoc (x ∷ xs) [] a b h = absurd (omega arith)
bytes_eq-snoc (x ∷ xs) (y ∷ ys) a b h = ground (arith, bytes_eq-snoc xs ys a b (omega arith))

-- Big-endian words of one width are ordered, and equal, as their numbers are.
pub be_bytes_order :
    (k v w : ℕ)
    → v < 256 ^ k
    → w < 256 ^ k
    → (bytes_lt (be_bytes k v) (be_bytes k w) ≡ ltb v w)
      × (bytes_eq (be_bytes k v) (be_bytes k w) ≡ (v == w))
unfolding be_bytes bytes_lt bytes_eq
be_bytes_order zero v w hv hw = ground arith
be_bytes_order (suc k) v w hv hw = ground (
  arith,
  pow-suc 256 k,
  bytes_lt-snoc (be_bytes k (v / 256)) (be_bytes k (w / 256)) (v % 256) (w % 256),
  bytes_eq-snoc (be_bytes k (v / 256)) (be_bytes k (w / 256)) (v % 256) (w % 256),
  length-be_bytes k (v / 256),
  length-be_bytes k (w / 256),
  be_bytes_order k (v / 256) (w / 256),
)

pub bytes_lt-append : (xs ys zs : Bytes) → bytes_lt (xs ++ ys) (xs ++ zs) ≡ bytes_lt ys zs
unfolding bytes_lt
bytes_lt-append [] ys zs = refl
bytes_lt-append (x ∷ xs) ys zs = ground (arith, bytes_lt-append xs ys zs)

-- The keys of the height column are ordered as the heights are, for heights below 2^32.
pub pack_uint_order :
    (v w : ℕ) → v < 2 ^ 32 → w < 2 ^ 32 → bytes_lt (pack_uint v) (pack_uint w) ≡ ltb v w
unfolding pack_uint
pack_uint_order v w hv hw = (be_bytes_order 4 v w hv hw).0

-- Of two keys of one descriptor the one with the greater height stands first, for heights below 2^32.
pub pack_address_key_order :
    (desc : Bytes) (v w : ℕ)
    → v < 2 ^ 32
    → w < 2 ^ 32
    → bytes_lt (pack_address_key desc v) (pack_address_key desc w) ≡ ltb w v
unfolding pack_address_key
pack_address_key_order desc v w hv hw =
    bytes_lt-append desc (be_bytes 4 (not32 v)) (be_bytes 4 (not32 w))
    ∙ (be_bytes_order 4 (not32 v) (not32 w) (omega arith) (omega arith)).0
    ∙ ground arith
