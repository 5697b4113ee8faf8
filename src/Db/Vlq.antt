-- ===== src/Db/Vlq.antt =====
-- The package github.com/bsm/go-vlq, which db/rocksdb.go imports: variable-length quantities.
-- Its code is not in the repository, so it is a parameter: what it documents are the laws.
use organic_blockbook.Prelude.{ℕ, ◌-◌, ◌^◌, ◌≤◌, ◌<◌, ◌≡◌, Option, some, ◌++◌, length}
use organic_blockbook.Prelude.Int.{ℤ, pos, negsuc, ◌≤ℤ◌}
use organic_blockbook.Prelude.Bytes.{Bytes}

-- vlq.MaxLen64
abbrev pub max_len64 : ℕ
max_len64 = 10

abbrev pub IsInt64 : ℤ → Type 0
IsInt64 z = (negsuc (2 ^ 63 - 1) ≤ℤ z) × (z ≤ℤ pos (2 ^ 63 - 1))

-- `put_uint n` is what PutUint writes, `uint b` the value that Uint returns with the number of
-- bytes that it read; `none` stands for a panic.
pub record Vlq : Type 0 where
  pub put_uint : ℕ → Bytes
  pub uint : Bytes → Option (ℕ × ℕ)
  pub put_int : ℤ → Bytes
  pub int : Bytes → Option (ℤ × ℕ)

-- What is written is read back, whatever follows it, and takes 1 to 10 bytes.
pub record VlqLaws (v : Vlq) : Type 0 where
  pub uint-put_uint :
      (n : ℕ) (rest : Bytes)
      → n < 2 ^ 64
      → v.uint (v.put_uint n ++ rest) ≡ some (n, length (v.put_uint n))
  pub int-put_int :
      (z : ℤ) (rest : Bytes)
      → IsInt64 z
      → v.int (v.put_int z ++ rest) ≡ some (z, length (v.put_int z))
  pub length-put_uint : (n : ℕ) → (1 ≤ length (v.put_uint n)) × (length (v.put_uint n) ≤ max_len64)
  pub length-put_int : (z : ℤ) → (1 ≤ length (v.put_int z)) × (length (v.put_int z) ≤ max_len64)
