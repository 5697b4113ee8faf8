-- ===== src/Db/AddressColumn.antt =====
-- db/rocksdb.go: the values of the column addresses, packTxIndexes and the loops of
-- GetAddrDescTransactions that read them. A transaction's indexes are varints shifted by one bit,
-- which marks the last one.
pub mod RoundTrip
pub mod Walk
pub mod Rows
pub mod Range
use organic_blockbook.Prelude.{
  ℕ, zero, suc, ◌+◌, ◌-◌, ◌*◌, ◌/◌, ◌%◌, ◌^◌, ◌==◌, ltb, ◌||◌, if◌then◌else◌, Bool, true, false,
  List, [], ◌∷◌, ◌++◌, Option, none, some, reverse, length,
}
use organic_blockbook.Prelude.Int.{ℤ, pos, negsuc}
use organic_blockbook.Prelude.Bytes.{Bytes}
use organic_blockbook.Prelude.Options.{◌>>=◌}
use organic_blockbook.Db.Vlq.{Vlq}
use organic_blockbook.Db.Codec.{Reader, read_bytes, read_varint}
use organic_blockbook.Db.BalanceColumn.{int32}
use organic_blockbook.Db.Connect.Addresses.{TxIndexes}

-- `int32(i)` of a signed number
unfoldable pub int32_of_int : ℤ → ℤ
int32_of_int (pos n) = int32 n
int32_of_int (negsuc n) = int32 (2 ^ 32 - 1 - n % 2 ^ 32)

-- `index <<= 1`, and `index |= 1` on the last one.
unfoldable pub shift_index : Bool → ℤ → ℤ
shift_index last (pos n) = int32_of_int (pos (if last then 2 * n + 1 else 2 * n))
shift_index last (negsuc n) = int32_of_int (negsuc (if last then 2 * n else 2 * n + 1))

-- `index >> 1`
unfoldable pub unshift_index : ℤ → ℤ
unshift_index (pos n) = pos (n / 2)
unshift_index (negsuc n) = negsuc (n / 2)

-- `index & 1 == 1`
unfoldable pub is_last : ℤ → Bool
is_last (pos n) = n % 2 == 1
is_last (negsuc n) = n % 2 == 0

module _ (vlq : Vlq) where
  -- The loop over the indexes; the last one is marked.
  unfoldable pub pack_indexes : List ℤ → Bytes
  unfolding shift_index int32_of_int
  pack_indexes [] = []
  pack_indexes (i ∷ []) = vlq.put_int (shift_index true i)
  pack_indexes (i ∷ j ∷ is) = vlq.put_int (shift_index false i) ++ pack_indexes (j ∷ is)

  unfoldable pub pack_each : List TxIndexes → Bytes
  unfolding pack_indexes
  pack_each [] = []
  pack_each (t ∷ ts) = t.btx_id ++ (pack_indexes t.indexes ++ pack_each ts)

  -- The transactions stand in reverse order, from newest to oldest.
  unfoldable pub pack_tx_indexes : List TxIndexes → Bytes
  unfolding pack_each
  pack_tx_indexes txi = pack_each (reverse txi)

  -- The inner loop, on fuel: up to the marked index, or to the end of the data (which is logged).
  unfoldable pub unpack_indexes : ℕ → Reader (List ℤ)
  unfolding unshift_index is_last int32_of_int
  unpack_indexes zero val = none
  unpack_indexes (suc fuel) val = do
    (i, rest) ← read_varint vlq val
    let more = unpack_indexes fuel rest
    elim (is_last (int32_of_int i) || length rest == 0) [
      | true ↦ some (unshift_index (int32_of_int i) ∷ [], rest)
      | false ↦ (do (is, rest') ← more; some (unshift_index (int32_of_int i) ∷ is, rest'))
    ]

  -- The outer loop, on fuel: `len(val) > txidUnpackedLen`. What is left over is only logged.
  unfoldable pub unpack_tx_indexes : ℕ → ℕ → Bytes → Option (List TxIndexes)
  unfolding unpack_indexes
  unpack_tx_indexes zero txid_len val = if ltb txid_len (length val) then none else some []
  unpack_tx_indexes (suc fuel) txid_len val =
      if ltb txid_len (length val)
      then (do
        (btx_id, rest) ← read_bytes txid_len val
        (indexes, rest') ← unpack_indexes (length rest) rest
        ts ← unpack_tx_indexes fuel txid_len rest'
        some (record { btx_id = btx_id; indexes = indexes } ∷ ts))
      else some []
