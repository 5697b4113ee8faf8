-- ===== src/Db/AddressColumn/RoundTrip.antt =====
-- What is read from the column addresses is what was stored, newest transaction first.
use organic_blockbook.Prelude.{
  ℕ, zero, suc, ◌^◌, ◌≤◌, ◌<◌, ◌≡◌, ◌≢◌, refl, arith, Bool, true, false, List, [], ◌∷◌, ◌++◌, some,
  reverse, length, length-append, All,
}
use organic_blockbook.Prelude.Int.{ℤ, pos, negsuc}
use organic_blockbook.Prelude.Bytes.{Bytes}
use organic_blockbook.Db.Vlq.{Vlq, VlqLaws, IsInt64}
use organic_blockbook.Db.Codec.TxRoundTrip.{read_bytes-append, read_varint-put}
use organic_blockbook.Db.Connect.Addresses.{TxIndexes}
use organic_blockbook.Db.AddressColumn.{
  int32_of_int, shift_index, unshift_index, is_last, pack_indexes, pack_each, pack_tx_indexes,
  unpack_indexes, unpack_tx_indexes,
}
use mathlib.Core.List.{append_assoc}
use mathlib.Core.Path.{subst}
use organic_blockbook.Db.Codec.{read_bytes}

-- An index that keeps its value when it is shifted within an int32.
abbrev pub IsIndex : ℤ → Type 0
IsIndex (pos n) = n < 2 ^ 30
IsIndex (negsuc n) = n < 2 ^ 30

pub record IsEntry (txid_len : ℕ) (t : TxIndexes) : Type 0 where
  pub id : length t.btx_id ≡ txid_len
  pub some_index : t.indexes ≢ []
  pub indexes : All IsIndex t.indexes

shift_index_lem :
    (last : Bool) (i : ℤ)
    → IsIndex i
    → IsInt64 (shift_index last i)
      × (is_last (int32_of_int (shift_index last i)) ≡ last)
      × (unshift_index (int32_of_int (shift_index last i)) ≡ i)
unfolding shift_index int32_of_int is_last unshift_index
shift_index_lem true (pos n) h = ground arith
shift_index_lem true (negsuc n) h = ground arith
shift_index_lem false (pos n) h = ground arith
shift_index_lem false (negsuc n) h = ground arith

module _ (vlq : Vlq) (laws : VlqLaws vlq) where
  pack_indexes_pos : (is : List ℤ) → is ≢ [] → 1 ≤ length (pack_indexes vlq is)
  unfolding pack_indexes
  pack_indexes_pos [] h = absurd (h refl)
  pack_indexes_pos (i ∷ []) h = omega (arith, laws.length-put_int (shift_index true i))
  pack_indexes_pos (i ∷ j ∷ is) h = omega (
    arith,
    laws.length-put_int (shift_index false i),
    length-append (vlq.put_int (shift_index false i)) (pack_indexes vlq (j ∷ is)),
  )

  unpack_last :
      (fuel : ℕ) (i : ℤ) (rest : Bytes)
      → IsIndex i
      → unpack_indexes vlq (suc fuel) (vlq.put_int (shift_index true i) ++ rest)
        ≡ some (i ∷ [], rest)
  unfolding unpack_indexes
  unpack_last fuel i rest h =
      let (fits, last, same) = shift_index_lem true i h in
      ground (arith, read_varint-put vlq laws (shift_index true i) rest fits, last, same)

  unpack_more :
      (fuel : ℕ) (i : ℤ) (is : List ℤ) (tail rest : Bytes)
      → IsIndex i
      → 1 ≤ length tail
      → unpack_indexes vlq fuel tail ≡ some (is, rest)
      → unpack_indexes vlq (suc fuel) (vlq.put_int (shift_index false i) ++ tail)
        ≡ some (i ∷ is, rest)
  unfolding unpack_indexes
  unpack_more fuel i is tail rest h some_tail ih =
      let (fits, last, same) = shift_index_lem false i h in
      ground (arith, read_varint-put vlq laws (shift_index false i) tail fits, last, same)

  -- The indexes of a transaction are read back up to the marked one, whatever follows.
  unpack-pack_indexes :
      (fuel : ℕ) (is : List ℤ) (rest : Bytes)
      → is ≢ []
      → All IsIndex is
      → length is ≤ fuel
      → unpack_indexes vlq fuel (pack_indexes vlq is ++ rest) ≡ some (is, rest)
  unfolding pack_indexes
  unpack-pack_indexes fuel [] rest some_index h hf = absurd (some_index refl)
  unpack-pack_indexes zero (i ∷ is) rest some_index h hf = absurd (omega arith)
  unpack-pack_indexes (suc fuel) (i ∷ []) rest some_index (hi, _) hf = unpack_last fuel i rest hi
  unpack-pack_indexes (suc fuel) (i ∷ j ∷ is) rest some_index (hi, his) hf = rw append_assoc (
      unpack_more fuel i (j ∷ is) (pack_indexes vlq (j ∷ is) ++ rest) rest hi
        (omega (
          arith,
          pack_indexes_pos (j ∷ is) (λ e. cc),
          length-append (pack_indexes vlq (j ∷ is)) rest,
        ))
        (unpack-pack_indexes fuel (j ∷ is) rest (λ e. cc) his (omega arith)))

  length-pack_indexes : (is : List ℤ) → length is ≤ length (pack_indexes vlq is)
  unfolding pack_indexes
  length-pack_indexes [] = omega arith
  length-pack_indexes (i ∷ []) = omega (arith, laws.length-put_int (shift_index true i))
  length-pack_indexes (i ∷ j ∷ is) = omega (
    arith,
    laws.length-put_int (shift_index false i),
    length-append (vlq.put_int (shift_index false i)) (pack_indexes vlq (j ∷ is)),
    length-pack_indexes (j ∷ is),
  )

  unpack_round :
      (fuel txid_len : ℕ) (t : TxIndexes) (ts : List TxIndexes) (tail : Bytes)
      → IsEntry txid_len t
      → unpack_tx_indexes vlq fuel txid_len tail ≡ some ts
      → unpack_tx_indexes vlq (suc fuel) txid_len (t.btx_id ++ (pack_indexes vlq t.indexes ++ tail))
        ≡ some (t ∷ ts)
  unfolding unpack_tx_indexes
  unpack_round fuel txid_len t ts tail h ih = ground (
    arith,
    h.id,
    length-append t.btx_id (pack_indexes vlq t.indexes ++ tail),
    length-append (pack_indexes vlq t.indexes) tail,
    length-pack_indexes t.indexes,
    pack_indexes_pos t.indexes h.some_index,
    subst
        (λ k.
          read_bytes k (t.btx_id ++ (pack_indexes vlq t.indexes ++ tail))
          ≡ some (t.btx_id, pack_indexes vlq t.indexes ++ tail))
        h.id (read_bytes-append t.btx_id (pack_indexes vlq t.indexes ++ tail)),
    unpack-pack_indexes (length (pack_indexes vlq t.indexes ++ tail)) t.indexes tail h.some_index
        h.indexes,
  )

  unpack-pack_each :
      (fuel txid_len : ℕ) (ts : List TxIndexes)
      → All (IsEntry txid_len) ts
      → length ts ≤ fuel
      → unpack_tx_indexes vlq fuel txid_len (pack_each vlq ts) ≡ some ts
  unfolding pack_each
  unpack-pack_each zero txid_len [] h hf = unfold unpack_tx_indexes in ground arith
  unpack-pack_each (suc fuel) txid_len [] h hf = unfold unpack_tx_indexes in ground arith
  unpack-pack_each zero txid_len (t ∷ ts) h hf = absurd (omega arith)
  unpack-pack_each (suc fuel) txid_len (t ∷ ts) (ht, hts) hf =
      unpack_round fuel txid_len t ts (pack_each vlq ts) ht
        (unpack-pack_each fuel txid_len ts hts (omega arith))

  length-pack_each :
      (ts : List TxIndexes) (txid_len : ℕ)
      → All (IsEntry txid_len) ts
      → length ts ≤ length (pack_each vlq ts)
  unfolding pack_each
  length-pack_each [] txid_len h = omega arith
  length-pack_each (t ∷ ts) txid_len (ht, hts) = omega (
    arith,
    length-append t.btx_id (pack_indexes vlq t.indexes ++ pack_each vlq ts),
    length-append (pack_indexes vlq t.indexes) (pack_each vlq ts),
    pack_indexes_pos t.indexes ht.some_index,
    length-pack_each ts txid_len hts,
  )

  -- What the loops of GetAddrDescTransactions read from a value of the column addresses is what
  -- packTxIndexes stored, each transaction with its indexes, in reverse order; as much fuel as
  -- there are bytes is enough. Ids have the fixed length, each transaction has an index, and an
  -- index or its complement is below 2^30.
  pub unpack-pack_tx_indexes :
      (txid_len : ℕ) (ts : List TxIndexes)
      → All (IsEntry txid_len) (reverse ts)
      → unpack_tx_indexes vlq (length (pack_tx_indexes vlq ts)) txid_len (pack_tx_indexes vlq ts)
        ≡ some (reverse ts)
  unfolding pack_tx_indexes
  unpack-pack_tx_indexes txid_len ts h =
      unpack-pack_each _ txid_len (reverse ts) h (length-pack_each (reverse ts) txid_len h)
