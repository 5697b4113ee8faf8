-- ===== src/Db/BlockTxs/RoundTrip.antt =====
-- What getBlockTxs reads is what storeAndCleanupBlockTxs stored.
use organic_blockbook.Prelude.{
  ℕ, zero, suc, ◌-◌, ◌^◌, ◌≤◌, ◌<◌, ◌≡◌, refl, arith, ltb, List, false, [], ◌∷◌, ◌++◌, some, length,
  length-append, All,
}
use organic_blockbook.Prelude.Int.{ℤ, pos, negsuc, ◌≤ℤ◌}
use organic_blockbook.Prelude.Bytes.{Bytes}
use organic_blockbook.Prelude.Options.{ok}
use organic_blockbook.Db.Vlq.{Vlq, VlqLaws}
use organic_blockbook.Db.Codec.{read_bytes}
use organic_blockbook.Db.Codec.TxRoundTrip.{read_bytes-append, read_varint-put, read_varuint-put}
use organic_blockbook.Db.AddressColumn.{int32_of_int}
use organic_blockbook.Db.BlockTxs.{
  Outpoint, BlockTxs, pack_outpoints, pack_block_tx, pack_block_txs, unpack_outpoints,
  unpack_n_outpoints, unpack_block_txs,
}
use mathlib.Core.List.{append_assoc}
use mathlib.Core.Path.{subst}

abbrev pub IsInt32 : ℤ → Type 0
IsInt32 z = (negsuc (2 ^ 31 - 1) ≤ℤ z) × (z ≤ℤ pos (2 ^ 31 - 1))

pub record IsOutpoint (txid_len : ℕ) (o : Outpoint) : Type 0 where
  pub id : length o.btx_id ≡ txid_len
  pub index : IsInt32 o.index

-- Ids of the fixed length, which is not zero, and input numbers that are int32 values.
pub record IsBlockTxs (txid_len : ℕ) (t : BlockTxs) : Type 0 where
  pub id : length t.btx_id ≡ txid_len
  pub few : length t.inputs < 2 ^ 64
  pub inputs : All (IsOutpoint txid_len) t.inputs

int32_of_int_lem : (z : ℤ) → IsInt32 z → int32_of_int z ≡ z
unfolding int32_of_int
int32_of_int_lem (pos n) h = ground arith
int32_of_int_lem (negsuc n) h = ground arith

module _ (vlq : Vlq) (laws : VlqLaws vlq) (txid_len : ℕ) where
  read_id :
      (id rest : Bytes) → length id ≡ txid_len → read_bytes txid_len (id ++ rest) ≡ some (id, rest)
  read_id id rest e =
      subst (λ k. read_bytes k (id ++ rest) ≡ some (id, rest)) e (read_bytes-append id rest)

  unpack_outpoint :
      (n : ℕ) (o : Outpoint) (os : List Outpoint) (tail rest : Bytes)
      → IsOutpoint txid_len o
      → unpack_outpoints vlq txid_len n tail ≡ ok (os, rest)
      → unpack_outpoints vlq txid_len (suc n) (o.btx_id ++ (vlq.put_int o.index ++ tail))
        ≡ ok (o ∷ os, rest)
  unfolding unpack_outpoints
  unpack_outpoint n o os tail rest h ih = ground (
    arith,
    h.id,
    length-append o.btx_id (vlq.put_int o.index ++ tail),
    length-append (vlq.put_int o.index) tail,
    laws.length-put_int o.index,
    read_id o.btx_id (vlq.put_int o.index ++ tail) h.id,
    read_varint-put vlq laws o.index tail (omega (arith, h.index)),
    int32_of_int_lem o.index h.index,
  )

  unpack-pack_outpoints :
      (os : List Outpoint) (rest : Bytes)
      → All (IsOutpoint txid_len) os
      → unpack_outpoints vlq txid_len (length os) (pack_outpoints vlq os ++ rest) ≡ ok (os, rest)
  unfolding pack_outpoints
  unpack-pack_outpoints [] rest h = unfold unpack_outpoints in refl
  unpack-pack_outpoints (o ∷ os) rest (ho, hos) = simp append_assoc (
      unpack_outpoint (length os) o os (pack_outpoints vlq os ++ rest) rest ho
        (unpack-pack_outpoints os rest hos))

  -- A round of the loop on a buffer that begins with an id and is not empty.
  unpack_block_round :
      (fuel : ℕ) (buf id rest rest' : Bytes) (os : List Outpoint) (ts : List BlockTxs)
      → 0 < length buf
      → txid_len ≤ length buf
      → read_bytes txid_len buf ≡ some (id, rest)
      → unpack_n_outpoints vlq txid_len rest ≡ ok (os, rest')
      → unpack_block_txs vlq fuel txid_len rest' ≡ ok ts
      → unpack_block_txs vlq (suc fuel) txid_len buf ≡ ok (record { btx_id = id; inputs = os } ∷ ts)
  unpack_block_round fuel [] id rest rest' os ts pos_len long e f g = absurd (omega arith)
  unpack_block_round fuel (b ∷ buf) id rest rest' os ts pos_len long e f g =
      let enough : ltb (length (b ∷ buf)) txid_len ≡ false = ground arith in
      unfold unpack_block_txs in rw (enough, e, f, g)

  unpack-pack_n_outpoints :
      (os : List Outpoint) (rest : Bytes)
      → length os < 2 ^ 64
      → All (IsOutpoint txid_len) os
      → unpack_n_outpoints vlq txid_len
          (vlq.put_uint (length os) ++ (pack_outpoints vlq os ++ rest))
        ≡ ok (os, rest)
  unfolding unpack_n_outpoints
  unpack-pack_n_outpoints os rest few h = rw (
    read_varuint-put vlq laws (length os) (pack_outpoints vlq os ++ rest) few,
    unpack-pack_outpoints os rest h,
  )

  unpack_block_tx :
      (fuel : ℕ) (t : BlockTxs) (ts : List BlockTxs) (tail : Bytes)
      → 0 < txid_len
      → IsBlockTxs txid_len t
      → unpack_block_txs vlq fuel txid_len tail ≡ ok ts
      → unpack_block_txs vlq (suc fuel) txid_len (pack_block_tx vlq t ++ tail) ≡ ok (t ∷ ts)
  unfolding pack_block_tx
  unpack_block_tx fuel t ts tail some_len h ih =
      let body : Bytes = vlq.put_uint (length t.inputs) ++ (pack_outpoints vlq t.inputs ++ tail) in
      let whole = length-append t.btx_id body in
      simp append_assoc (
        unpack_block_round fuel (t.btx_id ++ body) t.btx_id body tail t.inputs ts
          (omega (arith, whole, h.id)) (omega (arith, whole, h.id)) (read_id t.btx_id body h.id)
          (unpack-pack_n_outpoints t.inputs tail h.few h.inputs) ih)

  length-pack_block_txs :
      (ts : List BlockTxs)
      → 0 < txid_len
      → All (IsBlockTxs txid_len) ts
      → length ts ≤ length (pack_block_txs vlq ts)
  unfolding pack_block_txs pack_block_tx
  length-pack_block_txs [] some_len h = omega arith
  length-pack_block_txs (t ∷ ts) some_len (ht, hts) =
      let rest : Bytes = vlq.put_uint (length t.inputs) ++ pack_outpoints vlq t.inputs in
      omega (
        arith,
        length-append (t.btx_id ++ rest) (pack_block_txs vlq ts),
        length-append t.btx_id rest,
        ht.id,
        length-pack_block_txs ts some_len hts,
      )

  unpack-pack_fuel :
      (fuel : ℕ) (ts : List BlockTxs)
      → 0 < txid_len
      → All (IsBlockTxs txid_len) ts
      → length ts ≤ fuel
      → unpack_block_txs vlq fuel txid_len (pack_block_txs vlq ts) ≡ ok ts
  unfolding pack_block_txs
  unpack-pack_fuel zero [] some_len h hf = unfold unpack_block_txs in refl
  unpack-pack_fuel (suc fuel) [] some_len h hf = unfold unpack_block_txs in refl
  unpack-pack_fuel zero (t ∷ ts) some_len h hf = absurd (omega arith)
  unpack-pack_fuel (suc fuel) (t ∷ ts) some_len (ht, hts) hf =
      unpack_block_tx fuel t ts (pack_block_txs vlq ts) some_len ht
        (unpack-pack_fuel fuel ts some_len hts (omega arith))

  -- getBlockTxs reads back the transactions of a block with their inputs, in order; as much fuel as
  -- there are bytes is enough. Ids have the fixed length, which is not zero, output numbers are int32
  -- values, and the inputs of a transaction are fewer than 2^64.
  pub unpack-pack_block_txs :
      (ts : List BlockTxs)
      → 0 < txid_len
      → All (IsBlockTxs txid_len) ts
      → unpack_block_txs vlq (length (pack_block_txs vlq ts)) txid_len (pack_block_txs vlq ts)
        ≡ ok ts
  unpack-pack_block_txs ts some_len h =
      unpack-pack_fuel _ ts some_len h (length-pack_block_txs ts some_len h)
