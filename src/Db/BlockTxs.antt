-- ===== src/Db/BlockTxs.antt =====
-- db/rocksdb.go: the column blockTxs, which keeps the inputs of the transactions of the last blocks:
-- packOutpoints, unpackNOutpoints, the loop of storeAndCleanupBlockTxs and getBlockTxs.
pub mod RoundTrip
use organic_blockbook.Prelude.{
  ℕ, zero, suc, leb, ltb, if◌then◌else◌, List, [], ◌∷◌, ◌++◌, Option, none, some, length, replicate,
}
use organic_blockbook.Prelude.Int.{ℤ}
use organic_blockbook.Prelude.Bytes.{Bytes}
use organic_blockbook.Prelude.Options.{Result, ok, err}
use organic_blockbook.Bchain.Types.{Vin, Tx, ChainParser, PackedTxid, packed, txid_missing}
use organic_blockbook.Db.Vlq.{Vlq}
use organic_blockbook.Db.Codec.{read_bytes, read_varuint, read_varint}
use organic_blockbook.Db.BalanceColumn.{int32}
use organic_blockbook.Db.AddressColumn.{int32_of_int}

pub record Outpoint : Type 0 where
  pub btx_id : Bytes
  pub index : ℤ

pub record BlockTxs : Type 0 where
  pub btx_id : Bytes
  pub inputs : List Outpoint

pub data BlockTxsError : Type 0 where
  inconsistent_data panic bad_txid : BlockTxsError

infixl 5 ◌>>=◌
abbrev pub ◌>>=◌ {ℓ κ} :
    {A : Type ℓ} {B : Type κ}
    → Result BlockTxsError A
    → (A → Result BlockTxsError B)
    → Result BlockTxsError B
ok a >>= f = f a
err e >>= f = err e

abbrev pub or_panic {ℓ} : {A : Type ℓ} → Option A → Result BlockTxsError A
or_panic none = err panic
or_panic (some a) = ok a

module _ (vlq : Vlq) where
  unfoldable pub pack_outpoints : List Outpoint → Bytes
  pack_outpoints [] = []
  pack_outpoints (o ∷ os) = o.btx_id ++ (vlq.put_int o.index ++ pack_outpoints os)

  -- One transaction in the value of a block.
  unfoldable pub pack_block_tx : BlockTxs → Bytes
  unfolding pack_outpoints
  pack_block_tx t = t.btx_id ++ (vlq.put_uint (length t.inputs) ++ pack_outpoints t.inputs)

  unfoldable pub pack_block_txs : List BlockTxs → Bytes
  unfolding pack_block_tx
  pack_block_txs [] = []
  pack_block_txs (t ∷ ts) = pack_block_tx t ++ pack_block_txs ts

  -- The loop of unpackNOutpoints; the rest of the buffer stands for the number of bytes read.
  unfoldable pub unpack_outpoints : ℕ → ℕ → Bytes → Result BlockTxsError (List Outpoint × Bytes)
  unpack_outpoints txid_len zero buf = ok ([], buf)
  unpack_outpoints txid_len (suc n) buf =
      if leb (length buf) txid_len then err inconsistent_data else (do
        (btx_id, rest) ← or_panic (read_bytes txid_len buf)
        (vout, rest') ← or_panic (read_varint vlq rest)
        (os, rest'') ← unpack_outpoints txid_len n rest'
        ok (record { btx_id = btx_id; index = int32_of_int vout } ∷ os, rest''))

  unfoldable pub unpack_n_outpoints : ℕ → Bytes → Result BlockTxsError (List Outpoint × Bytes)
  unfolding unpack_outpoints
  unpack_n_outpoints txid_len buf = do
    (n, rest) ← or_panic (read_varuint vlq buf)
    unpack_outpoints txid_len n rest

  -- The loop of getBlockTxs, on fuel; it ends with the buffer.
  unfoldable pub unpack_block_txs : ℕ → ℕ → Bytes → Result BlockTxsError (List BlockTxs)
  unfolding unpack_n_outpoints
  unpack_block_txs fuel txid_len [] = ok []
  unpack_block_txs zero txid_len (b ∷ buf) = err panic
  unpack_block_txs (suc fuel) txid_len (b ∷ buf) =
      if ltb (length (b ∷ buf)) txid_len then err inconsistent_data else (do
        (txid, rest) ← or_panic (read_bytes txid_len (b ∷ buf))
        (o, rest') ← unpack_n_outpoints txid_len rest
        ts ← unpack_block_txs fuel txid_len rest'
        ok (record { btx_id = txid; inputs = o } ∷ ts))

module _ (parser : ChainParser) where
  -- An input without an id is stored under an id of zeros.
  unfoldable pub input_outpoint : Vin → PackedTxid → Result BlockTxsError Outpoint
  input_outpoint vin (packed btx_id) = ok (record { btx_id = btx_id; index = int32 vin.vout })
  input_outpoint vin txid_missing =
      ok (record { btx_id = replicate parser.packed_txid_len 0; index = int32 vin.vout })
  input_outpoint vin PackedTxid.bad_txid = err bad_txid

  unfoldable pub input_outpoints : List Vin → Result BlockTxsError (List Outpoint)
  unfolding input_outpoint
  input_outpoints [] = ok []
  input_outpoints (vin ∷ vins) = do
    o ← input_outpoint vin (parser.pack_txid vin.txid)
    os ← input_outpoints vins
    ok (o ∷ os)

  unfoldable pub own_id : PackedTxid → Result BlockTxsError Bytes
  own_id (packed btx_id) = ok btx_id
  own_id _ = err bad_txid

  -- The loop of storeAndCleanupBlockTxs over the transactions of a block.
  unfoldable pub block_txs_of : List Tx → Result BlockTxsError (List BlockTxs)
  unfolding input_outpoints own_id
  block_txs_of [] = ok []
  block_txs_of (tx ∷ txs) = do
    os ← input_outpoints tx.vin
    btx_id ← own_id (parser.pack_txid tx.txid)
    ts ← block_txs_of txs
    ok (record { btx_id = btx_id; inputs = os } ∷ ts)
