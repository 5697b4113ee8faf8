-- ===== src/Db/TxCache.antt =====
-- db/txcache.go and the column transactions of db/rocksdb.go: transactions of the node, kept in the
-- database.
pub mod Hit
use organic_blockbook.Prelude.{
  ℕ, ◌+◌, ◌-◌, ◌%◌, ◌^◌, Bool, true, false, ltb, leb, if◌then◌else◌, List, [], ◌∷◌, Option, none,
  some, length, get_elem?,
}
use organic_blockbook.Prelude.Int.{ℤ, pos, negsuc}
use organic_blockbook.Prelude.Bytes.{Bytes}
use organic_blockbook.Prelude.Options.{Result, ok, err}
use organic_blockbook.Bchain.Types.{Tx, PackedTxid, packed, txid_missing, bad_txid}
use organic_blockbook.Bchain.BaseParser.{Protobuf, TxError, pack_txid, own_txid, pack_tx, unpack_tx}
use organic_blockbook.Db.Store.{Store, write, put_cf, delete_cf, get_cf, cf_transactions}
use organic_blockbook.Db.Codec.{TxAddresses, TxInput, TxOutput}
use organic_blockbook.Db.Connect.Outputs.{DbError, Env, data_of, get_tx_addresses}

pub data CacheError : Type 0 where
  tx_error : TxError → CacheError
  db_error : DbError → CacheError
  node_error : CacheError

infixl 5 ◌>>=◌
abbrev pub ◌>>=◌ {ℓ κ} :
    {A : Type ℓ} {B : Type κ}
    → Result CacheError A
    → (A → Result CacheError B)
    → Result CacheError B
ok a >>= f = f a
err e >>= f = err e

abbrev pub or_tx_error {ℓ} : {A : Type ℓ} → Result TxError A → Result CacheError A
or_tx_error (ok a) = ok a
or_tx_error (err e) = err (tx_error e)

abbrev pub or_db_error {ℓ} : {A : Type ℓ} → Result DbError A → Result CacheError A
or_db_error (ok a) = ok a
or_db_error (err e) = err (db_error e)

abbrev pub or_node_error {ℓ} : {A : Type ℓ} → Option A → Result CacheError A
or_node_error none = err node_error
or_node_error (some a) = ok a

-- bchain.BlockChain as the cache calls it; `none` is an error.
pub record TxNode : Type 0 where
  pub get_transaction : Bytes → Option Tx
  pub best_block_height : Option ℕ

-- GetTxAddresses
unfoldable pub tx_addresses_of : Env → Bytes → Result CacheError (Option TxAddresses)
tx_addresses_of env txid = do
  btx_id ← or_tx_error (own_txid (pack_txid txid))
  or_db_error (get_tx_addresses env btx_id)

abbrev pub input_desc : Option TxInput → Option Bytes
input_desc none = none
input_desc (some i) = some i.addr_desc

abbrev pub output_desc : Option TxOutput → Option Bytes
output_desc none = none
output_desc (some o) = some o.addr_desc

-- The descriptor of an output, or of an input, whose index is stored with all bits inverted.
abbrev pub outpoint_desc : ℤ → Option TxAddresses → Option Bytes
outpoint_desc vout none = none
outpoint_desc (pos n) (some ta) = output_desc (get_elem? ta.outputs n)
outpoint_desc (negsuc n) (some ta) = input_desc (get_elem? ta.inputs n)

-- AddrDescForOutpoint; `none` is the nil slice.
unfoldable pub addr_desc_for_outpoint : Env → Bytes → ℤ → Option Bytes
unfolding tx_addresses_of
addr_desc_for_outpoint env txid vout = elim (tx_addresses_of env txid) [
  | err e ↦ none
  | ok ta ↦ outpoint_desc vout ta
]

unfoldable pub delete_tx : Store → Bytes → Store
delete_tx s txid = elim (pack_txid txid) [
  | packed key ↦ write s (delete_cf cf_transactions key ∷ [])
  | txid_missing ↦ s
  | bad_txid ↦ s
]

module _ (pb : Protobuf) where
  -- GetTx; `none` stands for a transaction that is not stored.
  unfoldable pub get_tx : Store → Bytes → Result CacheError (Option (Tx × ℕ))
  get_tx s txid = do
    key ← or_tx_error (own_txid (pack_txid txid))
    let data_ = data_of (get_cf s cf_transactions key)
    if ltb 4 (length data_) then (do r ← or_tx_error (unpack_tx pb data_); ok (some r)) else ok none

  -- PutTx, whose error is only logged.
  unfoldable pub put_tx : Store → Tx → ℕ → ℤ → Store
  put_tx s tx height block_time = elim (pack_txid tx.txid) [
    | txid_missing ↦ s
    | bad_txid ↦ s
    | packed key ↦ elim (pack_tx pb tx height block_time) [
      | err e ↦ s
      | ok buf ↦ write s (put_cf cf_transactions key buf ∷ [])
    ]
  ]

  -- The height of a confirmed transaction: the index's, or the node's best one if it is not indexed.
  unfoldable pub confirmed_height : Env → TxNode → Bytes → Result CacheError ℕ
  unfolding tx_addresses_of
  confirmed_height env node txid = do
    ta ← tx_addresses_of env txid
    elim ta [ none ↦ or_node_error node.best_block_height | some ta ↦ ok ta.height ]

  -- What follows when the cache has not the transaction.
  unfoldable pub fetch_transaction :
      Bool → Env → TxNode → Bytes → Result CacheError (Tx × ℕ) × Store
  unfolding confirmed_height put_tx
  fetch_transaction enabled env node txid = elim (node.get_transaction txid) [
    | none ↦ (err node_error, env.store)
    | some tx ↦
        if ltb 0 tx.confirmations
        then elim (confirmed_height env node txid) [
          | err e ↦ (err e, env.store)
          | ok h ↦ (ok (tx, h), if enabled then put_tx env.store tx h tx.blocktime else env.store)
        ]
        else (ok (tx, 0), env.store)
  ]

  -- GetTransaction: the answer, and the database. `best` is the height of the internal state; the
  -- confirmations of a cached transaction are a uint32.
  unfoldable pub get_transaction :
      Bool → Env → TxNode → ℕ → Bytes → Result CacheError (Tx × ℕ) × Store
  unfolding get_tx fetch_transaction
  get_transaction enabled env node best txid =
      if enabled
      then elim (get_tx env.store txid) [
        | err e ↦ (err e, env.store)
        | ok none ↦ fetch_transaction enabled env node txid
        | ok (some (tx, h)) ↦
            (ok (record tx { confirmations = (best + 2 ^ 32 - h + 1) % 2 ^ 32 }, h), env.store)
      ]
      else fetch_transaction enabled env node txid
