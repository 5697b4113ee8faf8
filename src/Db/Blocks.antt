-- ===== src/Db/Blocks.antt =====
-- db/rocksdb.go: ConnectBlock, with the columns it writes, and the cleanup of the column blockTxs.
pub mod Columns
pub mod Cleanup
pub mod Disconnect
pub mod Range
use organic_blockbook.Prelude.{
  ℕ, zero, suc, ◌+◌, ◌-◌, ltb, ◌==◌, if◌then◌else◌, List, [], ◌∷◌, ◌++◌, Option, none, some,
}
use organic_blockbook.Prelude.Bytes.{Bytes}
use organic_blockbook.Prelude.Maps.{Map}
use organic_blockbook.Prelude.Options.{Result, ok, err}
use organic_blockbook.Bchain.Types.{Block}
use organic_blockbook.Db.Vlq.{Vlq}
use organic_blockbook.Db.Keys.{pack_uint, pack_address_key}
use organic_blockbook.Db.Codec.{TxAddresses, pack_tx_addresses}
use organic_blockbook.Db.Balance.{AddrBalance}
use organic_blockbook.Db.BalanceColumn.{pack_addr_balance}
use organic_blockbook.Db.AddressColumn.{pack_tx_indexes}
use organic_blockbook.Db.BlockTxs.{pack_block_txs, block_txs_of}
use organic_blockbook.Db.Heights.{insert_height, block_info_of}
use organic_blockbook.Db.Store.{
  Store, WriteBatch, BatchOp, put_cf, delete_cf, change_cf, get_cf, write, cf_height, cf_addresses,
  cf_block_txs, cf_address_balance, cf_tx_addresses,
}
use organic_blockbook.Db.Connect.Addresses.{AddressesMap, TxIndexes}
use organic_blockbook.Db.Connect.Outputs.{DbError, bad_txid, bad_hash, Env, Work, empty_work}
use organic_blockbook.Db.Connect.Inputs.{process_addresses}

module _ (vlq : Vlq) where
  unfoldable pub store_tx_addresses : Map TxAddresses → WriteBatch
  store_tx_addresses [] = []
  store_tx_addresses ((txid, ta) ∷ m) =
      put_cf cf_tx_addresses txid (pack_tx_addresses vlq ta) ∷ store_tx_addresses m

  -- A balance with no transactions is removed.
  unfoldable pub balance_op : Bytes → AddrBalance → BatchOp
  balance_op desc ab =
      if ab.txs == 0
      then delete_cf cf_address_balance desc
      else put_cf cf_address_balance desc (pack_addr_balance vlq ab)

  unfoldable pub store_balances : Map AddrBalance → WriteBatch
  unfolding balance_op
  store_balances [] = []
  store_balances ((desc, ab) ∷ m) = balance_op desc ab ∷ store_balances m

  unfoldable pub store_addresses : ℕ → AddressesMap → WriteBatch
  store_addresses height [] = []
  store_addresses height ((desc, txi) ∷ m) =
      put_cf cf_addresses (pack_address_key desc height) (pack_tx_indexes vlq txi)
      ∷ store_addresses height m

-- The loop of cleanupBlockTxs, from the height `rh` down to 1 or to the first that has no data. It
-- deletes in the database at once, and not by the batch.
unfoldable pub cleanup_from : ℕ → Store → Store
cleanup_from zero s = s
cleanup_from (suc rh) s =
    let rest = cleanup_from rh (change_cf s cf_block_txs (pack_uint (suc rh)) none) in
    elim (get_cf s cf_block_txs (pack_uint (suc rh))) [ none ↦ s | some _ ↦ rest ]

unfoldable pub cleanup_block_txs : ℕ → ℕ → Store → Store
unfolding cleanup_from
cleanup_block_txs keep height s = if ltb keep height then cleanup_from (height - keep) s else s

infixl 5 ◌>>=◌
abbrev pub ◌>>=◌ {ℓ κ} :
    {A : Type ℓ} {B : Type κ} → Result DbError A → (A → Result DbError B) → Result DbError B
ok a >>= f = f a
err e >>= f = err e

-- The errors of the other columns' code as errors of ConnectBlock.
unfoldable pub as_db_error {ℓ κ} :
    {E : Type ℓ} {A : Type κ} → DbError → Result E A → Result DbError A
as_db_error d (ok a) = ok a
as_db_error d (err e) = err d

module _ (env : Env) where
  open env use {parser, vlq, store}

  -- The database after the block, and the best height that the internal state is told; on an error
  -- the batch is not written, and the database is as before.
  unfoldable pub connect_block : Block → Result DbError (Store × ℕ)
  unfolding store_tx_addresses store_balances store_addresses cleanup_block_txs as_db_error
  connect_block block = do
    (wb_height, best) ←
        as_db_error bad_hash (insert_height parser vlq block.height (block_info_of block))
    w ← process_addresses env block empty_work
    ts ← as_db_error bad_txid (block_txs_of parser block.txs)
    ok (
      write (cleanup_block_txs parser.keep_block_addresses block.height store) (
          wb_height
          ++ (store_tx_addresses vlq w.tx_addresses
              ++ (store_balances vlq w.balances
                  ++ (put_cf cf_block_txs (pack_uint block.height) (pack_block_txs vlq ts)
                      ∷ store_addresses vlq block.height w.addresses)))),
      best,
    )
