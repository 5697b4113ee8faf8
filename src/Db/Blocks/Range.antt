-- ===== src/Db/Blocks/Range.antt =====
-- db/rocksdb.go: DisconnectBlockRangeBitcoinType and storeBalancesDisconnect.
pub mod Sorting
use organic_blockbook.Prelude.{
  ℕ, zero, suc, ◌+◌, ◌-◌, ◌==◌, ltb, leb, if◌then◌else◌, List, [], ◌∷◌, ◌++◌, Option, none, some,
  length, reverse,
}
use organic_blockbook.Prelude.Bytes.{Bytes, bytes_eq}
use organic_blockbook.Prelude.Maps.{Map}
use organic_blockbook.Prelude.Options.{Result, ok, err}
use organic_blockbook.Db.Vlq.{Vlq}
use organic_blockbook.Db.Keys.{pack_uint}
use organic_blockbook.Db.Balance.{Utxo, AddrBalance}
use organic_blockbook.Db.BalanceColumn.RoundTrip.{unspent}
use organic_blockbook.Db.BlockTxs.{BlockTxs, unpack_block_txs}
use organic_blockbook.Db.Store.{
  Store, WriteBatch, delete_cf, get_cf, write, cf_height, cf_block_txs, cf_transactions,
  cf_address_balance, cf_tx_addresses,
}
use organic_blockbook.Db.Connect.Outputs.{
  DbError, inconsistent_data, cannot_disconnect, panic, Env, get_tx_addresses, data_of,
}
use organic_blockbook.Db.Blocks.{◌>>=◌, as_db_error, store_tx_addresses, balance_op}
use organic_blockbook.Db.Blocks.Disconnect.{Undo, disconnect_tx_addresses, add_address}

-- `sort.SliceStable` by the height: an insertion sort that puts an output behind all that are not
-- higher, so that outputs of one height keep their order.
unfoldable pub insert_by_height : Utxo → List Utxo → List Utxo
insert_by_height u [] = u ∷ []
insert_by_height u (v ∷ vs) =
    if leb u.height v.height then u ∷ v ∷ vs else v ∷ insert_by_height u vs

unfoldable pub sort_by_height : List Utxo → List Utxo
unfolding insert_by_height
sort_by_height [] = []
sort_by_height (u ∷ us) = insert_by_height u (sort_by_height us)

-- Spent outputs are removed and the others sorted.
unfoldable pub tidy : AddrBalance → AddrBalance
unfolding sort_by_height
tidy ab = record ab { utxos = sort_by_height (unspent ab.utxos) }

unfoldable pub store_balances_disconnect : Vlq → Map (Option AddrBalance) → WriteBatch
unfolding tidy
store_balances_disconnect vlq [] = []
store_balances_disconnect vlq ((desc, none) ∷ m) =
    delete_cf cf_address_balance desc ∷ store_balances_disconnect vlq m
store_balances_disconnect vlq ((desc, some ab) ∷ m) =
    balance_op vlq desc (tidy ab) ∷ store_balances_disconnect vlq m

unfoldable pub delete_txs : List Bytes → WriteBatch
delete_txs [] = []
delete_txs (txid ∷ txids) =
    delete_cf cf_transactions txid ∷ delete_cf cf_tx_addresses txid ∷ delete_txs txids

-- What the loops carry: the transactions to delete, and the work so far.
abbrev pub Pass : Type 0
Pass = List Bytes × Undo

module _ (env : Env) where
  open env use {parser, vlq, store}

  -- getBlockTxs; no data at a height is an error of the range.
  unfoldable pub block_txs_at : ℕ → Result DbError (List BlockTxs)
  block_txs_at height =
      let buf = data_of (get_cf store cf_block_txs (pack_uint height)) in
      as_db_error inconsistent_data (unpack_block_txs vlq (length buf) parser.packed_txid_len buf)

  unfoldable pub some_txs : List BlockTxs → Result DbError (List BlockTxs)
  some_txs [] = err cannot_disconnect
  some_txs (t ∷ ts) = ok (t ∷ ts)

  -- The loop that reads the blocks, from `lower` on; the result has the highest block first.
  unfoldable pub read_blocks :
      ℕ → ℕ → List (ℕ × List BlockTxs) → Result DbError (List (ℕ × List BlockTxs))
  unfolding block_txs_at some_txs
  read_blocks zero height blocks = ok blocks
  read_blocks (suc n) height blocks = do
    ts ← block_txs_at height
    ts' ← some_txs ts
    read_blocks n (suc height) ((height, ts') ∷ blocks)

  -- One transaction; one that is not in the index is only deleted.
  unfoldable pub disconnect_tx : ℕ → BlockTxs → Pass → Result DbError Pass
  unfolding get_tx_addresses disconnect_tx_addresses add_address
  disconnect_tx height t (txids, w) = do
    txa ← get_tx_addresses env t.btx_id
    elim txa [
      | none ↦ ok (add_address t.btx_id txids, w)
      | some ta ↦ (do
        w' ← disconnect_tx_addresses env height t.btx_id t.inputs ta w
        ok (add_address t.btx_id txids, w'))
    ]

  unfoldable pub disconnect_txs : ℕ → List BlockTxs → Pass → Result DbError Pass
  unfolding disconnect_tx
  disconnect_txs height [] p = ok p
  disconnect_txs height (t ∷ ts) p = do p' ← disconnect_tx height t p; disconnect_txs height ts p'

  -- The loop over the blocks, highest first, and in each over the transactions, last first.
  unfoldable pub disconnect_blocks : List (ℕ × List BlockTxs) → Pass → Result DbError Pass
  unfolding disconnect_txs
  disconnect_blocks [] p = ok p
  disconnect_blocks ((height, ts) ∷ blocks) p = do
    (txids, w) ← disconnect_txs height (reverse ts) p
    disconnect_blocks blocks (
      txids,
      record w {
        batch =
            w.batch
            ++ delete_cf cf_block_txs (pack_uint height)
              ∷ delete_cf cf_height (pack_uint height)
              ∷ [];
      },
    )

  -- The database without the blocks from `lower` to `higher`. Heights are uint32, so the loop that
  -- counts down to a `lower` of 0 does not end there, and the next block is out of bounds.
  unfoldable pub disconnect_block_range : ℕ → ℕ → Result DbError Store
  unfolding read_blocks disconnect_blocks store_tx_addresses store_balances_disconnect delete_txs
  disconnect_block_range lower higher = do
    blocks ← read_blocks (higher + 1 - lower) lower []
    (txids, w) ←
        disconnect_blocks blocks ([], record { batch = []; tx_addresses = []; balances = [] })
    if lower == 0
        then err panic
        else ok (
            write store (
              w.batch
              ++ (store_tx_addresses vlq w.tx_addresses
                  ++ (store_balances_disconnect vlq w.balances ++ delete_txs txids))))
