-- ===== src/Db/BulkConnect.antt =====
-- db/bulkconnect.go: the initial import, which keeps balances and transactions in memory and writes
-- them in large batches.
pub mod View
pub mod Batch
pub mod Closing
use organic_blockbook.Prelude.{
  ℕ, zero, suc, ◌+◌, ◌-◌, ◌^◌, Bool, true, false, ◌&&◌, ◌||◌, ltb, leb, if◌then◌else◌, List, [],
  ◌∷◌, ◌++◌, Option, none, some, length,
}
use organic_blockbook.Prelude.Bytes.{Bytes}
use organic_blockbook.Prelude.Maps.{Map, lookup, insert, delete}
use organic_blockbook.Prelude.Options.{Result, ok, err}
use organic_blockbook.Bchain.Types.{Block}
use organic_blockbook.Db.Keys.{pack_uint}
use organic_blockbook.Db.Codec.{TxOutput, TxAddresses}
use organic_blockbook.Db.Balance.{AddrBalance}
use organic_blockbook.Db.Store.{Store, WriteBatch, write, put_cf, cf_block_txs}
use organic_blockbook.Db.Heights.{BlockInfo, block_info_of, insert_height}
use organic_blockbook.Db.BlockTxs.{pack_block_txs, block_txs_of}
use organic_blockbook.Db.Connect.Addresses.{AddressesMap}
use organic_blockbook.Db.Connect.Outputs.{DbError, bad_txid, bad_hash, write_failed, Env, Work}
use organic_blockbook.Db.Connect.Inputs.{process_addresses}
use organic_blockbook.Db.Blocks.{
  ◌>>=◌, as_db_error, store_tx_addresses, store_balances, store_addresses, cleanup_block_txs,
}

abbrev pub max_bulk_addresses : ℕ
max_bulk_addresses = 80000

abbrev pub max_bulk_tx_addresses : ℕ
max_bulk_tx_addresses = 500000

abbrev pub partial_store_addresses : ℕ
partial_store_addresses = 50000

abbrev pub max_bulk_balances : ℕ
max_bulk_balances = 700000

abbrev pub partial_store_balances : ℕ
partial_store_balances = 70000

pub record BulkAddresses : Type 0 where
  pub bi : BlockInfo
  pub addresses : AddressesMap

-- The handle, with the database that it writes to and the flag that marks this as inconsistent.
pub record BulkConnect : Type 0 where
  pub bulk_addresses : List BulkAddresses
  pub bulk_addresses_count : ℕ
  pub tx_addresses_map : Map TxAddresses
  pub balances : Map AddrBalance
  pub height : ℕ
  pub store : Store
  pub inconsistent : Bool

unfoldable pub init_bulk_connect : Store → BulkConnect
init_bulk_connect s = record {
  bulk_addresses = [];
  bulk_addresses_count = 0;
  tx_addresses_map = [];
  balances = [];
  height = 0;
  store = s;
  inconsistent = true;
}

-- What is taken out of a map to be stored, and what is left.
pub record Taken {ℓ} (V : Type ℓ) : Type ℓ where
  pub taken : Map V
  pub left : Map V

-- One entry is moved.
unfoldable pub move {ℓ} : {V : Type ℓ} → Bytes → Option V → Taken V → Taken V
move k none t = t
move k (some v) t = record { taken = insert k v t.taken; left = delete k t.left }

-- Entries are moved until there are `limit`. Go ranges over a map in any order: `order` has the keys
-- in that order.
unfoldable pub move_some {ℓ} : {V : Type ℓ} → ℕ → List Bytes → Taken V → Taken V
unfolding move
move_some limit [] t = t
move_some limit (k ∷ order) t =
    let t' = move k (lookup k t.left) t in
    let rest = move_some limit order t' in if leb limit (length t'.taken) then t' else rest

unfoldable pub is_spent : List TxOutput → Bool
is_spent [] = true
is_spent (o ∷ os) = if o.spent then is_spent os else false

-- Transactions whose outputs are all spent are moved; what the map has left for the key is `a`.
unfoldable pub move_spent : Map TxAddresses → Taken TxAddresses → Taken TxAddresses
unfolding move is_spent
move_spent [] t = t
move_spent ((k, a) ∷ m) t =
    move_spent m (if is_spent a.outputs then move k (lookup k t.left) t else t)

-- storeTxAddresses without `all`.
unfoldable pub take_tx_addresses : List Bytes → Map TxAddresses → Taken TxAddresses
unfolding move_spent move_some
take_tx_addresses order m =
    let spent = move_spent m (record { taken = []; left = m }) in
    if ltb (length spent.taken) partial_store_addresses
    then move_some partial_store_addresses order spent
    else spent

-- storeBalances without `all`.
unfoldable pub take_balances : List Bytes → Map AddrBalance → Taken AddrBalance
unfolding move_some
take_balances order m = move_some partial_store_balances order (record { taken = []; left = m })

module _ (env : Env) where
  open env use {parser, vlq}

  unfoldable pub store_taken_tx_addresses : Taken TxAddresses → BulkConnect → BulkConnect
  store_taken_tx_addresses t b = record b {
    tx_addresses_map = t.left;
    store = write b.store (store_tx_addresses vlq t.taken);
  }

  unfoldable pub store_taken_balances : Taken AddrBalance → BulkConnect → BulkConnect
  store_taken_balances t b = record b {
    balances = t.left;
    store = write b.store (store_balances vlq t.taken);
  }

  -- parallelStoreTxAddresses and parallelStoreBalances write to columns of their own, so that it does
  -- not matter when they run.
  unfoldable pub parallel_store_tx_addresses : List Bytes → Bool → BulkConnect → BulkConnect
  unfolding store_taken_tx_addresses take_tx_addresses
  parallel_store_tx_addresses order all b =
      store_taken_tx_addresses
        (if all
          then record { taken = b.tx_addresses_map; left = [] }
          else take_tx_addresses order b.tx_addresses_map)
        b

  unfoldable pub parallel_store_balances : List Bytes → Bool → BulkConnect → BulkConnect
  unfolding store_taken_balances take_balances
  parallel_store_balances order all b =
      store_taken_balances
        (if all then record { taken = b.balances; left = [] } else take_balances order b.balances) b

  unfoldable pub bulk_addresses_batch : List BulkAddresses → Result DbError WriteBatch
  bulk_addresses_batch [] = ok []
  bulk_addresses_batch (ba ∷ bas) = do
    (wb_height, _) ← as_db_error bad_hash (insert_height parser vlq ba.bi.height ba.bi)
    wb ← bulk_addresses_batch bas
    ok (store_addresses vlq ba.bi.height ba.addresses ++ (wb_height ++ wb))

  -- The batch of the cached addresses and block infos, and the handle without them.
  unfoldable pub store_bulk_addresses : BulkConnect → Result DbError (WriteBatch × BulkConnect)
  unfolding bulk_addresses_batch
  store_bulk_addresses b = do
    wb ← bulk_addresses_batch b.bulk_addresses
    ok (wb, record b { bulk_addresses = []; bulk_addresses_count = 0 })

  -- The part of connectBlockBitcoinType that writes the caches which are too large.
  unfoldable pub store_overfull : List Bytes → List Bytes → BulkConnect → BulkConnect
  unfolding parallel_store_tx_addresses parallel_store_balances
  store_overfull order_txs order_balances b =
      let txs = parallel_store_tx_addresses order_txs false b in
      let b₁ =
        if ltb max_bulk_tx_addresses (length b.tx_addresses_map + partial_store_addresses)
        then txs
        else b in
      if ltb max_bulk_balances (length b.balances + partial_store_balances)
      then parallel_store_balances order_balances false b₁
      else b₁

  abbrev pub is_overfull : BulkConnect → Bool
  is_overfull b =
      ltb max_bulk_tx_addresses (length b.tx_addresses_map)
      || ltb max_bulk_balances (length b.balances)

  -- The write batch of connectBlockBitcoinType: the cached addresses if there are many, and the data
  -- to disconnect the block if it is among the last ones.
  unfoldable pub write_block : Bool → Bool → Block → BulkConnect → Result DbError BulkConnect
  unfolding store_bulk_addresses cleanup_block_txs
  write_block overfull store_block_txs block b = do
    (wb, b₁) ←
        (if overfull || ltb max_bulk_addresses b.bulk_addresses_count
          then store_bulk_addresses b
          else ok ([], b))
    if store_block_txs
        then (do
          ts ← as_db_error bad_txid (block_txs_of parser block.txs)
          ok (record b₁ {
            store =
                write (cleanup_block_txs parser.keep_block_addresses block.height b₁.store)
                  (wb ++ put_cf cf_block_txs (pack_uint block.height) (pack_block_txs vlq ts) ∷ []);
          }))
        else ok (record b₁ { store = write b₁.store wb })

-- ConnectBlock in bulk mode. The environment has the database as it is in the handle.
unfoldable pub bulk_connect_block :
    Env → List Bytes → List Bytes → Bool → Block → BulkConnect → Result DbError BulkConnect
unfolding store_overfull write_block
bulk_connect_block env order_txs order_balances store_block_txs block b = do
  w ←
      process_addresses (record env { store = b.store }) block
        (record { addresses = []; tx_addresses = b.tx_addresses_map; balances = b.balances })
  let b₁ = record b {
    height = block.height;
    tx_addresses_map = w.tx_addresses;
    balances = w.balances;
  }
  let b₂ = if is_overfull env b₁ then store_overfull env order_txs order_balances b₁ else b₁
  let b₃ = record b₂ {
    bulk_addresses =
        b₂.bulk_addresses ++ record { bi = block_info_of block; addresses = w.addresses } ∷ [];
    bulk_addresses_count = b₂.bulk_addresses_count + length w.addresses;
  }
  write_block env (is_overfull env b₁) store_block_txs block b₃

-- Which of the writes of Close RocksDB takes: the two that run in parallel, the batch of addresses, and
-- the internal state.
pub record Writes : Type 0 where
  pub txs : Bool
  pub balances : Bool
  pub batch : Bool
  pub state : Bool

-- A write that is refused leaves the database as it was.
unfoldable pub after_write : Bool → Store → BulkConnect → BulkConnect
after_write true before b = b
after_write false before b = record b { store = before }

-- The part of Close after the start of the parallel writes, whose errors are looked at when the batch
-- is written.
unfoldable pub finish_close : Env → Writes → BulkConnect → Option DbError × BulkConnect
unfolding store_bulk_addresses
finish_close env writes b = elim (store_bulk_addresses env b) [
  | err e ↦ (some e, b)
  | ok (wb, b₁) ↦
      if writes.batch
      then (let b₂ = record b₁ { store = write b₁.store wb } in
          if writes.txs && (writes.balances && writes.state)
          then (none, record b₂ { inconsistent = false })
          else (some write_failed, b₂))
      else (some write_failed, b₁)
]

-- Close: everything that is cached is stored, and then the database is marked as consistent again.
unfoldable pub close_bulk : Env → Writes → BulkConnect → Option DbError × BulkConnect
unfolding parallel_store_tx_addresses parallel_store_balances after_write finish_close
close_bulk env writes b =
    let b₁ = after_write writes.txs b.store (parallel_store_tx_addresses env [] true b) in
    let b₂ = after_write writes.balances b₁.store (parallel_store_balances env [] true b₁) in
    finish_close env writes b₂
