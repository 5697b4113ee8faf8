-- ===== src/Db/Sync/Index.antt =====
-- The database of db/rocksdb.go and db/bulkconnect.go, as db/sync.go uses it.
use organic_blockbook.Prelude.{if◌then◌else◌, List, Option, none, some}
use organic_blockbook.Prelude.Bytes.{Bytes}
use organic_blockbook.Prelude.Options.{Result, ok, err}
use organic_blockbook.Db.Connect.Outputs.{Env}
use organic_blockbook.Db.Heights.{get_block_hash, get_best_block}
use organic_blockbook.Db.Blocks.{connect_block}
use organic_blockbook.Db.Blocks.Range.{disconnect_block_range}
use organic_blockbook.Db.BulkConnect.{
  BulkConnect, Writes, init_bulk_connect, bulk_connect_block, close_bulk,
}
use organic_blockbook.Db.Sync.{IndexDb}

-- The result without the kind of its error.
abbrev result_of {ℓ κ} : {E : Type ℓ} {A : Type κ} → Result E A → Option A
result_of (ok a) = some a
result_of (err e) = none

abbrev closed_of {ℓ κ} : {E : Type ℓ} {A : Type κ} → Option E × A → Option A
closed_of (none, a) = some a
closed_of (some e, a) = none

-- The worker's state is the bulk handle, whose database is the one that it works on. The caches are
-- stored in the orders given, and RocksDB takes the writes of Close, and of the internal state, or not.
abbrev pub rocks_index : Env → List Bytes → List Bytes → Writes → IndexDb
rocks_index env order_txs order_balances writes = record {
  State = BulkConnect;
  best_block = λ b. result_of (get_best_block env.parser env.vlq b.store);
  block_hash = λ b height. result_of (get_block_hash env.parser env.vlq b.store height);
  connect_block = λ b block. elim (connect_block (record env { store = b.store }) block) [
    | ok (s, best) ↦ some (record b { store = s })
    | err e ↦ none
  ];
  disconnect_block_range = λ b lower higher.
      elim (disconnect_block_range (record env { store = b.store }) lower higher) [
        | ok s ↦ some (record b { store = s })
        | err e ↦ none
      ];
  keep_block_addresses = env.parser.keep_block_addresses;
  init_bulk_connect = λ b. if writes.state then some (init_bulk_connect b.store) else none;
  bulk_connect_block = λ b block store_block_txs.
      result_of (bulk_connect_block env order_txs order_balances store_block_txs block b);
  close_bulk = λ b. closed_of (close_bulk env writes b);
}
