-- ===== src/Tests/Bulk.antt =====
-- The theorems on the bulk connection at a handle with one cached balance and one transaction.
use organic_blockbook.Prelude.{◌≡◌, refl, [], ◌∷◌, none, true, false}
use organic_blockbook.Prelude.Int.{pos}
use organic_blockbook.Db.Codec.{TxAddresses}
use organic_blockbook.Db.Store.{empty_store}
use organic_blockbook.Db.Heights.{pack_block_info, insert_height}
use organic_blockbook.Db.Blocks.{as_db_error, store_addresses}
use organic_blockbook.Db.BulkConnect.{
  BulkConnect, init_bulk_connect, close_bulk, bulk_addresses_batch, parallel_store_balances,
}
use organic_blockbook.Db.BulkConnect.View.{balance_view, balance_view-parallel_store_balances}
use organic_blockbook.Prelude.Maps.{lookup}
use organic_blockbook.Db.BulkConnect.Closing.{all_taken, IsClosed, close_bulk-IsClosed}
use organic_blockbook.Tests.Fixtures.{small_env, three_outputs}

abbrev cached_tx : TxAddresses
cached_tx = record {
  height = 9;
  inputs = [];
  outputs = record { addr_desc = 5 ∷ []; spent = true; value_sat = pos 10 } ∷ [];
  shield_ins = 0;
  shield_outs = 0;
  shield_val_bal = pos 0;
}

abbrev cached : BulkConnect
cached = record (init_bulk_connect empty_store) {
  tx_addresses_map = (1 ∷ [], cached_tx) ∷ [];
  balances = (5 ∷ [], three_outputs) ∷ [];
}

-- A handle that has a block cached too.
abbrev cached_block : BulkConnect
cached_block = record cached {
  bulk_addresses =
      record {
        bi = record { hash = 7 ∷ []; time = pos 100; txs = 1; size = 200; height = 9 };
        addresses = (5 ∷ [], record { btx_id = 1 ∷ []; indexes = [] } ∷ []) ∷ [];
      }
      ∷ [];
}

close_bulk-IsClosed_example :
    (b' : BulkConnect) × (close_bulk small_env all_taken cached_block ≡ (none, b'))
    × IsClosed small_env cached_block b'
unfolding init_bulk_connect bulk_addresses_batch lookup insert_height pack_block_info as_db_error
    store_addresses
close_bulk-IsClosed_example =
    close_bulk-IsClosed small_env cached_block _ refl (refl, tt) (refl, tt)

balance_view-parallel_store_balances_example :
    balance_view small_env (parallel_store_balances small_env ((5 ∷ []) ∷ []) false cached) (5 ∷ [])
    ≡ balance_view small_env cached (5 ∷ [])
balance_view-parallel_store_balances_example =
    balance_view-parallel_store_balances small_env ((5 ∷ []) ∷ []) cached (5 ∷ [])
