-- ===== src/Db/BulkConnect/Closing.antt =====
-- Close: the columns of balances and transactions hold what the caches and the database held
-- together, and the mark of the database goes only with every write.
use organic_blockbook.Prelude.{Bool, ◌≡◌, refl, ap, ◌∙◌, false, [], Option, none, some, true, ◌⊎◌}
use organic_blockbook.Prelude.Bytes.{Bytes}
use organic_blockbook.Prelude.Maps.{IsMap, lookup}
use organic_blockbook.Prelude.Options.{ok}
use organic_blockbook.Db.Store.{
  Store, WriteBatch, get_cf, write, cf_height, cf_addresses, cf_address_balance, cf_tx_addresses,
}
use organic_blockbook.Db.Connect.Outputs.{DbError, Env}
use organic_blockbook.Db.Blocks.{store_balances, store_tx_addresses}
use organic_blockbook.Db.Blocks.Columns.{stored_or, write-store_balances}
use organic_blockbook.Db.BulkConnect.{
  BulkConnect, Writes, bulk_addresses_batch, store_bulk_addresses, after_write, finish_close,
  close_bulk,
}
use organic_blockbook.Db.BulkConnect.View.{balance_view, tx_view, write-store_tx_addresses}
use organic_blockbook.Db.BulkConnect.Batch.{
  write-IsSame, bulk_addresses_batch-IsFine, store_tx_addresses-column, store_balances-column,
  cached_addresses, cached_heights, write-bulk_addresses_batch,
}

abbrev pub all_taken : Writes
all_taken = record { txs = true; balances = true; batch = true; state = true }

module _ (env : Env) where
  -- What Close leaves: a database that is no longer marked, in which the columns of balances and
  -- transactions hold what the database and the caches held together, the columns of addresses and
  -- heights have the rows of the cached blocks, and the other columns are as they were.
  pub record IsClosed (b b' : BulkConnect) : Type 0 where
    pub consistent : b'.inconsistent ≡ false
    pub balances : (k : Bytes) → get_cf b'.store cf_address_balance k ≡ balance_view env b k
    pub txs : (k : Bytes) → get_cf b'.store cf_tx_addresses k ≡ tx_view env b k
    pub addresses :
        (k : Bytes)
        → get_cf b'.store cf_addresses k
          ≡ cached_addresses env b.bulk_addresses k (get_cf b.store cf_addresses k)
    pub heights :
        (k : Bytes)
        → get_cf b'.store cf_height k
          ≡ cached_heights env b.bulk_addresses k (get_cf b.store cf_height k)
    pub block_txs : b'.store.block_txs ≡ b.store.block_txs
    pub transactions : b'.store.transactions ≡ b.store.transactions

  -- If the hashes of all cached blocks can be packed and RocksDB takes every write, Close ends without
  -- an error and the database is no longer marked as inconsistent. For every address and every
  -- transaction its columns hold what the caches had, or what they held before if the caches had
  -- nothing; the columns of addresses and heights hold the rows of the cached blocks, and what they
  -- held before under all other keys; nothing else is changed. No key is twice in a cache.
  pub close_bulk-IsClosed :
      (b : BulkConnect) (wb : WriteBatch)
      → bulk_addresses_batch env b.bulk_addresses ≡ ok wb
      → IsMap b.balances
      → IsMap b.tx_addresses_map
      → (b' : BulkConnect) × (close_bulk env all_taken b ≡ (none, b')) × IsClosed b b'
  unfolding close_bulk after_write finish_close store_bulk_addresses balance_view tx_view get_cf
  close_bulk-IsClosed b wb packed distinct distinct_txs =
      let s₁ = write b.store (store_tx_addresses env.vlq b.tx_addresses_map) in
      let s₂ = write s₁ (store_balances env.vlq b.balances) in
      let fine = bulk_addresses_batch-IsFine env b.bulk_addresses in
      let (same_balances, same_txs, same_block_txs, same_transactions) =
        write-IsSame s₂ wb (rw packed at fine) in
      let column₁ = store_tx_addresses-column env b.store b.tx_addresses_map in
      let column₂ = store_balances-column env s₁ b.balances in
      (
        record b {
          bulk_addresses = [];
          bulk_addresses_count = 0;
          tx_addresses_map = [];
          balances = [];
          store = write s₂ wb;
          inconsistent = false;
        },
        rw (finish_close, packed),
        record {
          consistent = refl;
          balances = λ k.
              ap (lookup k) same_balances
              ∙ write-store_balances env.vlq b.balances s₁ k distinct
              ∙ ap (λ m. stored_or env.vlq (lookup k b.balances) (lookup k m))
                  (ap (λ s. s.address_balances) column₁);
          txs = λ k.
              ap (lookup k) (same_txs ∙ ap (λ s. s.tx_addresses) column₂)
              ∙ write-store_tx_addresses env.vlq b.tx_addresses_map b.store k distinct_txs;
          addresses = λ k.
              (write-bulk_addresses_batch env b.bulk_addresses wb s₂ k packed).0
              ∙ ap (λ m. cached_addresses env b.bulk_addresses k (lookup k m))
                  (ap (λ s. s.addresses) column₂ ∙ ap (λ s. s.addresses) column₁);
          heights = λ k.
              (write-bulk_addresses_batch env b.bulk_addresses wb s₂ k packed).1
              ∙ ap (λ m. cached_heights env b.bulk_addresses k (lookup k m))
                  (ap (λ s. s.heights) column₂ ∙ ap (λ s. s.heights) column₁);
          block_txs =
              same_block_txs ∙ ap (λ s. s.block_txs) column₂ ∙ ap (λ s. s.block_txs) column₁;
          transactions =
              same_transactions
              ∙ ap (λ s. s.transactions) column₂
              ∙ ap (λ s. s.transactions) column₁;
        },
      )

  abbrev IsTaken : Writes → Type 0
  IsTaken w = (w.txs ≡ true) × (w.balances ≡ true) × (w.batch ≡ true) × (w.state ≡ true)

  -- Either there was no error, every write was taken, and the mark is gone; or there was an error, and
  -- the mark is as it was.
  abbrev pub IsOutcome : Writes → Bool → Option DbError × BulkConnect → Type 0
  IsOutcome writes marked r =
      ((r.0 ≡ none) × IsTaken writes × (r.1.inconsistent ≡ false))
      ⊎ ((e : DbError) × (r.0 ≡ some e) × (r.1.inconsistent ≡ marked))
