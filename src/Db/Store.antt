-- ===== src/Db/Store.antt =====
-- The columns of RocksDB and its write batches. RocksDB itself is not in the repository: a column is
-- a map from keys to values, a batch is written as a whole, and reads do not fail.
use organic_blockbook.Prelude.{◌≡◌, refl, List, [], ◌∷◌, ◌++◌, Option, none, some}
use organic_blockbook.Prelude.Bytes.{Bytes}
use organic_blockbook.Prelude.Maps.{Map, lookup, insert, delete}

pub data Column : Type 0 where
  cf_height cf_addresses cf_block_txs cf_transactions cf_address_balance cf_tx_addresses : Column

pub record Store : Type 0 where
  pub heights : Map Bytes
  pub addresses : Map Bytes
  pub block_txs : Map Bytes
  pub transactions : Map Bytes
  pub address_balances : Map Bytes
  pub tx_addresses : Map Bytes

abbrev pub empty_store : Store
empty_store = record {
  heights = [];
  addresses = [];
  block_txs = [];
  transactions = [];
  address_balances = [];
  tx_addresses = [];
}

-- `GetCF(…).Data()`
unfoldable pub get_cf : Store → Column → Bytes → Option Bytes
get_cf s cf_height k = lookup k s.heights
get_cf s cf_addresses k = lookup k s.addresses
get_cf s cf_block_txs k = lookup k s.block_txs
get_cf s cf_transactions k = lookup k s.transactions
get_cf s cf_address_balance k = lookup k s.address_balances
get_cf s cf_tx_addresses k = lookup k s.tx_addresses

-- A column's change: a value to put, or a key to delete.
unfoldable pub change : Bytes → Option Bytes → Map Bytes → Map Bytes
change k none m = delete k m
change k (some v) m = insert k v m

unfoldable pub change_cf : Store → Column → Bytes → Option Bytes → Store
unfolding change
change_cf s cf_height k o = record s { heights = change k o s.heights }
change_cf s cf_addresses k o = record s { addresses = change k o s.addresses }
change_cf s cf_block_txs k o = record s { block_txs = change k o s.block_txs }
change_cf s cf_transactions k o = record s { transactions = change k o s.transactions }
change_cf s cf_address_balance k o = record s { address_balances = change k o s.address_balances }
change_cf s cf_tx_addresses k o = record s { tx_addresses = change k o s.tx_addresses }

pub data BatchOp : Type 0 where
  put_cf : Column → Bytes → Bytes → BatchOp
  delete_cf : Column → Bytes → BatchOp

abbrev pub WriteBatch : Type 0
WriteBatch = List BatchOp

unfoldable pub apply_op : Store → BatchOp → Store
unfolding change_cf
apply_op s (put_cf cf k v) = change_cf s cf k (some v)
apply_op s (delete_cf cf k) = change_cf s cf k none

-- `d.db.Write(d.wo, wb)`
unfoldable pub write : Store → WriteBatch → Store
unfolding apply_op
write s [] = s
write s (op ∷ wb) = write (apply_op s op) wb

pub write-append : (s : Store) (a b : WriteBatch) → write s (a ++ b) ≡ write (write s a) b
unfolding write
write-append s [] b = refl
write-append s (op ∷ a) b = write-append (apply_op s op) a b
