-- ===== src/Bchain/Mempool.antt =====
-- bchain/basemempool.go and bchain/mempool_bitcoin_type.go: the transactions that wait for a block,
-- by their ids and by the addresses that they touch.
pub mod Entries
use organic_blockbook.Prelude.{
  ℕ, Bool, true, false, if◌then◌else◌, List, [], ◌∷◌, ◌++◌, reverse, Option, none, some, length,
}
use organic_blockbook.Prelude.Int.{ℤ, pos, negsuc}
use organic_blockbook.Prelude.Bytes.{Bytes, bytes_eq}
use organic_blockbook.Prelude.Maps.{Map, lookup, insert, delete}
use organic_blockbook.Bchain.Types.{Vin, Vout, Tx}

pub record AddrIndex : Type 0 where
  pub addr_desc : Bytes
  pub n : ℤ

pub record TxEntry : Type 0 where
  pub addr_indexes : List AddrIndex
  pub time : ℕ

pub record Outpoint : Type 0 where
  pub txid : Bytes
  pub vout : ℤ

pub record BaseMempool : Type 0 where
  pub tx_entries : Map TxEntry
  pub addr_desc_to_tx : Map (List Outpoint)

unfoldable pub outpoints : Option (List Outpoint) → List Outpoint
outpoints none = []
outpoints (some os) = os

unfoldable pub get_addr_desc_transactions : BaseMempool → Bytes → List Outpoint
unfolding outpoints
get_addr_desc_transactions m addr_desc = reverse (outpoints (lookup addr_desc m.addr_desc_to_tx))

-- The outpoints of the other transactions.
unfoldable pub others : Bytes → List Outpoint → List Outpoint
others txid [] = []
others txid (o ∷ os) = if bytes_eq o.txid txid then others txid os else o ∷ others txid os

-- An address with no transactions has no entry.
unfoldable pub put_outpoints : Bytes → List Outpoint → Map (List Outpoint) → Map (List Outpoint)
put_outpoints addr_desc [] m = delete addr_desc m
put_outpoints addr_desc (o ∷ os) m = insert addr_desc (o ∷ os) m

unfoldable pub remove_index : Bytes → AddrIndex → Map (List Outpoint) → Map (List Outpoint)
unfolding others put_outpoints
remove_index txid si m = elim (lookup si.addr_desc m) [
  | none ↦ m
  | some os ↦ put_outpoints si.addr_desc (others txid os) m
]

unfoldable pub remove_indexes : Bytes → List AddrIndex → Map (List Outpoint) → Map (List Outpoint)
unfolding remove_index
remove_indexes txid [] m = m
remove_indexes txid (si ∷ sis) m = remove_indexes txid sis (remove_index txid si m)

unfoldable pub remove_entry_from_mempool : BaseMempool → Bytes → TxEntry → BaseMempool
unfolding remove_indexes
remove_entry_from_mempool m txid entry = record {
  tx_entries = delete txid m.tx_entries;
  addr_desc_to_tx = remove_indexes txid entry.addr_indexes m.addr_desc_to_tx;
}

-- Zero for a transaction that is not in the mempool.
unfoldable pub get_transaction_time : BaseMempool → Bytes → ℕ
get_transaction_time m txid = elim (lookup txid m.tx_entries) [ none ↦ 0 | some e ↦ e.time ]

unfoldable pub add_indexes : Bytes → List AddrIndex → Map (List Outpoint) → Map (List Outpoint)
unfolding outpoints
add_indexes txid [] m = m
add_indexes txid (si ∷ sis) m = add_indexes txid sis (
    insert si.addr_desc
      (outpoints (lookup si.addr_desc m) ++ record { txid = txid; vout = si.n } ∷ []) m)

-- The closure of Resync.
unfoldable pub on_new_entry : BaseMempool → Bytes → TxEntry → BaseMempool
unfolding add_indexes
on_new_entry m txid entry = elim entry.addr_indexes [
  | [] ↦ m
  | si ∷ sis ↦ record {
    tx_entries = insert txid entry m.tx_entries;
    addr_desc_to_tx = add_indexes txid entry.addr_indexes m.addr_desc_to_tx;
  }
]

-- The transactions of the node that are not in the mempool, which are sent to the workers. The
-- workers' results are taken in while the list is read; the node reports no transaction twice.
unfoldable pub new_txids : BaseMempool → List Bytes → List Bytes
new_txids m [] = []
new_txids m (txid ∷ txs) = elim (lookup txid m.tx_entries) [
  | none ↦ txid ∷ new_txids m txs
  | some e ↦ new_txids m txs
]

-- The results as they arrive, in any order.
unfoldable pub take_results : ℕ → List (Bytes × List AddrIndex) → BaseMempool → BaseMempool
unfolding on_new_entry
take_results time [] m = m
take_results time ((txid, io) ∷ results) m =
    take_results time results (on_new_entry m txid (record { addr_indexes = io; time = time }))

unfoldable pub has_txid : Bytes → List Bytes → Bool
has_txid txid [] = false
has_txid txid (t ∷ txs) = if bytes_eq t txid then true else has_txid txid txs

-- Go may delete from a map that it ranges over: the entries are those of before the loop.
unfoldable pub remove_missing : List Bytes → Map TxEntry → BaseMempool → BaseMempool
unfolding has_txid remove_entry_from_mempool
remove_missing txs [] m = m
remove_missing txs ((txid, entry) ∷ entries) m =
    if has_txid txid txs
    then remove_missing txs entries m
    else remove_missing txs entries (remove_entry_from_mempool m txid entry)

-- `results` gives what the workers answer for the transactions sent to them, in the order in which
-- the answers arrive.
unfoldable pub resync :
    (List Bytes → List (Bytes × List AddrIndex)) → ℕ → List Bytes → BaseMempool → BaseMempool
unfolding new_txids take_results remove_missing
resync results time txs m =
    let taken = take_results time (results (new_txids m txs)) m in
    remove_missing txs taken.tx_entries taken
