-- ===== src/Bchain/Types.antt =====
-- bchain/types.go: the parts of transactions and blocks that the index reads, and the interface
-- BlockChainParser as far as package db calls it.
use organic_blockbook.Prelude.{ℕ, List, Option, Bool}
use organic_blockbook.Prelude.Int.{ℤ}
use organic_blockbook.Prelude.Bytes.{Bytes}

pub record Vin : Type 0 where
  pub coinbase : Bytes
  pub txid : Bytes
  pub vout : ℕ
  pub script_sig_hex : Bytes
  pub sequence : ℕ
  pub addresses : List Bytes

pub record Vout : Type 0 where
  pub value_sat : ℤ
  pub n : ℕ
  pub script_hex : Bytes
  pub addresses : List Bytes

-- A shielded input or output is the JSON text that the node reports.
pub record Tx : Type 0 where
  pub hex : Bytes
  pub txid : Bytes
  pub version : ℤ
  pub lock_time : ℕ
  pub vin : List Vin
  pub vout : List Vout
  pub confirmations : ℕ
  pub time : ℤ
  pub blocktime : ℤ
  pub v_shield_in : List Bytes
  pub v_shield_out : List Bytes
  pub shield_val_bal : ℤ

-- The header's fields that package db reads, and the transactions.
pub record Block : Type 0 where
  pub hash : Bytes
  pub next : Bytes
  pub height : ℕ
  pub time : ℤ
  pub size : ℕ
  pub txs : List Tx

-- What PackTxid answers: the bytes, ErrTxidMissing, or another error.
pub data PackedTxid : Type 0 where
  packed : Bytes → PackedTxid
  txid_missing : PackedTxid
  bad_txid : PackedTxid

-- An error of GetAddrDescFromVout is `none`: its kind decides on a log line only.
pub record ChainParser : Type 0 where
  pub pack_txid : Bytes → PackedTxid
  pub packed_txid_len : ℕ
  pub keep_block_addresses : ℕ
  pub get_addr_desc_from_vout : Vout → Option Bytes
  pub is_addr_desc_indexable : Bytes → Bool
  pub get_addr_desc_for_unknown_input : Tx → ℕ → Bytes
  pub get_value_sat_for_unknown_input : Tx → ℕ → ℤ
  pub pack_block_hash : Bytes → Option Bytes
  pub unpack_block_hash : Bytes → Option Bytes
