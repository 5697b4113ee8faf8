-- ===== src/Db/AddressColumn/Walk.antt =====
-- db/rocksdb.go: GetAddrDescTransactions, the transactions of an address in a range of heights.
use organic_blockbook.Prelude.{ℕ, if◌then◌else◌, List, [], ◌∷◌, none, some, length}
use organic_blockbook.Prelude.Int.{ℤ}
use organic_blockbook.Prelude.Bytes.{Bytes}
use organic_blockbook.Prelude.Options.{Result, ok, err}
use organic_blockbook.Bchain.BaseParser.{unpack_txid}
use organic_blockbook.Db.Vlq.{Vlq}
use organic_blockbook.Db.Keys.{pack_address_key, unpack_address_key, KeyError}
use organic_blockbook.Db.Keys.Order.{bytes_lt}
use organic_blockbook.Db.Connect.Addresses.{TxIndexes}
use organic_blockbook.Db.AddressColumn.{unpack_tx_indexes}

-- What the callback answers: nil, StopIteration, or another error.
pub data Called (S : Type 0) : Type 0 where
  next stopped failed : S → Called S

pub data WalkError (S : Type 0) : Type 0 where
  bad_key : KeyError → WalkError S
  callback_failed : S → WalkError S
  panic : WalkError S

module _ {S : Type 0} (fn : Bytes → ℕ → List ℤ → S → Called S) where
  -- The callback on the transactions of one value.
  unfoldable pub call_each : ℕ → List TxIndexes → S → Called S
  call_each height [] s = next s
  call_each height (t ∷ ts) s = elim (fn (unpack_txid t.btx_id) height t.indexes s) [
    | next s' ↦ call_each height ts s'
    | stopped s' ↦ stopped s'
    | failed s' ↦ failed s'
  ]

  -- The loop over the iterator, which gives keys with their values.
  unfoldable pub walk : Vlq → ℕ → Bytes → List (Bytes × Bytes) → S → Result (WalkError S) S
  unfolding call_each
  walk vlq txid_len stop_key [] s = ok s
  walk vlq txid_len stop_key ((key, val) ∷ it) s =
      if bytes_lt stop_key key then ok s else elim (unpack_address_key key) [
        | err e ↦ err (bad_key e)
        | ok (_, height) ↦ elim (unpack_tx_indexes vlq (length val) txid_len val) [
          | none ↦ err panic
          | some ts ↦ elim (call_each height ts s) [
            | next s' ↦ walk vlq txid_len stop_key it s'
            | stopped s' ↦ ok s'
            | failed s' ↦ err (callback_failed s')
          ]
        ]
      ]

  -- The iterator is RocksDB's: for a key, what Seek and Next give from there on.
  unfoldable pub get_addr_desc_transactions :
      Vlq → ℕ → (Bytes → List (Bytes × Bytes)) → Bytes → ℕ → ℕ → S → Result (WalkError S) S
  unfolding walk
  get_addr_desc_transactions vlq txid_len seek addr_desc lower higher s =
      walk vlq txid_len (pack_address_key addr_desc lower)
        (seek (pack_address_key addr_desc higher)) s
