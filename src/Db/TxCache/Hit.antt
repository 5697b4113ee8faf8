-- ===== src/Db/TxCache/Hit.antt =====
-- What the cache answers for a transaction that it has stored.
use organic_blockbook.Prelude.{
  ℕ, ◌+◌, ◌-◌, ◌%◌, ◌^◌, ◌<◌, ◌≡◌, ap, ◌∙◌, arith, true, ltb, none, some, length,
}
use organic_blockbook.Prelude.Bytes.{Bytes, bytes_eq_refl}
use organic_blockbook.Prelude.Maps.{lookup, lookup-insert}
use organic_blockbook.Prelude.Options.{ok}
use organic_blockbook.Bchain.Types.{Tx}
use organic_blockbook.Bchain.BaseParser.{Protobuf, ProtobufLaws}
use organic_blockbook.Bchain.BaseParser.RoundTrip.{
  IsPackable, restored, unpack-pack_tx, pack_txid-hex,
}
use organic_blockbook.Db.Vlq.{IsInt64}
use organic_blockbook.Db.Store.{Store, write, apply_op, change_cf, get_cf}
use organic_blockbook.Db.Connect.Outputs.{Env}
use organic_blockbook.Db.TxCache.{
  TxNode, get_tx, put_tx, confirmed_height, fetch_transaction, get_transaction,
}

module _ (IsText : Bytes → Type 0) (pb : Protobuf) (laws : ProtobufLaws pb IsText) where
  get_tx-put_tx :
      (s later : Store) (tx : Tx) (height : ℕ)
      → IsPackable IsText tx
      → IsInt64 tx.blocktime
      → 8 < length tx.txid
      → later.transactions ≡ (put_tx pb s tx height tx.blocktime).transactions
      → get_tx pb later tx.txid ≡ ok (some (restored tx tx.blocktime, height))
  unfolding get_tx put_tx write apply_op change_cf get_cf
  get_tx-put_tx s later tx height h time long same =
      let (id, key) = pack_txid-hex tx.txid h.txid h.some_txid in
      let (buf, packs, unpacks, enough) =
        unpack-pack_tx IsText pb laws tx height tx.blocktime h time in
      let stored : lookup id later.transactions ≡ some buf =
        ap (lookup id) same
        ∙ rw (put_tx, key, packs)
            (lookup-insert id id buf s.transactions ∙ rw (bytes_eq_refl id)) in
      let some_data : ltb 4 (length buf) ≡ true = ground arith in
      rw (key, stored, some_data, unpacks)

  -- A confirmed transaction that the cache has not is answered as the node gives it, with its
  -- height in the index, or the best height of the node if it is not indexed; and it is stored. As
  -- long as the column is not changed, it is then answered from the cache with that same height,
  -- whatever the node and the index say later: without its shielded part and the signs of its
  -- values, its time is the block's, and its confirmations are counted from the best height, modulo
  -- 2^32. The transaction has the id asked for, of more than eight hex digits, and can be packed.
  pub get_transaction_again :
      (env later : Env) (node node' : TxNode) (best best' : ℕ) (tx : Tx) (height : ℕ)
      → get_tx pb env.store tx.txid ≡ ok none
      → node.get_transaction tx.txid ≡ some tx
      → 0 < tx.confirmations
      → confirmed_height pb env node tx.txid ≡ ok height
      → IsPackable IsText tx
      → IsInt64 tx.blocktime
      → 8 < length tx.txid
      → later.store.transactions ≡ (get_transaction pb true env node best tx.txid).1.transactions
      → ((get_transaction pb true env node best tx.txid).0 ≡ ok (tx, height))
        × (get_transaction pb true later node' best' tx.txid ≡ (
          ok (
            record (restored tx tx.blocktime) {
              confirmations = (best' + 2 ^ 32 - height + 1) % 2 ^ 32;
            },
            height,
          ),
          later.store,
        ))
  unfolding get_transaction fetch_transaction
  get_transaction_again env later node node' best best' tx height absent given confirmed at h time
        long same =
      let counted : ltb 0 tx.confirmations ≡ true = ground arith in
      let first : get_transaction pb true env node best tx.txid
          ≡ (ok (tx, height), put_tx pb env.store tx height tx.blocktime) =
        rw (absent, fetch_transaction, given, counted, at) in
      let hit =
        get_tx-put_tx env.store later.store tx height h time long
          (same ∙ ap (λ r. r.1.transactions) first) in
      (ap (λ r. r.0) first, rw hit)
