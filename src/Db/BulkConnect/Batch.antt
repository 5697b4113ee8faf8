-- ===== src/Db/BulkConnect/Batch.antt =====
-- The batches of the bulk connection, column by column.
use organic_blockbook.Prelude.{
  ℕ, ◌≡◌, refl, ap, ◌∙◌, List, [], ◌∷◌, ◌++◌, All, All-append, Option, none, some, arith,
  if◌then◌else◌, sym, inl, inr, Bool-cases, ◌==◌,
}
use organic_blockbook.Prelude.Bytes.{Bytes, bytes_eq}
use organic_blockbook.Prelude.Maps.{Map, lookup, lookup-insert}
use organic_blockbook.Prelude.Options.{Result, ok, err, Result-cases}
use mathlib.Core.Option.{some-injective}
use organic_blockbook.Db.Store.{
  Store, WriteBatch, BatchOp, write, write-append, apply_op, change, change_cf, put_cf, delete_cf,
  cf_height, cf_addresses, cf_block_txs, cf_transactions, cf_address_balance, cf_tx_addresses,
}
use organic_blockbook.Db.Heights.{insert_height, pack_block_info}
use organic_blockbook.Db.Keys.{pack_uint, pack_address_key}
use organic_blockbook.Db.AddressColumn.{pack_tx_indexes}
use organic_blockbook.Db.BalanceColumn.{pack_addr_balance}
use organic_blockbook.Db.Connect.Addresses.{AddressesMap}
use organic_blockbook.Db.Connect.Outputs.{DbError, Env}
use organic_blockbook.Db.Codec.{TxAddresses, pack_tx_addresses}
use organic_blockbook.Db.Balance.{AddrBalance}
use organic_blockbook.Db.Blocks.{
  balance_op, as_db_error, store_addresses, store_balances, store_tx_addresses,
}
use organic_blockbook.Db.BulkConnect.{BulkAddresses, bulk_addresses_batch}

-- An operation on the columns addresses and height.
abbrev pub IsIndexOp : BatchOp → Type 0
IsIndexOp (put_cf cf_addresses k v) = Unit
IsIndexOp (put_cf cf_height k v) = Unit
IsIndexOp _ = ⊥

-- The other columns are untouched.
abbrev pub IsSame : Store → Store → Type 0
IsSame s s' =
    (s'.address_balances ≡ s.address_balances)
    × (s'.tx_addresses ≡ s.tx_addresses)
    × (s'.block_txs ≡ s.block_txs)
    × (s'.transactions ≡ s.transactions)

apply_op-IsSame : (s : Store) (op : BatchOp) → IsIndexOp op → IsSame s (apply_op s op)
unfolding apply_op change_cf
apply_op-IsSame s (put_cf cf_addresses k v) h = (refl, refl, refl, refl)
apply_op-IsSame s (put_cf cf_height k v) h = (refl, refl, refl, refl)
apply_op-IsSame s (put_cf cf_block_txs k v) h = elim h [ ]
apply_op-IsSame s (put_cf cf_transactions k v) h = elim h [ ]
apply_op-IsSame s (put_cf cf_address_balance k v) h = elim h [ ]
apply_op-IsSame s (put_cf cf_tx_addresses k v) h = elim h [ ]
apply_op-IsSame s (delete_cf _ _) h = elim h [ ]

pub write-IsSame : (s : Store) (wb : WriteBatch) → All IsIndexOp wb → IsSame s (write s wb)
unfolding write
write-IsSame s [] h = (refl, refl, refl, refl)
write-IsSame s (op ∷ wb) (h, hs) =
    let (b, t, d, x) = apply_op-IsSame s op h in
    let (b', t', d', x') = write-IsSame (apply_op s op) wb hs in (b' ∙ b, t' ∙ t, d' ∙ d, x' ∙ x)

abbrev pub IsFine : Result DbError WriteBatch → Type 0
IsFine (ok wb) = All IsIndexOp wb
IsFine (err e) = Unit

abbrev pub ok_value {ℓ κ} : {E : Type ℓ} {A : Type κ} → Result E A → Option A
ok_value (ok a) = some a
ok_value (err e) = none

err-not_ok {ℓ κ} : {E : Type ℓ} {A : Type κ} {e : E} {a : A} → err e ≡ ok a → ⊥
err-not_ok p = ground (arith, p)

module _ (env : Env) where
  store_addresses-IsIndexOp :
      (height : ℕ) (m : AddressesMap) → All IsIndexOp (store_addresses env.vlq height m)
  unfolding store_addresses
  store_addresses-IsIndexOp height [] = tt
  store_addresses-IsIndexOp height ((desc, txi) ∷ m) = (tt, store_addresses-IsIndexOp height m)

  pub bulk_addresses_batch-IsFine :
      (bas : List BulkAddresses) → IsFine (bulk_addresses_batch env bas)
  unfolding bulk_addresses_batch as_db_error insert_height
  bulk_addresses_batch-IsFine [] = tt
  bulk_addresses_batch-IsFine (ba ∷ bas) =
      let rest = bulk_addresses_batch-IsFine bas in
      elim (Result-cases (pack_block_info env.parser env.vlq ba.bi)) [
        | inr (e, bad) ↦ rw (bad, bulk_addresses_batch) tt
        | inl (val, good) ↦ elim (Result-cases (bulk_addresses_batch env bas)) [
          | inr (e, bad) ↦ rw (good, bulk_addresses_batch, bad) tt
          | inl (wb, e) ↦
              rw (good, bulk_addresses_batch, e)
                (All-append IsIndexOp (store_addresses env.vlq ba.bi.height ba.addresses) _
                  (store_addresses-IsIndexOp ba.bi.height ba.addresses) (tt, rw e at rest))
        ]
      ]

  -- The batches of transactions and of balances change one column each.
  pub store_tx_addresses-column :
      (s : Store) (m : Map TxAddresses)
      → let wb = store_tx_addresses env.vlq m in
        write s wb ≡ record s { tx_addresses = (write s wb).tx_addresses }
  unfolding store_tx_addresses write apply_op change_cf
  store_tx_addresses-column s [] = refl
  store_tx_addresses-column s ((txid, ta) ∷ m) =
      store_tx_addresses-column
        (apply_op s (put_cf cf_tx_addresses txid (pack_tx_addresses env.vlq ta))) m

  pub store_balances-column :
      (s : Store) (m : Map AddrBalance)
      → let wb = store_balances env.vlq m in
        write s wb ≡ record s { address_balances = (write s wb).address_balances }
  unfolding store_balances balance_op write apply_op change_cf
  store_balances-column s [] = refl
  store_balances-column s ((desc, ab) ∷ m) = elim (Bool-cases (ab.txs == 0)) [
    | inl gone ↦ rw gone (store_balances-column (apply_op s (delete_cf cf_address_balance desc)) m)
    | inr kept ↦ rw kept (
        store_balances-column
          (apply_op s (put_cf cf_address_balance desc (pack_addr_balance env.vlq ab))) m)
  ]

  -- What the column addresses holds under a key after the rows of a block: the row with that key, if
  -- there is one, and otherwise what it held before. In the same way the cached blocks, of which the
  -- last one counts, give the columns addresses and height.
  abbrev pub cached_rows : ℕ → AddressesMap → Bytes → Option Bytes → Option Bytes
  cached_rows height [] k old = old
  cached_rows height ((desc, txi) ∷ m) k old = cached_rows height m k (
      if bytes_eq (pack_address_key desc height) k then some (pack_tx_indexes env.vlq txi) else old)

  abbrev pub cached_addresses : List BulkAddresses → Bytes → Option Bytes → Option Bytes
  cached_addresses [] k old = old
  cached_addresses (ba ∷ bas) k old =
      cached_addresses bas k (cached_rows ba.bi.height ba.addresses k old)

  abbrev pub cached_heights : List BulkAddresses → Bytes → Option Bytes → Option Bytes
  cached_heights [] k old = old
  cached_heights (ba ∷ bas) k old = cached_heights bas k (
      if bytes_eq (pack_uint ba.bi.height) k
      then ok_value (pack_block_info env.parser env.vlq ba.bi)
      else old)

  write-store_addresses :
      (s : Store) (height : ℕ) (m : AddressesMap) (k : Bytes)
      → let s' = write s (store_addresses env.vlq height m) in
        (lookup k s'.addresses ≡ cached_rows height m k (lookup k s.addresses))
        × (s'.heights ≡ s.heights)
  unfolding store_addresses write apply_op change_cf change
  write-store_addresses s height [] k = (refl, refl)
  write-store_addresses s height ((desc, txi) ∷ m) k =
      let row = pack_tx_indexes env.vlq txi in
      let s₁ = apply_op s (put_cf cf_addresses (pack_address_key desc height) row) in
      let (e, h) = write-store_addresses s₁ height m k in
      (
        e
            ∙ ap (cached_rows height m k)
                (lookup-insert (pack_address_key desc height) k row s.addresses),
        h,
      )

  pub write-bulk_addresses_batch :
      (bas : List BulkAddresses) (wb : WriteBatch) (s : Store) (k : Bytes)
      → bulk_addresses_batch env bas ≡ ok wb
      → (lookup k (write s wb).addresses ≡ cached_addresses bas k (lookup k s.addresses))
        × (lookup k (write s wb).heights ≡ cached_heights bas k (lookup k s.heights))
  unfolding bulk_addresses_batch as_db_error insert_height write apply_op change_cf change
  write-bulk_addresses_batch [] wb s k e = rw (← some-injective [] wb (ap ok_value e)) (refl, refl)
  write-bulk_addresses_batch (ba ∷ bas) wb s k e =
      elim (Result-cases (pack_block_info env.parser env.vlq ba.bi)) [
        | inr (x, bad) ↦ absurd (err-not_ok (rw (bad, bulk_addresses_batch) at e))
        | inl (val, good) ↦ elim (Result-cases (bulk_addresses_batch env bas)) [
          | inr (x, bad) ↦ absurd (err-not_ok (rw (good, bulk_addresses_batch, bad) at e))
          | inl (wb', rest) ↦
              let rows = store_addresses env.vlq ba.bi.height ba.addresses in
              let put = put_cf cf_height (pack_uint ba.bi.height) val ∷ [] in
              let batch : rows ++ (put ++ wb') ≡ wb =
                some-injective (rows ++ (put ++ wb')) wb
                  (ap ok_value (rw (good, bulk_addresses_batch, rest) at e)) in
              let (a, h) = write-store_addresses s ba.bi.height ba.addresses k in
              let s₁ = write s rows in
              let s₂ = write s₁ put in
              let (a', h') = write-bulk_addresses_batch bas wb' s₂ k rest in
              let written : write s wb ≡ write s₂ wb' =
                ap (write s) (sym batch)
                ∙ write-append s rows (put ++ wb')
                ∙ write-append s₁ put wb' in
              (
                ap (λ t. lookup k t.addresses) written ∙ a' ∙ ap (cached_addresses bas k) a,
                ap (λ t. lookup k t.heights) written
                    ∙ h'
                    ∙ ap (cached_heights bas k) (
                        lookup-insert (pack_uint ba.bi.height) k val s₁.heights
                        ∙ rw good (
                            ap
                              (λ m.
                                if bytes_eq (pack_uint ba.bi.height) k
                                then some val
                                else lookup k m)
                              h)),
              )
        ]
      ]
