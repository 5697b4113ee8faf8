-- ===== src/Db/BulkConnect/View.antt =====
-- What a column will hold once all caches are stored, and that storing a part of a cache does not
-- change it.
use organic_blockbook.Prelude.{
  ℕ, ◌≡◌, ◌⊎◌, refl, sym, ap, ◌∙◌, arith, false, List, [], ◌∷◌, Option, none, some, leb, ltb,
  length, inl, inr, Bool-cases, Option-cases,
}
use organic_blockbook.Prelude.Bytes.{Bytes, bytes_eq, bytes_eq_iff, bytes_eq_refl}
use organic_blockbook.Prelude.Maps.{
  Map, IsMap, IsMap-insert, lookup, insert, delete, lookup-insert, lookup-delete,
}
use organic_blockbook.Db.Vlq.{Vlq}
use organic_blockbook.Db.Codec.{TxAddresses, pack_tx_addresses}
use organic_blockbook.Db.Balance.{AddrBalance}
use organic_blockbook.Db.Store.{
  Store, get_cf, write, apply_op, cf_address_balance, cf_tx_addresses, put_cf,
}
use organic_blockbook.Db.Connect.Outputs.{Env}
use organic_blockbook.Db.Blocks.{store_tx_addresses}
use organic_blockbook.Db.Blocks.Columns.{stored_or, write-store_balances}
use organic_blockbook.Db.BulkConnect.{
  BulkConnect, Taken, partial_store_addresses, partial_store_balances, move, move_some, move_spent,
  is_spent, take_tx_addresses, take_balances, store_taken_balances, store_taken_tx_addresses,
  parallel_store_tx_addresses, parallel_store_balances,
}

-- Every entry of a map stands in exactly one part, and the part taken is a map.
pub record IsSplit {ℓ} {V : Type ℓ} (m : Map V) (t : Taken V) : Type ℓ where
  pub parts :
      (k : Bytes)
      → ((lookup k t.taken ≡ none) × (lookup k t.left ≡ lookup k m))
        ⊎ ((lookup k t.left ≡ none) × (lookup k t.taken ≡ lookup k m))
  pub taken : IsMap t.taken

module _ {ℓ} {V : Type ℓ} where
  move_found :
      (m : Map V) (k : Bytes) (v : V) (t : Taken V)
      → IsSplit m t
      → lookup k t.left ≡ some v
      → IsSplit m (move k (some v) t)
  unfolding move
  move_found m k v t h e = record { parts = parts; taken = IsMap-insert k v t.taken h.taken }
    where
      parts :
          (j : Bytes)
          → ((lookup j (insert k v t.taken) ≡ none) × (lookup j (delete k t.left) ≡ lookup j m))
            ⊎ ((lookup j (delete k t.left) ≡ none) × (lookup j (insert k v t.taken) ≡ lookup j m))
      parts j = elim (Bool-cases (bytes_eq k j)) [
        | inr other ↦ rw (lookup-insert k j v t.taken, lookup-delete k j t.left, other) (h.parts j)
        | inl same ↦
            let here : lookup j t.left ≡ some v =
              ap (λ i. lookup i t.left) (sym ((bytes_eq_iff k j).0 same)) ∙ e in
            rw (lookup-insert k j v t.taken, lookup-delete k j t.left, same)
              (elim (h.parts j) [
                | inl (out, old) ↦ inr (refl, sym here ∙ old)
                | inr (gone, old) ↦ ground (arith, here, gone)
              ])
      ]

  move-IsSplit :
      (m : Map V) (k : Bytes) (t : Taken V) → IsSplit m t → IsSplit m (move k (lookup k t.left) t)
  unfolding move
  move-IsSplit m k t h = elim (Option-cases (lookup k t.left)) [
    | inl e ↦ rw e h
    | inr (v, e) ↦ rw e (move_found m k v t h e)
  ]

  move_some-IsSplit :
      (m : Map V) (limit : ℕ) (order : List Bytes) (t : Taken V)
      → IsSplit m t
      → IsSplit m (move_some limit order t)
  unfolding move_some
  move_some-IsSplit m limit [] t h = h
  move_some-IsSplit m limit (k ∷ order) t h =
      let h' = move-IsSplit m k t h in
      elim (Bool-cases (leb limit (length (move k (lookup k t.left) t).taken))) [
        | inl full ↦ rw full h'
        | inr more ↦ rw more (move_some-IsSplit m limit order (move k (lookup k t.left) t) h')
      ]

  none_taken : (m : Map V) → IsSplit m (record { taken = []; left = m })
  unfolding lookup
  none_taken m = record { parts = λ k. inl (refl, refl); taken = tt }

move_spent-IsSplit :
    (m n : Map TxAddresses) (t : Taken TxAddresses) → IsSplit m t → IsSplit m (move_spent n t)
unfolding move_spent
move_spent-IsSplit m [] t h = h
move_spent-IsSplit m ((k, a) ∷ n) t h = elim (Bool-cases (is_spent a.outputs)) [
  | inl spent ↦
      rw spent (move_spent-IsSplit m n (move k (lookup k t.left) t) (move-IsSplit m k t h))
  | inr live ↦ rw live (move_spent-IsSplit m n t h)
]

take_tx_addresses-IsSplit :
    (order : List Bytes) (m : Map TxAddresses) → IsSplit m (take_tx_addresses order m)
unfolding take_tx_addresses
take_tx_addresses-IsSplit order m =
    let h = move_spent-IsSplit m m (record { taken = []; left = m }) (none_taken m) in
    let spent = move_spent m (record { taken = []; left = m }) in
    elim (Bool-cases (ltb (length spent.taken) partial_store_addresses)) [
      | inl few ↦ rw few (move_some-IsSplit m partial_store_addresses order spent h)
      | inr many ↦ rw many h
    ]

take_balances-IsSplit :
    (order : List Bytes) (m : Map AddrBalance) → IsSplit m (take_balances order m)
unfolding take_balances
take_balances-IsSplit order m =
    move_some-IsSplit m partial_store_balances order (record { taken = []; left = m })
      (none_taken m)

module _ (vlq : Vlq) where
  unfoldable pub tx_or : Option TxAddresses → Option Bytes → Option Bytes
  tx_or none old = old
  tx_or (some ta) old = some (pack_tx_addresses vlq ta)

  pub write-store_tx_addresses :
      (m : Map TxAddresses) (s : Store) (k : Bytes)
      → IsMap m
      → get_cf (write s (store_tx_addresses vlq m)) cf_tx_addresses k
        ≡ tx_or (lookup k m) (get_cf s cf_tx_addresses k)
  unfolding store_tx_addresses write lookup tx_or get_cf apply_op
  write-store_tx_addresses [] s k h = refl
  write-store_tx_addresses ((txid, ta) ∷ m) s k (fresh, h) =
      write-store_tx_addresses m
        (apply_op s (put_cf cf_tx_addresses txid (pack_tx_addresses vlq ta))) k h
      ∙ elim (Bool-cases (bytes_eq txid k)) [
        | inl same ↦ rw (
          ← (bytes_eq_iff txid k).0 same,
          fresh,
          lookup-insert txid txid (pack_tx_addresses vlq ta) s.tx_addresses,
          bytes_eq_refl txid,
        )
        | inr other ↦ rw (lookup-insert txid k (pack_tx_addresses vlq ta) s.tx_addresses, other)
      ]

module _ (env : Env) where
  -- What the column addressBalance, and the column txAddresses, will hold for a key.
  unfoldable pub balance_view : BulkConnect → Bytes → Option Bytes
  balance_view b k = stored_or env.vlq (lookup k b.balances) (get_cf b.store cf_address_balance k)

  unfoldable pub tx_view : BulkConnect → Bytes → Option Bytes
  tx_view b k = tx_or env.vlq (lookup k b.tx_addresses_map) (get_cf b.store cf_tx_addresses k)

  -- Storing some of the cached balances, whichever Go's map order gives, changes for no address what
  -- the database and the cache together say of its balance.
  pub balance_view-parallel_store_balances :
      (order : List Bytes) (b : BulkConnect) (k : Bytes)
      → balance_view (parallel_store_balances env order false b) k ≡ balance_view b k
  unfolding balance_view parallel_store_balances store_taken_balances stored_or
  balance_view-parallel_store_balances order b k =
      let t = take_balances order b.balances in
      let split = take_balances-IsSplit order b.balances in
      let column = write-store_balances env.vlq t.taken b.store k split.taken in
      elim (split.parts k) [
        | inl (out, same) ↦ rw (column, out, same)
        | inr (gone, same) ↦ rw (column, gone, same)
      ]

  -- Storing some of the cached transactions, the completely spent ones first and then any others,
  -- changes for no transaction what the database and the cache together say of it.
  pub tx_view-parallel_store_tx_addresses :
      (order : List Bytes) (b : BulkConnect) (k : Bytes)
      → tx_view (parallel_store_tx_addresses env order false b) k ≡ tx_view b k
  unfolding tx_view parallel_store_tx_addresses store_taken_tx_addresses tx_or
  tx_view-parallel_store_tx_addresses order b k =
      let t = take_tx_addresses order b.tx_addresses_map in
      let split = take_tx_addresses-IsSplit order b.tx_addresses_map in
      let column = write-store_tx_addresses env.vlq t.taken b.store k split.taken in
      elim (split.parts k) [
        | inl (out, same) ↦ rw (column, out, same)
        | inr (gone, same) ↦ rw (column, gone, same)
      ]
