-- ===== src/Db/Blocks/Columns.antt =====
-- What is read from the column addressBalance after the balances of a block are written.
use organic_blockbook.Prelude.{
  ◌≤◌, ◌≡◌, ◌≢◌, refl, ap, ◌∙◌, arith, ltb, ◌==◌, if◌then◌else◌, false, [], ◌∷◌, ◌++◌, Option, none,
  some, length, length-append, Bool-cases, inl, inr,
}
use organic_blockbook.Prelude.Bytes.{Bytes, bytes_eq, bytes_eq_iff, bytes_eq_refl}
use organic_blockbook.Prelude.Maps.{IsMap, Map, lookup, lookup-insert, lookup-delete}
use organic_blockbook.Prelude.Options.{ok}
use organic_blockbook.Db.Vlq.{Vlq, VlqLaws}
use organic_blockbook.Db.Bigint.{pack_bigint}
use organic_blockbook.Db.Balance.{AddrBalance}
use organic_blockbook.Db.BalanceColumn.{utxo, pack_addr_balance, pack_utxos}
use organic_blockbook.Db.BalanceColumn.RoundTrip.{
  IsStorable, unspent, unpack-pack_addr_balance, pack_bigint_pos,
}
use organic_blockbook.Db.Store.{Store, get_cf, write, apply_op, cf_address_balance}
use organic_blockbook.Db.Connect.Outputs.{Env, get_addr_desc_balance}
use organic_blockbook.Db.Blocks.{balance_op, store_balances}

module _ (vlq : Vlq) where
  -- What the column holds of a balance: nothing, if it has no transactions.
  unfoldable pub stored_balance : AddrBalance → Option Bytes
  stored_balance ab = if ab.txs == 0 then none else some (pack_addr_balance vlq ab)

  unfoldable pub stored_or : Option AddrBalance → Option Bytes → Option Bytes
  unfolding stored_balance
  stored_or none old = old
  stored_or (some ab) old = stored_balance ab

  balance_op_lem :
      (s : Store) (desc : Bytes) (ab : AddrBalance) (k : Bytes)
      → get_cf (apply_op s (balance_op vlq desc ab)) cf_address_balance k
        ≡ (if bytes_eq desc k then stored_balance ab else get_cf s cf_address_balance k)
  unfolding balance_op apply_op get_cf stored_balance
  balance_op_lem s desc ab k = ground (
    arith,
    lookup-insert desc k (pack_addr_balance vlq ab) s.address_balances,
    lookup-delete desc k s.address_balances,
  )

  -- After the balances of a block are written the column holds, for each address in the map, its
  -- balance or nothing if it has no transactions, and for every other address what it held before.
  -- No address is twice in the map.
  pub write-store_balances :
      (m : Map AddrBalance) (s : Store) (k : Bytes)
      → IsMap m
      → get_cf (write s (store_balances vlq m)) cf_address_balance k
        ≡ stored_or (lookup k m) (get_cf s cf_address_balance k)
  unfolding store_balances write lookup stored_or
  write-store_balances [] s k h = refl
  write-store_balances ((desc, ab) ∷ m) s k (fresh, h) =
      write-store_balances m (apply_op s (balance_op vlq desc ab)) k h
      ∙ elim (Bool-cases (bytes_eq desc k)) [
        | inl same ↦ rw (
          ← (bytes_eq_iff desc k).0 same,
          fresh,
          balance_op_lem s desc ab desc,
          bytes_eq_refl desc,
        )
        | inr other ↦ rw (balance_op_lem s desc ab k, other)
      ]

length-pack_addr_balance :
    (vlq : Vlq) → VlqLaws vlq → (ab : AddrBalance) → 3 ≤ length (pack_addr_balance vlq ab)
unfolding pack_addr_balance
length-pack_addr_balance vlq laws ab =
    let sums : Bytes =
      pack_bigint ab.sent_sat ++ (pack_bigint ab.balance_sat ++ pack_utxos vlq ab.utxos) in
    omega (
      arith,
      length-append (vlq.put_uint ab.txs) sums,
      length-append (pack_bigint ab.sent_sat)
          (pack_bigint ab.balance_sat ++ pack_utxos vlq ab.utxos),
      length-append (pack_bigint ab.balance_sat) (pack_utxos vlq ab.utxos),
      laws.length-put_uint ab.txs,
      pack_bigint_pos ab.sent_sat,
      pack_bigint_pos ab.balance_sat,
    )

-- GetAddrDescBalance, on the database after the balances of a block are written, returns the balance
-- that the map has for the address, with its unspent outputs, if it has a transaction and keeps the
-- bounds of a stored balance, and no address is twice in the map.
pub get_addr_desc_balance-store_balances :
    (env : Env)
    → VlqLaws env.vlq
    → (m : Map AddrBalance) (desc : Bytes) (ab : AddrBalance) → IsMap m
    → lookup desc m ≡ some ab
    → ab.txs ≢ 0
    → IsStorable env.parser.packed_txid_len ab
    → get_addr_desc_balance
        (record env { store = write env.store (store_balances env.vlq m) })
        desc
        utxo
      ≡ ok (some (record ab { utxos = unspent ab.utxos; utxos_map = [] }))
get_addr_desc_balance-store_balances env laws m desc ab distinct found some_txs h =
    unfold get_addr_desc_balance in
    rw
      (stored_data, long, (unpack-pack_addr_balance env.vlq laws env.parser.packed_txid_len ab h).0)
  where
    kept : stored_balance env.vlq ab ≡ some (pack_addr_balance env.vlq ab)
    kept = unfold stored_balance in ground arith

    stored_data :
        get_cf (write env.store (store_balances env.vlq m)) cf_address_balance desc
        ≡ some (pack_addr_balance env.vlq ab)
    stored_data =
        write-store_balances env.vlq m env.store desc distinct
        ∙ ap (λ o. stored_or env.vlq o (get_cf env.store cf_address_balance desc)) found
        ∙ (unfold stored_or in kept)

    long : ltb (length (pack_addr_balance env.vlq ab)) 3 ≡ false
    long = ground (arith, length-pack_addr_balance env.vlq laws ab)
