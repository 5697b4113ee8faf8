-- ===== src/Db/Blocks/Disconnect.antt =====
-- db/rocksdb.go: disconnectTxAddresses, DisconnectBlockRangeBitcoinType and storeBalancesDisconnect.
pub mod Totals
use organic_blockbook.Prelude.{
  ℕ, zero, suc, ◌+◌, ◌-◌, ◌%◌, ◌^◌, Bool, true, false, leb, ltb, ◌==◌, if◌then◌else◌, List, [], ◌∷◌,
  ◌++◌, Option, none, some, length, get_elem?, set, reverse,
}
use organic_blockbook.Prelude.Int.{ℤ, pos, negsuc, ◌+ℤ◌, ◌-ℤ◌}
use organic_blockbook.Prelude.Bytes.{Bytes, bytes_eq}
use organic_blockbook.Prelude.Maps.{Map, lookup, insert}
use organic_blockbook.Prelude.Options.{Result, ok, err}
use organic_blockbook.Db.Keys.{pack_uint, pack_address_key}
use organic_blockbook.Db.Codec.{TxInput, TxOutput, TxAddresses}
use organic_blockbook.Db.Balance.{Utxo, AddrBalance, mark_utxo_as_spent}
use organic_blockbook.Db.BalanceColumn.{utxo_indexed, is_unspent}
use organic_blockbook.Db.BalanceColumn.RoundTrip.{unspent}
use organic_blockbook.Db.BlockTxs.{Outpoint, BlockTxs, unpack_block_txs}
use organic_blockbook.Db.Store.{
  Store, WriteBatch, BatchOp, delete_cf, get_cf, write, cf_height, cf_addresses, cf_block_txs,
  cf_transactions, cf_address_balance, cf_tx_addresses,
}
use organic_blockbook.Db.Connect.Outputs.{
  DbError, inconsistent_data, cannot_disconnect, panic, Env, with_owner, get_addr_desc_balance,
  get_tx_addresses, data_of,
}
use organic_blockbook.Db.Connect.Inputs.{reset_negative}
use organic_blockbook.Db.Blocks.{◌>>=◌, as_db_error, store_tx_addresses, balance_op}

pub record Undo : Type 0 where
  pub batch : WriteBatch
  pub tx_addresses : Map TxAddresses
  pub balances : Map (Option AddrBalance)

-- `subtract number of txs only once`, on a uint32
unfoldable pub uncount_tx : Bool → AddrBalance → AddrBalance
uncount_tx exist ab = if exist then ab else record ab { txs = (ab.txs + 2 ^ 32 - 1) % 2 ^ 32 }

-- What a disconnected input gives back to a balance.
unfoldable pub undo_debit : AddrBalance → Utxo → Bool → AddrBalance
unfolding uncount_tx reset_negative
undo_debit ab u exist =
    let b = uncount_tx exist ab in
    record b {
      sent_sat = reset_negative (b.sent_sat -ℤ u.value_sat);
      balance_sat = b.balance_sat +ℤ u.value_sat;
      utxos = b.utxos ++ u ∷ [];
    }

-- What a disconnected output takes from a balance.
unfoldable pub undo_credit : AddrBalance → Bytes → ℤ → ℤ → Bool → AddrBalance
unfolding uncount_tx reset_negative mark_utxo_as_spent
undo_credit ab btx_id vout value exist =
    let b = uncount_tx exist ab in
    mark_utxo_as_spent (record b { balance_sat = reset_negative (b.balance_sat -ℤ value) }) btx_id
      vout

-- The set of the addresses of a transaction.
unfoldable pub contains : Bytes → List Bytes → Bool
contains k [] = false
contains k (j ∷ js) = if bytes_eq j k then true else contains k js

unfoldable pub add_address : Bytes → List Bytes → List Bytes
unfolding contains
add_address k js = if contains k js then js else k ∷ js

-- `sa.Outputs[input.index].Spent = false`, which panics out of range.
unfoldable pub respend : TxAddresses → ℤ → Result DbError TxAddresses
respend sa (negsuc n) = err panic
respend sa (pos n) = elim (get_elem? sa.outputs n) [
  | none ↦ err panic
  | some o ↦ ok (record sa { outputs = set sa.outputs n (record o { spent = false }) })
]

-- The transaction that an input spent, with the output no longer spent, and its height.
unfoldable pub unspend : Option TxAddresses → Outpoint → Undo → Result DbError (ℕ × Undo)
unfolding respend
unspend none input w = ok (0, w)
unspend (some sa) input w = do
  sa' ← respend sa input.index
  ok (sa'.height, record w { tx_addresses = insert input.btx_id sa' w.tx_addresses })

module _ (env : Env) where
  open env use {parser, vlq, store}

  -- The closure getAddressBalance; a missing balance is kept as `nil`.
  unfoldable pub address_balance :
      Option (Option AddrBalance) → Bytes → Undo → Result DbError (Option AddrBalance × Undo)
  address_balance (some b) desc w = ok (b, w)
  address_balance none desc w = do
    b ← get_addr_desc_balance env desc utxo_indexed
    ok (b, record w { balances = insert desc b w.balances })

  -- A change of the balance of an indexable address; a missing balance is only logged.
  unfoldable pub change_balance : (AddrBalance → AddrBalance) → Bytes → Undo → Result DbError Undo
  unfolding address_balance
  change_balance change desc w =
      if parser.is_addr_desc_indexable desc
      then (do
        (b, w') ← address_balance (lookup desc w.balances) desc w
        ok (elim b [
          | none ↦ w'
          | some ab ↦ record w' { balances = insert desc (some (change ab)) w'.balances }
        ]))
      else ok w

  unfoldable pub spent_tx : Option TxAddresses → Bytes → Result DbError (Option TxAddresses)
  unfolding get_tx_addresses
  spent_tx (some sa) btx_id = ok (some sa)
  spent_tx none btx_id = get_tx_addresses env btx_id

  -- One address of an input.
  unfoldable pub disconnect_input_desc :
      Option Outpoint → ℤ → Bytes → List Bytes → Undo → Result DbError (List Bytes × Undo)
  unfolding spent_tx unspend change_balance undo_debit add_address
  disconnect_input_desc none value ad addresses w =
      if length ad == 0 then ok (addresses, w) else err panic
  disconnect_input_desc (some input) value ad addresses w =
      if length ad == 0 then ok (addresses, w) else (do
        sa ← spent_tx (lookup input.btx_id w.tx_addresses) input.btx_id
        (input_height, w') ← unspend sa input w
        w'' ←
            change_balance
              (λ ab.
                undo_debit ab
                  (record {
                    btx_id = input.btx_id;
                    vout = input.index;
                    height = input_height;
                    value_sat = value;
                  })
                  (contains ad addresses))
              ad w'
        ok (add_address ad addresses, w''))

  unfoldable pub disconnect_input_descs :
      Option Outpoint → ℤ → List Bytes → List Bytes → Undo → Result DbError (List Bytes × Undo)
  unfolding disconnect_input_desc
  disconnect_input_descs input value [] addresses w = ok (addresses, w)
  disconnect_input_descs input value (ad ∷ ads) addresses w = do
    (addresses', w') ← disconnect_input_desc input value ad addresses w
    disconnect_input_descs input value ads addresses' w'

  unfoldable pub disconnect_inputs :
      ℕ → List TxInput → List Outpoint → List Bytes → Undo → Result DbError (List Bytes × Undo)
  unfolding disconnect_input_descs
  disconnect_inputs i [] inputs addresses w = ok (addresses, w)
  disconnect_inputs i (t ∷ ts) inputs addresses w = do
    (addresses', w') ←
        disconnect_input_descs (get_elem? inputs i) t.value_sat (with_owner env t.addr_desc)
          addresses w
    disconnect_inputs (suc i) ts inputs addresses' w'

  unfoldable pub disconnect_output_descs :
      Bytes → ℕ → ℤ → List Bytes → List Bytes → Undo → Result DbError (List Bytes × Undo)
  unfolding change_balance undo_credit add_address
  disconnect_output_descs btx_id i value [] addresses w = ok (addresses, w)
  disconnect_output_descs btx_id i value (ad ∷ ads) addresses w =
      if length ad == 0 then disconnect_output_descs btx_id i value ads addresses w else (do
        w' ← change_balance (λ ab. undo_credit ab btx_id (pos i) value (contains ad addresses)) ad w
        disconnect_output_descs btx_id i value ads (add_address ad addresses) w')

  unfoldable pub disconnect_outputs :
      Bytes → ℕ → List TxOutput → List Bytes → Undo → Result DbError (List Bytes × Undo)
  unfolding disconnect_output_descs
  disconnect_outputs btx_id i [] addresses w = ok (addresses, w)
  disconnect_outputs btx_id i (t ∷ ts) addresses w = do
    (addresses', w') ←
        disconnect_output_descs btx_id i t.value_sat (with_owner env t.addr_desc) addresses w
    disconnect_outputs btx_id (suc i) ts addresses' w'

  unfoldable pub delete_addresses : ℕ → List Bytes → WriteBatch
  delete_addresses height [] = []
  delete_addresses height (a ∷ as_) =
      delete_cf cf_addresses (pack_address_key a height) ∷ delete_addresses height as_

  unfoldable pub disconnect_tx_addresses :
      ℕ → Bytes → List Outpoint → TxAddresses → Undo → Result DbError Undo
  unfolding disconnect_inputs disconnect_outputs delete_addresses
  disconnect_tx_addresses height btx_id inputs txa w = do
    (addresses, w') ← disconnect_inputs 0 txa.inputs inputs [] w
    (addresses', w'') ← disconnect_outputs btx_id 0 txa.outputs addresses w'
    ok (record w'' { batch = w''.batch ++ delete_addresses height addresses' })
