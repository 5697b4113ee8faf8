-- ===== src/Db/Connect/Inputs.antt =====
-- The second loop of processAddressesBitcoinType: the inputs of a block, and its shielded parts.
use organic_blockbook.Prelude.{
  ℕ, suc, Bool, true, ◌==◌, if◌then◌else◌, List, [], ◌∷◌, Option, none, some, length, get_elem?,
  set,
}
use organic_blockbook.Prelude.Int.{ℤ, pos, negsuc, ◌+ℤ◌, ◌-ℤ◌, ltb_ℤ}
use organic_blockbook.Prelude.Bytes.{Bytes}
use organic_blockbook.Prelude.Maps.{lookup, insert}
use organic_blockbook.Prelude.Options.{Result, ok, err}
use organic_blockbook.Bchain.Types.{Vin, Tx, Block, PackedTxid, packed, txid_missing}
use organic_blockbook.Db.Codec.{TxInput, TxOutput, TxAddresses, uint32}
use organic_blockbook.Db.BalanceColumn.{int32}
use organic_blockbook.Db.Balance.{AddrBalance, mark_utxo_as_spent}
use organic_blockbook.Db.Connect.Addresses.{add_to_addresses_map}
use organic_blockbook.Db.Connect.Outputs.{
  DbError, bad_txid, Env, Work, ◌>>=◌, with_owner, get_tx_addresses, balance_for, count_tx,
  connect_txs_outputs, packed_or_error,
}

-- `^int32(i)`
abbrev pub input_index : ℕ → ℤ
input_index i = negsuc i

-- resetValueSatToZero, where the value is negative.
unfoldable pub reset_negative : ℤ → ℤ
reset_negative z = if ltb_ℤ z (pos 0) then pos 0 else z

-- What an input takes from a balance.
unfoldable pub debit : AddrBalance → Bytes → ℤ → ℤ → Bool → AddrBalance
unfolding count_tx mark_utxo_as_spent reset_negative
debit ab btx_id vout value counted =
    let b = count_tx counted ab in
    let marked =
      mark_utxo_as_spent (record b { balance_sat = b.balance_sat -ℤ value }) btx_id vout in
    record marked {
      balance_sat = reset_negative marked.balance_sat;
      sent_sat = marked.sent_sat +ℤ value;
    }

-- The output that an input spends, and the transaction and the input that spend it.
pub record Spending : Type 0 where
  pub btx_id : Bytes
  pub vout : ℕ
  pub spending_txid : Bytes
  pub input : ℕ
  pub value_sat : ℤ

unfoldable pub debit_balance : Work → Bytes → Spending → AddrBalance → Work
unfolding debit add_to_addresses_map
debit_balance w desc sp ab =
    let (addresses, counted) =
      add_to_addresses_map w.addresses desc sp.spending_txid (input_index sp.input) in
    record w {
      addresses = addresses;
      balances = insert desc (debit ab sp.btx_id (int32 sp.vout) sp.value_sat counted) w.balances;
    }

abbrev empty_input : TxInput
empty_input = record { addr_desc = []; value_sat = pos 0 }

module _ (env : Env) where
  open env use {parser}

  unfoldable pub connect_input_desc : Spending → Bytes → Work → Result DbError Work
  unfolding balance_for debit_balance
  connect_input_desc sp desc w =
      if parser.is_addr_desc_indexable desc
      then (do ab ← balance_for env w desc; ok (debit_balance w desc sp ab))
      else ok w

  unfoldable pub connect_input_descs : Spending → List Bytes → Work → Result DbError Work
  unfolding connect_input_desc
  connect_input_descs sp [] w = ok w
  connect_input_descs sp (desc ∷ descs) w = do
    w' ← connect_input_desc sp desc w
    connect_input_descs sp descs w'

  -- An input whose transaction is not in the index.
  unfoldable pub unknown_input : Tx → ℕ → TxInput
  unknown_input tx i = record {
    addr_desc = parser.get_addr_desc_for_unknown_input tx i;
    value_sat = parser.get_value_sat_for_unknown_input tx i;
  }

  -- `spentOutput.Spent = true`
  unfoldable pub spend_output : Work → Bytes → TxAddresses → ℕ → TxOutput → Work
  spend_output w btx_id ita n o = record w {
    tx_addresses =
        insert btx_id (record ita { outputs = set ita.outputs n (record o { spent = true }) })
          w.tx_addresses;
  }

  -- The output at the input's number, if it is within bounds; an output with no descriptor is spent
  -- and not accounted.
  unfoldable pub connect_known_input :
      Bytes → Bytes → ℕ → ℕ → TxAddresses → Option TxOutput → Work → Result DbError (TxInput × Work)
  unfolding connect_input_descs spend_output with_owner
  connect_known_input spending_txid btx_id i n ita none w = ok (empty_input, w)
  connect_known_input spending_txid btx_id i n ita (some o) w =
      let w' = spend_output w btx_id ita n o in
      let tai : TxInput = record { addr_desc = o.addr_desc; value_sat = o.value_sat } in
      if length o.addr_desc == 0 then ok (tai, w') else (do
        w'' ←
            connect_input_descs
              (record {
                btx_id = btx_id;
                vout = n;
                spending_txid = spending_txid;
                input = i;
                value_sat = o.value_sat;
              })
              (with_owner env o.addr_desc) w'
        ok (tai, w''))

  -- The transaction in the map, or else the one in the database, which the map then has.
  unfoldable pub find_tx_addresses :
      Option TxAddresses → Bytes → Work → Result DbError (Option TxAddresses × Work)
  unfolding get_tx_addresses
  find_tx_addresses (some ita) btx_id w = ok (some ita, w)
  find_tx_addresses none btx_id w = do
    found ← get_tx_addresses env btx_id
    elim found [
      | none ↦ ok (none, w)
      | some ita ↦ ok (some ita, record w { tx_addresses = insert btx_id ita w.tx_addresses })
    ]

  unfoldable pub connect_found_input :
      Tx → Bytes → Bytes → ℕ → ℕ → Option TxAddresses → Work → Result DbError (TxInput × Work)
  unfolding connect_known_input unknown_input
  connect_found_input tx spending_txid btx_id i n none w = ok (unknown_input tx i, w)
  connect_found_input tx spending_txid btx_id i n (some ita) w =
      connect_known_input spending_txid btx_id i n ita (get_elem? ita.outputs n) w

  unfoldable pub connect_packed_input :
      Tx → Bytes → ℕ → ℕ → PackedTxid → Work → Result DbError (TxInput × Work)
  unfolding find_tx_addresses connect_found_input
  connect_packed_input tx spending_txid i n txid_missing w = ok (empty_input, w)
  connect_packed_input tx spending_txid i n (packed btx_id) w = do
    (ita, w') ← find_tx_addresses (lookup btx_id w.tx_addresses) btx_id w
    connect_found_input tx spending_txid btx_id i n ita w'
  connect_packed_input tx spending_txid i n PackedTxid.bad_txid w = err bad_txid

  unfoldable pub connect_input : Tx → Bytes → ℕ → Vin → Work → Result DbError (TxInput × Work)
  unfolding connect_packed_input
  connect_input tx spending_txid i input w =
      connect_packed_input tx spending_txid i input.vout (parser.pack_txid input.txid) w

  unfoldable pub connect_inputs :
      Tx → Bytes → ℕ → List Vin → Work → Result DbError (List TxInput × Work)
  unfolding connect_input
  connect_inputs tx spending_txid i [] w = ok ([], w)
  connect_inputs tx spending_txid i (input ∷ inputs) w = do
    (tai, w') ← connect_input tx spending_txid i input w
    (tais, w'') ← connect_inputs tx spending_txid (suc i) inputs w'
    ok (tai ∷ tais, w'')

  -- The inputs and the shielded parts of a transaction that the outputs' loop put into the map. Both
  -- numbers are taken of the shielded inputs, as the source has it.
  unfoldable pub finish_tx : Tx → List TxInput → Bytes → Option TxAddresses → Work → Work
  finish_tx tx tais txid none w = w
  finish_tx tx tais txid (some ta) w = record w {
    tx_addresses =
        insert txid
          (record ta {
            inputs = tais;
            shield_ins = uint32 (length tx.v_shield_in);
            shield_outs = uint32 (length tx.v_shield_in);
            shield_val_bal = tx.shield_val_bal;
          })
          w.tx_addresses;
  }

  unfoldable pub connect_tx_inputs : Tx → Work → Result DbError Work
  unfolding connect_inputs finish_tx packed_or_error
  connect_tx_inputs tx w = do
    spending_txid ← packed_or_error env (parser.pack_txid tx.txid)
    (tais, w') ← connect_inputs tx spending_txid 0 tx.vin w
    ok (finish_tx tx tais spending_txid (lookup spending_txid w'.tx_addresses) w')

  unfoldable pub connect_txs_inputs : List Tx → Work → Result DbError Work
  unfolding connect_tx_inputs
  connect_txs_inputs [] w = ok w
  connect_txs_inputs (tx ∷ txs) w = do w' ← connect_tx_inputs tx w; connect_txs_inputs txs w'

  -- processAddressesBitcoinType; in bulk mode the maps hold what earlier blocks left in them.
  unfoldable pub process_addresses : Block → Work → Result DbError Work
  unfolding connect_txs_outputs connect_txs_inputs
  process_addresses block w = do
    w' ← connect_txs_outputs env block.height block.txs w
    connect_txs_inputs block.txs w'
