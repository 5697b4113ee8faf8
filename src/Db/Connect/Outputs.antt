-- ===== src/Db/Connect/Outputs.antt =====
-- The first loop of processAddressesBitcoinType: all outputs of a block, so that inputs can refer to
-- transactions of the same block.
use organic_blockbook.Prelude.{
  ℕ, suc, ◌+◌, Bool, false, ◌&&◌, ◌||◌, ltb, ◌==◌, if◌then◌else◌, List, [], ◌∷◌, Option, none, some,
  length, get_elem?, take, drop,
}
use organic_blockbook.Prelude.Int.{pos, ◌+ℤ◌}
use organic_blockbook.Prelude.Bytes.{Bytes}
use organic_blockbook.Prelude.Maps.{Map, lookup, insert}
use organic_blockbook.Prelude.Options.{Result, ok, err}
use organic_blockbook.Bchain.Types.{Vout, Tx, ChainParser, PackedTxid, packed}
use organic_blockbook.Db.Vlq.{Vlq}
use organic_blockbook.Db.Store.{Store, get_cf, cf_address_balance, cf_tx_addresses}
use organic_blockbook.Db.Codec.{TxOutput, TxAddresses, uint32, unpack_tx_addresses}
use organic_blockbook.Db.Balance.{Utxo, AddrBalance, empty_balance, has_utxo, add_utxo}
use organic_blockbook.Db.BalanceColumn.{unpack_addr_balance, utxo_indexed, AddressBalanceDetail}
use organic_blockbook.Db.Connect.Addresses.{AddressesMap, add_to_addresses_map}

-- `panic` is a run-time panic, as on column data that cannot be unpacked; `write_failed` is an error of
-- RocksDB when it writes.
pub data DbError : Type 0 where
  bad_txid bad_hash inconsistent_data cannot_disconnect panic write_failed : DbError

-- What the pass calls and reads: the parser, the integer codec, the script builder of
-- github.com/martinboehm/btcutil/txscript (for the script that pays to a public key hash), and the
-- database, which does not change during the pass.
pub record Env : Type 0 where
  pub parser : ChainParser
  pub vlq : Vlq
  pub pay_to_pub_key_hash : Bytes → Option Bytes
  pub store : Store

pub record Work : Type 0 where
  pub addresses : AddressesMap
  pub tx_addresses : Map TxAddresses
  pub balances : Map AddrBalance

abbrev pub empty_work : Work
empty_work = record { addresses = []; tx_addresses = []; balances = [] }

abbrev pub max_addr_desc_len : ℕ
max_addr_desc_len = 1024

infixl 5 ◌>>=◌
abbrev pub ◌>>=◌ {ℓ κ} :
    {A : Type ℓ} {B : Type κ} → Result DbError A → (A → Result DbError B) → Result DbError B
ok a >>= f = f a
err e >>= f = err e

-- OP_CHECKCOLDSTAKEVERIFY and OP_CHECKCOLDSTAKEVERIFY_LOF
unfoldable pub is_cold_stake_op : Option ℕ → Bool
is_cold_stake_op none = false
is_cold_stake_op (some op) = op == 0xd2 || op == 0xd1

unfoldable pub is_pay_to_cold_stake : Bytes → Bool
unfolding is_cold_stake_op
is_pay_to_cold_stake script = ltb 50 (length script) && is_cold_stake_op (get_elem? script 4)

-- A column's data, empty if the key is missing.
abbrev pub data_of : Option Bytes → Bytes
data_of none = []
data_of (some b) = b

-- A balance as it is unpacked; `none` was a panic.
abbrev pub or_panic {ℓ} : {A : Type ℓ} → Option A → Result DbError (Option A)
or_panic none = err panic
or_panic (some a) = ok (some a)

-- `if balance == nil { balance = &AddrBalance{} }`
unfoldable pub or_empty : Option AddrBalance → AddrBalance
or_empty none = empty_balance
or_empty (some b) = b

module _ (env : Env) where
  -- `copy` fills the 20 bytes from position 28 on.
  unfoldable pub get_owner_from_p2cs : Bytes → Option Bytes
  get_owner_from_p2cs script = env.pay_to_pub_key_hash (take 20 (drop 28 script))

  -- The descriptor, with that of the owner behind it if it is a cold-staking script.
  unfoldable pub with_owner : Bytes → List Bytes
  unfolding is_pay_to_cold_stake get_owner_from_p2cs
  with_owner desc =
      if is_pay_to_cold_stake desc
      then (elim (get_owner_from_p2cs desc) [ none ↦ desc ∷ [] | some owner ↦ desc ∷ owner ∷ [] ])
      else desc ∷ []

  -- GetAddrDescBalance: `none` if there are less than 3 bytes.
  unfoldable pub get_addr_desc_balance :
      Bytes → AddressBalanceDetail → Result DbError (Option AddrBalance)
  unfolding unpack_addr_balance
  get_addr_desc_balance desc detail =
      let buf = data_of (get_cf env.store cf_address_balance desc) in
      if ltb (length buf) 3
      then ok none
      else or_panic (unpack_addr_balance env.vlq buf env.parser.packed_txid_len detail)

  -- getTxAddresses
  unfoldable pub get_tx_addresses : Bytes → Result DbError (Option TxAddresses)
  unfolding unpack_tx_addresses
  get_tx_addresses btx_id =
      let buf = data_of (get_cf env.store cf_tx_addresses btx_id) in
      if ltb (length buf) 3 then ok none else or_panic (unpack_tx_addresses env.vlq buf)

  unfoldable pub load_balance : Option AddrBalance → Bytes → Result DbError AddrBalance
  unfolding get_addr_desc_balance or_empty
  load_balance (some b) desc = ok b
  load_balance none desc = do b ← get_addr_desc_balance desc utxo_indexed; ok (or_empty b)

  -- The balance in the map, or else the one in the database, or else a new one.
  unfoldable pub balance_for : Work → Bytes → Result DbError AddrBalance
  unfolding load_balance
  balance_for w desc = load_balance (lookup desc w.balances) desc

-- `if !counted { balance.Txs++ }`
unfoldable pub count_tx : Bool → AddrBalance → AddrBalance
count_tx counted ab = if counted then ab else record ab { txs = uint32 (ab.txs + 1) }

-- What an output adds to a balance.
unfoldable pub credit : AddrBalance → Utxo → Bool → AddrBalance
unfolding add_utxo count_tx
credit ab u counted =
    count_tx counted (add_utxo (record ab { balance_sat = ab.balance_sat +ℤ u.value_sat }) u)

-- What the pass does once the balance is at hand: nothing if the output is known already.
unfoldable pub credit_unless_known : Work → Bytes → Utxo → AddrBalance → Work
unfolding credit has_utxo add_to_addresses_map
credit_unless_known w desc u ab =
    if has_utxo ab u.btx_id u.vout
    then record w { balances = insert desc ab w.balances }
    else (let (addresses, counted) = add_to_addresses_map w.addresses desc u.btx_id u.vout in
        record w { addresses = addresses; balances = insert desc (credit ab u counted) w.balances })

-- `err != nil || len(addrDesc) == 0 || len(addrDesc) > maxAddrDescLen`, the other way round.
unfoldable pub usable_desc : Option Bytes → Option Bytes
usable_desc none = none
usable_desc (some desc) =
    if length desc == 0 || ltb max_addr_desc_len (length desc) then none else some desc

module _ (env : Env) where
  open env use {parser}

  unfoldable pub connect_output_desc : Utxo → Bytes → Work → Result DbError Work
  unfolding balance_for credit_unless_known
  connect_output_desc u desc w =
      if parser.is_addr_desc_indexable desc
      then (do ab ← balance_for env w desc; ok (credit_unless_known w desc u ab))
      else ok w

  unfoldable pub connect_output_descs : Utxo → List Bytes → Work → Result DbError Work
  unfolding connect_output_desc
  connect_output_descs u [] w = ok w
  connect_output_descs u (desc ∷ descs) w = do
    w' ← connect_output_desc u desc w
    connect_output_descs u descs w'

  -- One output: its entry in TxAddresses, with no descriptor if it has none that is usable.
  unfoldable pub connect_output : ℕ → Bytes → ℕ → Vout → Work → Result DbError (TxOutput × Work)
  unfolding connect_output_descs with_owner usable_desc
  connect_output height btx_id i output w =
      elim (usable_desc (parser.get_addr_desc_from_vout output)) [
        | none ↦ ok (record { addr_desc = []; spent = false; value_sat = output.value_sat }, w)
        | some desc ↦ (do
          w' ←
              connect_output_descs
                (record {
                  btx_id = btx_id;
                  vout = pos i;
                  height = height;
                  value_sat = output.value_sat;
                })
                (with_owner env desc) w
          ok (record { addr_desc = desc; spent = false; value_sat = output.value_sat }, w'))
      ]

  unfoldable pub connect_outputs :
      ℕ → Bytes → ℕ → List Vout → Work → Result DbError (List TxOutput × Work)
  unfolding connect_output
  connect_outputs height btx_id i [] w = ok ([], w)
  connect_outputs height btx_id i (output ∷ outputs) w = do
    (o, w') ← connect_output height btx_id i output w
    (os, w'') ← connect_outputs height btx_id (suc i) outputs w'
    ok (o ∷ os, w'')

  unfoldable pub packed_or_error : PackedTxid → Result DbError Bytes
  packed_or_error (packed b) = ok b
  packed_or_error _ = err bad_txid

  -- One transaction: the entry in the map has the outputs and no inputs yet.
  unfoldable pub connect_tx_outputs : ℕ → Tx → Work → Result DbError Work
  unfolding connect_outputs packed_or_error
  connect_tx_outputs height tx w = do
    btx_id ← packed_or_error (parser.pack_txid tx.txid)
    (outputs, w') ← connect_outputs height btx_id 0 tx.vout w
    ok (record w' {
      tx_addresses =
          insert btx_id
            (record {
              height = height;
              inputs = [];
              outputs = outputs;
              shield_ins = 0;
              shield_outs = 0;
              shield_val_bal = pos 0;
            })
            w'.tx_addresses;
    })

  unfoldable pub connect_txs_outputs : ℕ → List Tx → Work → Result DbError Work
  unfolding connect_tx_outputs
  connect_txs_outputs height [] w = ok w
  connect_txs_outputs height (tx ∷ txs) w = do
    w' ← connect_tx_outputs height tx w
    connect_txs_outputs height txs w'
