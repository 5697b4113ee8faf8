-- ===== src/Db/BalanceColumn.antt =====
-- db/rocksdb.go: the packed form of an AddrBalance in the column addressBalance.
pub mod RoundTrip
use organic_blockbook.Prelude.{
  ℕ, zero, suc, ◌+◌, ◌-◌, ◌%◌, ◌^◌, List, [], ◌∷◌, ◌++◌, Option, none, some, Bool, true, false, leb,
  ltb, if◌then◌else◌, length,
}
use organic_blockbook.Prelude.Int.{ℤ, pos, negsuc}
use organic_blockbook.Prelude.Bytes.{Bytes}
use organic_blockbook.Prelude.Options.{◌>>=◌}
use organic_blockbook.Db.Bigint.{pack_bigint}
use organic_blockbook.Db.Vlq.{Vlq}
use organic_blockbook.Db.Codec.{uint32, Reader, read_bytes, read_bigint, read_varuint}
use organic_blockbook.Db.Balance.{Utxo, AddrBalance, add_utxo}

pub data AddressBalanceDetail : Type 0 where
  no_utxo utxo utxo_indexed : AddressBalanceDetail

-- `int32(v)` of an unsigned number
abbrev pub int32 : ℕ → ℤ
int32 n = if ltb (n % 2 ^ 32) (2 ^ 31) then pos (n % 2 ^ 32) else negsuc (2 ^ 32 - n % 2 ^ 32 - 1)

-- `utxo.Vout >= 0`: the output is not marked as spent.
unfoldable pub is_unspent : ℤ → Bool
is_unspent (pos n) = true
is_unspent (negsuc n) = false

abbrev pub vout_number : ℤ → ℕ
vout_number (pos n) = n
vout_number (negsuc n) = 0

module _ (vlq : Vlq) where
  open vlq use {put_uint}

  unfoldable pub pack_utxo : Utxo → Bytes
  pack_utxo u =
      u.btx_id ++ (put_uint (vout_number u.vout) ++ (put_uint u.height ++ pack_bigint u.value_sat))

  -- The loop over the outputs.
  unfoldable pub pack_utxos : List Utxo → Bytes
  unfolding pack_utxo is_unspent
  pack_utxos [] = []
  pack_utxos (u ∷ us) = if is_unspent u.vout then pack_utxo u ++ pack_utxos us else pack_utxos us

  unfoldable pub pack_addr_balance : AddrBalance → Bytes
  unfolding pack_utxos
  pack_addr_balance ab =
      put_uint ab.txs
      ++ (pack_bigint ab.sent_sat ++ (pack_bigint ab.balance_sat ++ pack_utxos ab.utxos))

  unfoldable pub unpack_utxo : ℕ → Reader Utxo
  unpack_utxo txid_len buf = do
    (btx_id, buf) ← read_bytes txid_len buf
    (vout, buf) ← read_varuint vlq buf
    (height, buf) ← read_varuint vlq buf
    (value, buf) ← read_bigint buf
    some (
      record { btx_id = btx_id; vout = int32 vout; height = uint32 height; value_sat = value },
      buf,
    )

-- The two ways to take in an output that was read.
unfoldable pub take_in : AddressBalanceDetail → AddrBalance → Utxo → AddrBalance
unfolding add_utxo
take_in utxo_indexed ab u = add_utxo ab u
take_in _ ab u = record ab { utxos = ab.utxos ++ u ∷ [] }

module _ (vlq : Vlq) where
  -- The loop over the outputs, on fuel. Each round reads at least the transaction id.
  unfoldable pub unpack_utxos :
      ℕ → ℕ → AddressBalanceDetail → Bytes → AddrBalance → Option AddrBalance
  unfolding take_in
  unpack_utxos zero txid_len detail buf ab =
      if leb (txid_len + 3) (length buf) then none else some ab
  unpack_utxos (suc fuel) txid_len detail buf ab =
      if leb (txid_len + 3) (length buf)
      then (do
        (u, rest) ← unpack_utxo vlq txid_len buf
        unpack_utxos fuel txid_len detail rest (take_in detail ab u))
      else some ab

  -- `if detail != AddressBalanceDetailNoUTXO`
  unfoldable pub unpack_detail : ℕ → AddressBalanceDetail → Bytes → AddrBalance → Option AddrBalance
  unfolding unpack_utxos
  unpack_detail txid_len no_utxo buf ab = some ab
  unpack_detail txid_len utxo buf ab = unpack_utxos (length buf) txid_len utxo buf ab
  unpack_detail txid_len utxo_indexed buf ab =
      unpack_utxos (length buf) txid_len utxo_indexed buf ab

  unfoldable pub unpack_addr_balance : Bytes → ℕ → AddressBalanceDetail → Option AddrBalance
  unfolding unpack_detail
  unpack_addr_balance buf txid_len detail = do
    (txs, buf) ← read_varuint vlq buf
    (sent, buf) ← read_bigint buf
    (balance, buf) ← read_bigint buf
    unpack_detail txid_len detail buf (record {
      txs = uint32 txs;
      sent_sat = sent;
      balance_sat = balance;
      utxos = [];
      utxos_map = [];
    })
