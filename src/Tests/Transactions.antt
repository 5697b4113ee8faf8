-- ===== src/Tests/Transactions.antt =====
-- The theorems on the cache of transactions at a transaction with one input and one output.
use organic_blockbook.Prelude.{
  ◌+◌, ◌-◌, ◌*◌, ◌%◌, ◌^◌, ◌≤◌, ◌≡◌, refl, ap, arith, true, [], ◌∷◌, some, length,
}
use organic_blockbook.Prelude.Int.{pos, negsuc}
use organic_blockbook.Prelude.Bytes.{Bytes}
use organic_blockbook.Prelude.Options.{ok}
use organic_blockbook.Bchain.Types.{Tx}
use organic_blockbook.Bchain.Hex.{hex_encode}
use organic_blockbook.Bchain.BaseParser.{pack_tx, unpack_tx}
use organic_blockbook.Bchain.BaseParser.RoundTrip.{IsPackable, restored, unpack-pack_tx}
use organic_blockbook.Db.Store.{Store}
use organic_blockbook.Db.Connect.Outputs.{get_tx_addresses}
use organic_blockbook.Db.TxCache.{TxNode, get_tx, confirmed_height, get_transaction}
use organic_blockbook.Bchain.BaseParser.{pack_txid}
use organic_blockbook.Bchain.Hex.{hex_decode}
use organic_blockbook.Db.Store.{get_cf}
use organic_blockbook.Prelude.Maps.{lookup}
use organic_blockbook.Db.TxCache.Hit.{get_transaction_again}
use organic_blockbook.Tests.Fixtures.{small_env}
use organic_blockbook.Tests.Protobuf.{simple_proto, IsAnyText, simple_proto-ProtobufLaws}

abbrev id_text : Bytes
id_text = hex_encode (1 ∷ 2 ∷ 3 ∷ 4 ∷ 5 ∷ [])

abbrev shielding : Tx
shielding = record {
  hex = [];
  txid = id_text;
  version = pos 3;
  lock_time = 0;
  vin =
      record {
        coinbase = [];
        txid = [];
        vout = 0;
        script_sig_hex = [];
        sequence = 7;
        addresses = [];
      }
      ∷ [];
  vout = record { value_sat = pos 500; n = 0; script_hex = []; addresses = [] } ∷ [];
  confirmations = 3;
  time = pos 90;
  blocktime = pos 100;
  v_shield_in = [];
  v_shield_out = (1 ∷ []) ∷ [];
  shield_val_bal = negsuc 4;
}

shielding-IsPackable : IsPackable IsAnyText shielding
unfolding hex_encode
shielding-IsPackable = record {
  hex = ([], tt, refl);
  txid = (
    1 ∷ 2 ∷ 3 ∷ 4 ∷ 5 ∷ [],
    (omega arith, (omega arith, (omega arith, (omega arith, (omega arith, tt))))),
    refl,
  );
  some_txid = λ e. omega (arith, ap length e);
  vin = ((([], tt, refl), ([], tt, refl), tt, tt), tt);
  vout = ((([], tt, refl), tt), tt);
}

unpack-pack_tx_example :
    (buf : Bytes) × (pack_tx simple_proto shielding 9 (pos 100) ≡ ok buf)
    × (unpack_tx simple_proto buf ≡ ok (restored shielding (pos 100), 9))
    × (length id_text ≤ 2 * length buf)
unpack-pack_tx_example =
    unpack-pack_tx IsAnyText simple_proto simple_proto-ProtobufLaws shielding 9 (pos 100)
      shielding-IsPackable (ground arith)

-- A node whose best height is 40, over a database that does not have the transaction.
abbrev node_at_40 : TxNode
node_at_40 = record { get_transaction = λ txid. some shielding; best_block_height = some 40 }

abbrev stored : Store
stored = (get_transaction simple_proto true small_env node_at_40 30 id_text).1

get_transaction_again_example :
    ((get_transaction simple_proto true small_env node_at_40 30 id_text).0 ≡ ok (shielding, 40))
    × (get_transaction simple_proto true (record small_env { store = stored }) node_at_40 30 id_text
        ≡ (
          ok (
            record (restored shielding (pos 100)) {
              confirmations = (30 + 2 ^ 32 - 40 + 1) % 2 ^ 32;
            },
            40,
          ),
          stored,
        ))
unfolding get_tx confirmed_height pack_txid hex_decode get_cf hex_encode lookup get_tx_addresses
get_transaction_again_example =
    get_transaction_again IsAnyText simple_proto simple_proto-ProtobufLaws small_env
      (record small_env { store = stored }) node_at_40 node_at_40 30 30 shielding 40 refl refl
      (omega arith) refl shielding-IsPackable (ground arith) (omega arith) refl
