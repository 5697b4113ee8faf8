-- ===== src/Bchain/BaseParser.antt =====
-- bchain/baseparser.go: the parser that the coins share, and the form in which a transaction is
-- cached.
pub mod RoundTrip
use organic_blockbook.Prelude.{
  ℕ, ◌-◌, ◌%◌, ◌^◌, ◌≡◌, ◌≤◌, ◌+◌, if◌then◌else◌, List, [], ◌∷◌, Option, none, some, length, All,
  ◌==◌,
}
use organic_blockbook.Prelude.Int.{ℤ, pos, negsuc}
use organic_blockbook.Prelude.Bytes.{Bytes, be_value, nat_bytes}
use organic_blockbook.Prelude.Options.{Result, ok, err}
use organic_blockbook.Bchain.Types.{Vin, Vout, Tx, PackedTxid, packed, txid_missing, bad_txid}
use organic_blockbook.Bchain.Hex.{hex_encode, hex_decode}
use organic_blockbook.Bchain.PqTransaction.{int64}
use organic_blockbook.Db.Bigint.{magnitude}

pub record ProtoVin : Type 0 where
  pub addresses : List Bytes
  pub coinbase : Bytes
  pub script_sig_hex : Bytes
  pub sequence : ℕ
  pub txid : Bytes
  pub vout : ℕ

pub record ProtoVout : Type 0 where
  pub addresses : List Bytes
  pub n : ℕ
  pub script_pub_key_hex : Bytes
  pub value_sat : Bytes

pub record ProtoTransaction : Type 0 where
  pub blocktime : ℕ
  pub height : ℕ
  pub lock_time : ℕ
  pub vin : List ProtoVin
  pub vout : List ProtoVout
  pub version : ℤ
  pub hex : Bytes
  pub txid : Bytes

-- github.com/gogo/protobuf/proto: Marshal and Unmarshal of a ProtoTransaction; `none` is an error.
pub record Protobuf : Type 0 where
  pub marshal : ProtoTransaction → Option Bytes
  pub unmarshal : Bytes → Option ProtoTransaction

-- A message is read back as it was written, and is no shorter than a byte field of it. Fields that
-- are strings must be UTF-8, which the library checks when it writes them.
pub record ProtobufLaws (pb : Protobuf) (IsText : Bytes → Type 0) : Type 0 where
  pub marshals :
      (pt : ProtoTransaction)
      → All (λ i. IsText i.coinbase × All IsText i.addresses) pt.vin
      → All (λ o. All IsText o.addresses) pt.vout
      → (b : Bytes) × (pb.marshal pt ≡ some b)
  pub unmarshal-marshal :
      (pt : ProtoTransaction) (b : Bytes) → pb.marshal pt ≡ some b → pb.unmarshal b ≡ some pt
  pub length-marshal :
      (pt : ProtoTransaction) (b : Bytes) → pb.marshal pt ≡ some b → length pt.txid ≤ length b

pub data TxError : Type 0 where
  missing_txid malformed_txid malformed_hex proto_failed : TxError

infixl 5 ◌>>=◌
abbrev pub ◌>>=◌ {ℓ κ} :
    {A : Type ℓ} {B : Type κ} → Result TxError A → (A → Result TxError B) → Result TxError B
ok a >>= f = f a
err e >>= f = err e

abbrev pub or_error {ℓ} : {A : Type ℓ} → TxError → Option A → Result TxError A
or_error e none = err e
or_error e (some a) = ok a

abbrev pub packed_or_bad : Option Bytes → PackedTxid
packed_or_bad none = bad_txid
packed_or_bad (some b) = packed b

unfoldable pub pack_txid : Bytes → PackedTxid
pack_txid [] = txid_missing
pack_txid (c ∷ s) = packed_or_bad (hex_decode (c ∷ s))

unfoldable pub unpack_txid : Bytes → Bytes
unpack_txid buf = hex_encode buf

unfoldable pub pack_block_hash : Bytes → Option Bytes
pack_block_hash hash = hex_decode hash

unfoldable pub unpack_block_hash : Bytes → Bytes
unpack_block_hash buf = hex_encode buf

-- The id of an input's transaction: coinbase transactions do not have one.
abbrev pub input_txid : PackedTxid → Result TxError Bytes
input_txid (packed b) = ok b
input_txid txid_missing = ok []
input_txid bad_txid = err malformed_txid

abbrev pub own_txid : PackedTxid → Result TxError Bytes
own_txid (packed b) = ok b
own_txid txid_missing = err missing_txid
own_txid bad_txid = err malformed_txid

-- `uint64(z)`
unfoldable pub uint64 : ℤ → ℕ
uint64 (pos n) = n % 2 ^ 64
uint64 (negsuc n) = 2 ^ 64 - 1 - n % 2 ^ 64

unfoldable pub pack_vins : List Vin → Result TxError (List ProtoVin)
unfolding pack_txid
pack_vins [] = ok []
pack_vins (vi ∷ vin) = do
  script ← or_error malformed_hex (hex_decode vi.script_sig_hex)
  itxid ← input_txid (pack_txid vi.txid)
  rest ← pack_vins vin
  ok (
      record {
        addresses = vi.addresses;
        coinbase = vi.coinbase;
        script_sig_hex = script;
        sequence = vi.sequence;
        txid = itxid;
        vout = vi.vout;
      }
      ∷ rest)

unfoldable pub pack_vouts : List Vout → Result TxError (List ProtoVout)
pack_vouts [] = ok []
pack_vouts (vo ∷ vout) = do
  script ← or_error malformed_hex (hex_decode vo.script_hex)
  rest ← pack_vouts vout
  ok (
      record {
        addresses = vo.addresses;
        n = vo.n;
        script_pub_key_hex = script;
        value_sat = nat_bytes (magnitude vo.value_sat);
      }
      ∷ rest)

unfoldable pub proto_of : Tx → ℕ → ℤ → Result TxError ProtoTransaction
unfolding pack_vins pack_vouts pack_txid uint64
proto_of tx height block_time = do
  pti ← pack_vins tx.vin
  pto ← pack_vouts tx.vout
  hex ← or_error malformed_hex (hex_decode tx.hex)
  txid ← own_txid (pack_txid tx.txid)
  ok (record {
    blocktime = uint64 block_time;
    height = height;
    lock_time = tx.lock_time;
    vin = pti;
    vout = pto;
    version = tx.version;
    hex = hex;
    txid = txid;
  })

unfoldable pub unpack_vins : List ProtoVin → List Vin
unfolding unpack_txid
unpack_vins [] = []
unpack_vins (i ∷ vin) =
    record {
      coinbase = i.coinbase;
      txid = unpack_txid i.txid;
      vout = i.vout;
      script_sig_hex = hex_encode i.script_sig_hex;
      sequence = i.sequence;
      addresses = i.addresses;
    }
    ∷ unpack_vins vin

unfoldable pub unpack_vouts : List ProtoVout → List Vout
unpack_vouts [] = []
unpack_vouts (o ∷ vout) =
    record {
      value_sat = pos (be_value o.value_sat);
      n = o.n;
      script_hex = hex_encode o.script_pub_key_hex;
      addresses = o.addresses;
    }
    ∷ unpack_vouts vout

unfoldable pub tx_of : ProtoTransaction → Tx
unfolding unpack_vins unpack_vouts unpack_txid
tx_of pt = record {
  hex = hex_encode pt.hex;
  txid = unpack_txid pt.txid;
  version = pt.version;
  lock_time = pt.lock_time;
  vin = unpack_vins pt.vin;
  vout = unpack_vouts pt.vout;
  confirmations = 0;
  time = int64 pt.blocktime;
  blocktime = int64 pt.blocktime;
  v_shield_in = [];
  v_shield_out = [];
  shield_val_bal = pos 0;
}

module _ (pb : Protobuf) where
  unfoldable pub pack_tx : Tx → ℕ → ℤ → Result TxError Bytes
  unfolding proto_of
  pack_tx tx height block_time = do
    pt ← proto_of tx height block_time
    or_error proto_failed (pb.marshal pt)

  unfoldable pub unpack_tx : Bytes → Result TxError (Tx × ℕ)
  unfolding tx_of
  unpack_tx buf = do pt ← or_error proto_failed (pb.unmarshal buf); ok (tx_of pt, pt.height)
