-- ===== src/Bchain/PqTransaction.antt =====
-- bchain/coins/pivx/pqtransaction.go: reading a post-quantum transaction.
pub mod CompactSize
pub mod RoundTrip
use organic_blockbook.Prelude.{
  ℕ, zero, suc, ◌+◌, ◌-◌, ◌*◌, ◌/◌, ◌%◌, ◌^◌, Bool, true, false, not, ◌&&◌, ◌||◌, ltb, leb, ◌==◌,
  if◌then◌else◌, List, [], ◌∷◌, ◌++◌, Option, none, some, length, take, drop,
}
use organic_blockbook.Prelude.Int.{ℤ, pos, negsuc}
use organic_blockbook.Prelude.Bytes.{Bytes}
use organic_blockbook.Prelude.Options.{Result, ok, err}
use organic_blockbook.Bchain.Types.{Vin, Vout, Tx}
use organic_blockbook.Bchain.Hex.{hex_encode}

abbrev pub pq_transaction_version : ℕ
pq_transaction_version = 3

abbrev pub pq_transaction_type : ℕ
pq_transaction_type = 8

abbrev pub pq_max_transaction_size : ℕ
pq_max_transaction_size = 24000

abbrev pub pq_max_inputs : ℕ
pq_max_inputs = 2

abbrev pub pq_max_outputs : ℕ
pq_max_outputs = 3

pub data PqError : Type 0 where
  truncated invalid_compact_size exceeds_limit too_large not_pq : PqError
  invalid_sapling_marker missing_extra_payload invalid_extra_payload : PqError

infixl 5 ◌>>=◌
abbrev pub ◌>>=◌ {ℓ κ} :
    {A : Type ℓ} {B : Type κ} → Result PqError A → (A → Result PqError B) → Result PqError B
ok a >>= f = f a
err e >>= f = err e

abbrev pub require : Bool → PqError → Result PqError (Unit {0})
require true e = ok tt
require false e = err e

-- Another error in place of the one that a read gives.
abbrev pub or_error {ℓ} : {A : Type ℓ} → PqError → Result PqError A → Result PqError A
or_error e (ok a) = ok a
or_error e (err old) = err e

-- A pqReader is what is left of the buffer; a read gives what it read and what is left then.
abbrev pub PqReader {ℓ} : Type ℓ → Type ℓ
PqReader A = Bytes → Result PqError (A × Bytes)

unfoldable pub read_byte : PqReader ℕ
read_byte [] = err truncated
read_byte (b ∷ r) = ok (b, r)

-- `io.ReadFull` into a slice of `n` bytes
unfoldable pub read_full : ℕ → PqReader Bytes
read_full n r = if ltb (length r) n then err truncated else ok (take n r, drop n r)

unfoldable pub le_value : Bytes → ℕ
le_value [] = 0
le_value (b ∷ bs) = b + 256 * le_value bs

-- `binary.Read` of an unsigned number of `k` bytes
unfoldable pub read_le : ℕ → PqReader ℕ
unfolding read_full le_value
read_le k r = do (b, r) ← read_full k r; ok (le_value b, r)

unfoldable pub read_uint32 : PqReader ℕ
unfolding read_le
read_uint32 r = read_le 4 r

unfoldable pub int64 : ℕ → ℤ
int64 n = if ltb n (2 ^ 63) then pos n else negsuc (2 ^ 64 - 1 - n)

unfoldable pub read_int64 : PqReader ℤ
unfolding read_le int64
read_int64 r = do (n, r) ← read_le 8 r; ok (int64 n, r)

-- A number of `k` bytes that needs more than the shorter forms can hold.
unfoldable pub long_size : ℕ → ℕ → PqReader ℕ
unfolding read_le
long_size k least r = elim (read_le k r) [
  | err e ↦ err invalid_compact_size
  | ok (n, r) ↦ if ltb n least then err invalid_compact_size else ok (n, r)
]

unfoldable pub size_value : ℕ → PqReader ℕ
unfolding long_size
size_value first r =
    if first == 253
    then long_size 2 253 r
    else if first == 254
    then long_size 4 (2 ^ 16) r
    else if first == 255
    then long_size 8 (2 ^ 32) r
    else ok (first, r)

unfoldable pub compact_size : ℕ → PqReader ℕ
unfolding read_byte size_value
compact_size limit r = do
  (first, r) ← read_byte r
  (value, r) ← size_value first r
  if ltb limit value then err exceeds_limit else ok (value, r)

unfoldable pub read_bytes : ℕ → PqReader Bytes
unfolding compact_size read_full
read_bytes limit r = do (n, r) ← compact_size limit r; read_full n r

unfoldable pub is_null_hash : Bytes → Bool
is_null_hash [] = true
is_null_hash (b ∷ bs) = if b == 0 then is_null_hash bs else false

-- A loop that fills a slice of `n` elements.
unfoldable pub read_all {ℓ} : {A : Type ℓ} → ℕ → PqReader A → PqReader (List A)
read_all zero f r = ok ([], r)
read_all (suc n) f r = do (a, r) ← f r; (rest, r) ← read_all n f r; ok (a ∷ rest, r)

pub record ParsedInput : Type 0 where
  pub hash : Bytes
  pub vout : ℕ
  pub script : Bytes
  pub sequence : ℕ

unfoldable pub read_input : PqReader ParsedInput
unfolding read_full read_uint32 read_bytes
read_input r = do
  (hash, r) ← read_full 32 r
  (vout, r) ← read_uint32 r
  (script, r) ← read_bytes pq_max_transaction_size r
  (sequence, r) ← read_uint32 r
  ok (record { hash = hash; vout = vout; script = script; sequence = sequence }, r)

pub record ParsedOutput : Type 0 where
  pub value : ℤ
  pub script : Bytes

unfoldable pub read_output : PqReader ParsedOutput
unfolding read_int64 read_bytes
read_output r = do
  (value, r) ← read_int64 r
  (script, r) ← read_bytes pq_max_transaction_size r
  ok (record { value = value; script = script }, r)

-- `payload[0] != 1 || payload[2] > pqMaxInputs`, on at least three bytes
unfoldable pub is_payload : Bytes → Bool
is_payload (b0 ∷ b1 ∷ b2 ∷ bs) = (b0 == 1) && leb b2 pq_max_inputs
is_payload bs = false

-- The parser's field OutputScriptToAddressesFunc, whose error is ignored, and DoubleHashH and
-- Hash.String of github.com/martinboehm/btcd/chaincfg/chainhash.
pub record PqEnv : Type 0 where
  pub output_script_to_addresses : Bytes → List Bytes
  pub double_hash : Bytes → Bytes
  pub hash_string : Bytes → Bytes

module _ (env : PqEnv) where
  unfoldable pub is_coinbase : List ParsedInput → Bool
  unfolding is_null_hash
  is_coinbase (i ∷ []) = is_null_hash i.hash && (i.vout == 2 ^ 32 - 1)
  is_coinbase inputs = false

  unfoldable pub vin_of : Bool → ParsedInput → Vin
  unfolding hex_encode
  vin_of true i = record {
    coinbase = hex_encode i.script;
    txid = [];
    vout = 0;
    script_sig_hex = [];
    sequence = i.sequence;
    addresses = [];
  }
  vin_of false i = record {
    coinbase = [];
    txid = env.hash_string i.hash;
    vout = i.vout;
    script_sig_hex = hex_encode i.script;
    sequence = i.sequence;
    addresses = [];
  }

  unfoldable pub vins : Bool → List ParsedInput → List Vin
  unfolding vin_of
  vins coinbase [] = []
  vins coinbase (i ∷ is) = vin_of coinbase i ∷ vins coinbase is

  unfoldable pub vouts : ℕ → List ParsedOutput → List Vout
  unfolding hex_encode
  vouts n [] = []
  vouts n (o ∷ os) =
      record {
        value_sat = o.value;
        n = n;
        script_hex = hex_encode o.script;
        addresses = env.output_script_to_addresses o.script;
      }
      ∷ vouts (suc n) os

  unfoldable pub pq_tx : Bytes → List ParsedInput → List ParsedOutput → ℕ → Tx
  unfolding vins vouts hex_encode is_coinbase
  pq_tx raw inputs outputs lock_time = record {
    hex = hex_encode raw;
    txid = env.hash_string (env.double_hash raw);
    version = pos pq_transaction_version;
    lock_time = lock_time;
    vin = vins (is_coinbase inputs) inputs;
    vout = vouts 0 outputs;
    confirmations = 0;
    time = pos 0;
    blocktime = pos 0;
    v_shield_in = [];
    v_shield_out = [];
    shield_val_bal = pos 0;
  }

  -- What stands behind the outputs.
  unfoldable pub parse_trailer : PqReader ℕ
  parse_trailer r = do
    (lock_time, r) ← read_uint32 r
    (sapling_marker, r) ← or_error invalid_sapling_marker (read_byte r)
    _ ← require (sapling_marker == 0) invalid_sapling_marker
    (extra_payload_marker, r) ← or_error missing_extra_payload (read_byte r)
    _ ← require (extra_payload_marker == 1) missing_extra_payload
    (payload, r) ← read_bytes pq_max_transaction_size r
    _ ← require (is_payload payload && (length r == 0)) invalid_extra_payload
    ok (lock_time, r)

  unfoldable pub parse_fields : Bytes → Bytes → Result PqError Tx
  parse_fields raw r = do
    (version, r) ← read_le 2 r
    (transaction_type, r) ← read_le 2 r
    _ ←
        require ((version == pq_transaction_version) && (transaction_type == pq_transaction_type))
          not_pq
    (input_count, r) ← compact_size pq_max_inputs r
    (inputs, r) ← read_all input_count read_input r
    (output_count, r) ← compact_size pq_max_outputs r
    (outputs, r) ← read_all output_count read_output r
    (lock_time, r) ← parse_trailer r
    ok (pq_tx raw inputs outputs lock_time)

  unfoldable pub parse_pq_transaction : Bytes → Result PqError Tx
  parse_pq_transaction raw =
      if ltb pq_max_transaction_size (length raw) then err too_large else parse_fields raw raw

unfoldable pub is_pq_transaction : Bytes → Bool
unfolding le_value
is_pq_transaction raw =
    leb 4 (length raw)
    && (le_value (take 2 raw) == pq_transaction_version)
    && (le_value (take 2 (drop 2 raw)) == pq_transaction_type)
