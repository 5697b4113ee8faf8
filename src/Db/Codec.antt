-- ===== src/Db/Codec.antt =====
-- db/rocksdb.go: the records of the columns txAddresses, addresses and blockTxs, and their packed
-- forms. The source's decoders return the number of bytes read and their callers slice the buffer
-- by it; here each decoder returns the rest of the buffer. `none` is a panic on a short buffer.
pub mod TxRoundTrip
use organic_blockbook.Prelude.{
  ℕ, zero, suc, ◌+◌, ◌-◌, ◌%◌, ◌^◌, List, [], ◌∷◌, ◌++◌, Option, none, some, Bool, true, false,
  if◌then◌else◌, length, take, drop, leb,
}
use organic_blockbook.Prelude.Int.{ℤ, pos, negsuc}
use organic_blockbook.Prelude.Bytes.{Bytes, slice_from, slice_to}
use organic_blockbook.Prelude.Options.{◌>>=◌}
use organic_blockbook.Db.Bigint.{pack_bigint, unpack_bigint}
use organic_blockbook.Db.Vlq.{Vlq}

abbrev pub uint32 : ℕ → ℕ
uint32 n = n % 2 ^ 32

-- `int(v)` for an `uint` and back: `^la` of a length.
abbrev pub complement : ℕ → ℤ
complement = negsuc

pub record TxInput : Type 0 where
  pub addr_desc : Bytes
  pub value_sat : ℤ

pub record TxOutput : Type 0 where
  pub addr_desc : Bytes
  pub spent : Bool
  pub value_sat : ℤ

pub record TxAddresses : Type 0 where
  pub height : ℕ
  pub inputs : List TxInput
  pub outputs : List TxOutput
  pub shield_ins : ℕ
  pub shield_outs : ℕ
  pub shield_val_bal : ℤ

-- A decoder of the source, with the rest of the buffer in place of the number of bytes read.
abbrev pub Reader {ℓ} : Type ℓ → Type ℓ
Reader A = Bytes → Option (A × Bytes)

-- `make([]T, n)` and the loop that fills it.
unfoldable pub read_n {ℓ} : {A : Type ℓ} → Reader A → ℕ → Reader (List A)
read_n read zero buf = some ([], buf)
read_n read (suc n) buf = do
  (x, rest) ← read buf
  (xs, rest') ← read_n read n rest
  some (x ∷ xs, rest')

unfoldable pub read_bigint : Reader ℤ
read_bigint buf = do (v, l) ← unpack_bigint buf; rest ← slice_from buf l; some (v, rest)

-- `buf[:n]` and `buf[n:]`
unfoldable pub read_bytes : ℕ → Reader Bytes
read_bytes n buf = do b ← slice_to buf n; rest ← slice_from buf n; some (b, rest)

-- The loops over the inputs and the outputs.
unfoldable pub append_all {ℓ} : {A : Type ℓ} → (A → Bytes) → List A → Bytes
append_all append [] = []
append_all append (x ∷ xs) = append x ++ append_all append xs

-- `al < 0` marks a spent output, and `al = ^al` is the length then.
unfoldable pub output_length : ℤ → Bool × ℕ
output_length (pos al) = (false, al)
output_length (negsuc al) = (true, al)

module _ (vlq : Vlq) where
  open vlq use {put_uint, uint, put_int, int}

  unfoldable pub read_varuint : Reader ℕ
  read_varuint buf = do (i, ofs) ← uint buf; rest ← slice_from buf ofs; some (i, rest)

  unfoldable pub read_varint : Reader ℤ
  read_varint buf = do (i, ofs) ← int buf; rest ← slice_from buf ofs; some (i, rest)

  unfoldable pub append_tx_input : TxInput → Bytes
  append_tx_input txi =
      put_uint (length txi.addr_desc) ++ (txi.addr_desc ++ pack_bigint txi.value_sat)

  unfoldable pub append_tx_output : TxOutput → Bytes
  append_tx_output txo =
      let la = length txo.addr_desc in
      put_int (if txo.spent then complement la else pos la)
      ++ (txo.addr_desc ++ pack_bigint txo.value_sat)

  unfoldable pub pack_tx_addresses : TxAddresses → Bytes
  pack_tx_addresses ta =
      put_uint ta.height
      ++ (put_uint (length ta.inputs)
          ++ (append_all append_tx_input ta.inputs
              ++ (put_uint (length ta.outputs)
                  ++ (append_all append_tx_output ta.outputs
                      ++ (put_uint ta.shield_ins
                          ++ (put_uint ta.shield_outs ++ pack_bigint ta.shield_val_bal))))))

  unfoldable pub unpack_tx_input : Reader TxInput
  unpack_tx_input buf = do
    (al, buf) ← read_varuint buf
    (desc, buf) ← read_bytes al buf
    (value, buf) ← read_bigint buf
    some (record { addr_desc = desc; value_sat = value }, buf)

  unfoldable pub unpack_tx_output : Reader TxOutput
  unfolding output_length
  unpack_tx_output buf = do
    (al, buf) ← read_varint buf
    (desc, buf) ← read_bytes (output_length al).1 buf
    (value, buf) ← read_bigint buf
    some (record { addr_desc = desc; spent = (output_length al).0; value_sat = value }, buf)

  unfoldable pub unpack_tx_addresses : Bytes → Option TxAddresses
  unpack_tx_addresses buf = do
    (height, buf) ← read_varuint buf
    (n_inputs, buf) ← read_varuint buf
    (inputs, buf) ← read_n unpack_tx_input n_inputs buf
    (n_outputs, buf) ← read_varuint buf
    (outputs, buf) ← read_n unpack_tx_output n_outputs buf
    (shield_ins, buf) ← read_varuint buf
    (shield_outs, buf) ← read_varuint buf
    (val_bal, _) ← unpack_bigint buf
    some (record {
      height = uint32 height;
      inputs = inputs;
      outputs = outputs;
      shield_ins = uint32 shield_ins;
      shield_outs = uint32 shield_outs;
      shield_val_bal = val_bal;
    })
