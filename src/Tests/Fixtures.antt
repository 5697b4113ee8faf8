-- ===== src/Tests/Fixtures.antt =====
-- Concrete instances of what the model takes as parameters, and data for the examples: a fixed-width
-- integer codec in the place of go-vlq, and a parser with ids of one byte.
use organic_blockbook.Prelude.{
  ℕ, zero, suc, ◌^◌, ◌<◌, ◌≡◌, sym, ap, arith, ltb, [], ◌∷◌, ◌++◌, Option, none, some, length,
}
use organic_blockbook.Prelude.Int.{ℤ, pos, negsuc}
use organic_blockbook.Prelude.Bytes.{
  Bytes, be_bytes, be_value, length-be_bytes, slice_to, slice_to-append, be_value_acc-be_bytes,
}
use organic_blockbook.Bchain.Types.{ChainParser, packed}
use organic_blockbook.Db.Vlq.{Vlq, VlqLaws, IsInt64}
use organic_blockbook.Db.Balance.{Utxo, AddrBalance}
use organic_blockbook.Db.Store.{empty_store}
use organic_blockbook.Db.Connect.Outputs.{Env}

unfoldable pub sized : Option Bytes → Option (ℕ × ℕ)
sized none = none
sized (some b) = some (be_value b, 8)

unfoldable pub fixed_uint : Bytes → Option (ℕ × ℕ)
fixed_uint b = sized (slice_to b 8)

unfoldable pub fixed_put_int : ℤ → Bytes
fixed_put_int (pos n) = 0 ∷ be_bytes 8 n
fixed_put_int (negsuc n) = 1 ∷ be_bytes 8 n

unfoldable pub signed : ℕ → Option (ℕ × ℕ) → Option (ℤ × ℕ)
signed s none = none
signed zero (some (n, l)) = some (pos n, suc l)
signed (suc s) (some (n, l)) = some (negsuc n, suc l)

unfoldable pub fixed_int : Bytes → Option (ℤ × ℕ)
fixed_int [] = none
fixed_int (s ∷ b) = signed s (fixed_uint b)

abbrev pub fixed : Vlq
fixed = record {
  put_uint = λ n. be_bytes 8 n;
  uint = fixed_uint;
  put_int = fixed_put_int;
  int = fixed_int;
}

fixed_uint-be_bytes :
    (n : ℕ) (rest : Bytes)
    → n < 2 ^ 64
    → fixed_uint (be_bytes 8 n ++ rest) ≡ some (n, length (be_bytes 8 n))
unfolding fixed_uint sized be_value
fixed_uint-be_bytes n rest h =
    rw
      (
        slice_to-append (be_bytes 8 n) rest 8 (sym (length-be_bytes 8 n)),
        be_value_acc-be_bytes 0 8 n h,
        length-be_bytes 8 n,
      )
      (ap (λ v. some (v, 8)) (omega arith))

fixed_int-put_int :
    (z : ℤ) (rest : Bytes)
    → IsInt64 z
    → fixed_int (fixed_put_int z ++ rest) ≡ some (z, length (fixed_put_int z))
unfolding fixed_put_int fixed_int signed
fixed_int-put_int (pos n) rest h = rw (fixed_uint-be_bytes n rest (omega arith))
fixed_int-put_int (negsuc n) rest h = rw (fixed_uint-be_bytes n rest (omega arith))

length-fixed_put_int : (z : ℤ) → length (fixed_put_int z) ≡ 9
unfolding fixed_put_int
length-fixed_put_int (pos n) = omega (arith, length-be_bytes 8 n)
length-fixed_put_int (negsuc n) = omega (arith, length-be_bytes 8 n)

pub fixed-VlqLaws : VlqLaws fixed
fixed-VlqLaws = record {
  uint-put_uint = fixed_uint-be_bytes;
  int-put_int = fixed_int-put_int;
  length-put_uint = λ n. (omega (arith, length-be_bytes 8 n), omega (arith, length-be_bytes 8 n));
  length-put_int =
      λ z. (omega (arith, length-fixed_put_int z), omega (arith, length-fixed_put_int z));
}

-- A parser whose ids and descriptors are the bytes themselves.
abbrev pub small_parser : ChainParser
small_parser = record {
  pack_txid = packed;
  packed_txid_len = 1;
  keep_block_addresses = 2;
  get_addr_desc_from_vout = λ o. some o.script_hex;
  is_addr_desc_indexable = λ d. ltb 0 (length d);
  get_addr_desc_for_unknown_input = λ tx i. [];
  get_value_sat_for_unknown_input = λ tx i. pos 0;
  pack_block_hash = some;
  unpack_block_hash = some;
}

abbrev pub small_env : Env
small_env = record {
  parser = small_parser;
  vlq = fixed;
  pay_to_pub_key_hash = some;
  store = empty_store;
}

-- Two outputs of one transaction and one of another, with a balance that has received them all.
abbrev pub output : ℕ → ℕ → ℕ → Utxo
output id vout value = record {
  btx_id = id ∷ [];
  vout = pos vout;
  height = 9;
  value_sat = pos value;
}

abbrev pub three_outputs : AddrBalance
three_outputs = record {
  txs = 2;
  sent_sat = pos 10;
  balance_sat = pos 60;
  utxos = output 1 0 10 ∷ output 1 1 20 ∷ output 2 0 30 ∷ [];
  utxos_map = [];
}
