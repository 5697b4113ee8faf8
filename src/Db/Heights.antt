-- ===== src/Db/Heights.antt =====
-- db/rocksdb.go: the column height, which holds a BlockInfo for each block of the index.
pub mod RoundTrip
use organic_blockbook.Prelude.{
  ℕ, ◌+◌, ◌-◌, ◌%◌, ◌^◌, leb, ltb, ◌==◌, if◌then◌else◌, List, [], ◌∷◌, ◌++◌, Option, none, some,
  length,
}
use organic_blockbook.Prelude.Int.{ℤ, pos, negsuc}
use organic_blockbook.Prelude.Bytes.{Bytes, slice_from, slice_to}
use organic_blockbook.Prelude.Maps.{Map}
use organic_blockbook.Prelude.Options.{Result, ok, err}
use organic_blockbook.Bchain.Types.{ChainParser, Block}
use organic_blockbook.Db.Vlq.{Vlq}
use organic_blockbook.Db.Keys.{pack_uint, unpack_uint}
use organic_blockbook.Db.Keys.Order.{bytes_lt}
use organic_blockbook.Db.Codec.{uint32, read_varuint, read_bytes}
use organic_blockbook.Db.Store.{Store, WriteBatch, put_cf, delete_cf, cf_height, get_cf}

pub record BlockInfo : Type 0 where
  pub hash : Bytes
  pub time : ℤ
  pub txs : ℕ
  pub size : ℕ
  pub height : ℕ

-- `uint32(time)` of an int64
unfoldable pub uint32_of_time : ℤ → ℕ
uint32_of_time (pos n) = n % 2 ^ 32
uint32_of_time (negsuc n) = 2 ^ 32 - 1 - n % 2 ^ 32

unfoldable pub block_info_of : Block → BlockInfo
block_info_of block = record {
  hash = block.hash;
  time = block.time;
  txs = uint32 (length block.txs);
  size = uint32 block.size;
  height = block.height;
}

pub data HeightError : Type 0 where
  bad_hash panic : HeightError

infixl 5 ◌>>=◌
abbrev pub ◌>>=◌ {ℓ κ} :
    {A : Type ℓ} {B : Type κ}
    → Result HeightError A
    → (A → Result HeightError B)
    → Result HeightError B
ok a >>= f = f a
err e >>= f = err e

abbrev pub or_error {ℓ} : {A : Type ℓ} → HeightError → Option A → Result HeightError A
or_error e none = err e
or_error e (some a) = ok a

module _ (parser : ChainParser) (vlq : Vlq) where
  -- The height is not packed.
  unfoldable pub pack_block_info : BlockInfo → Result HeightError Bytes
  unfolding uint32_of_time
  pack_block_info block = do
    b ← or_error bad_hash (parser.pack_block_hash block.hash)
    ok (
        b
        ++ (pack_uint (uint32_of_time block.time)
            ++ (vlq.put_uint block.txs ++ vlq.put_uint block.size)))

  -- `none` for data that is too short to be a BlockInfo.
  unfoldable pub unpack_block_info : Bytes → Result HeightError (Option BlockInfo)
  unpack_block_info buf =
      let pl = parser.packed_txid_len in
      if ltb (length buf) (pl + 4 + 2) then ok none else (do
        (id, rest) ← or_error panic (read_bytes pl buf)
        hash ← or_error bad_hash (parser.unpack_block_hash id)
        t ← or_error panic (unpack_uint rest)
        rest' ← or_error panic (slice_from rest 4)
        (txs, rest'') ← or_error panic (read_varuint vlq rest')
        (size, _) ← or_error panic (read_varuint vlq rest'')
        ok (
            some (record {
              hash = hash;
              time = pos t;
              txs = uint32 txs;
              size = uint32 size;
              height = 0;
            })))

  -- writeHeight: the change of the column, and the best height that the internal state is told.
  unfoldable pub insert_height : ℕ → BlockInfo → Result HeightError (WriteBatch × ℕ)
  unfolding pack_block_info
  insert_height height bi = do
    val ← pack_block_info bi
    ok (put_cf cf_height (pack_uint height) val ∷ [], height)

  unfoldable pub delete_height : ℕ → WriteBatch × ℕ
  delete_height height =
      (delete_cf cf_height (pack_uint height) ∷ [], (height + 2 ^ 32 - 1) % 2 ^ 32)

  -- GetBlockInfo
  unfoldable pub get_block_info : Store → ℕ → Result HeightError (Option BlockInfo)
  unfolding unpack_block_info
  get_block_info s height = do
    bi ← unpack_block_info (elim (get_cf s cf_height (pack_uint height)) [ none ↦ [] | some b ↦ b ])
    ok (elim bi [ none ↦ none | some b ↦ some (record b { height = height }) ])

  -- GetBlockHash: the empty hash if there is no block of that height.
  unfoldable pub get_block_hash : Store → ℕ → Result HeightError Bytes
  unfolding unpack_block_info
  get_block_hash s height = do
    bi ← unpack_block_info (elim (get_cf s cf_height (pack_uint height)) [ none ↦ [] | some b ↦ b ])
    ok (elim bi [ none ↦ [] | some b ↦ b.hash ])

-- `SeekToLast`: the entry with the greatest key.
unfoldable pub last_entry : Map Bytes → Option (Bytes × Bytes)
last_entry [] = none
last_entry ((k, v) ∷ m) = elim (last_entry m) [
  | none ↦ some (k, v)
  | some (j, w) ↦ if bytes_lt j k then some (k, v) else some (j, w)
]

module _ (parser : ChainParser) (vlq : Vlq) where
  unfoldable pub best_of : Option (Bytes × Bytes) → Result HeightError (ℕ × Bytes)
  unfolding unpack_block_info
  best_of none = ok (0, [])
  best_of (some (k, v)) = do
    height ← or_error panic (unpack_uint k)
    elim (unpack_block_info parser vlq v) [
      | ok (some info) ↦ ok (height, info.hash)
      | ok none ↦ ok (0, [])
      | err panic ↦ err panic
      | err bad_hash ↦ ok (0, [])
    ]

  -- GetBestBlock: the height and the hash of the last block, zero and the empty hash if there is
  -- none.
  unfoldable pub get_best_block : Store → Result HeightError (ℕ × Bytes)
  unfolding best_of last_entry
  get_best_block s = best_of (last_entry s.heights)
