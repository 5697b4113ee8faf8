-- ===== src/Db/Heights/RoundTrip.antt =====
-- Block information read back from the column height.
use organic_blockbook.Prelude.{
  ℕ, ◌+◌, ◌^◌, ◌<◌, ◌≡◌, sym, ap, ◌∙◌, arith, ltb, false, [], ◌++◌, some, length, length-append,
}
use organic_blockbook.Prelude.Int.{ℤ, pos, negsuc}
use organic_blockbook.Prelude.Bytes.{Bytes, slice_from-append, length-be_bytes}
use organic_blockbook.Prelude.Options.{ok}
use organic_blockbook.Bchain.Types.{ChainParser}
use organic_blockbook.Db.Vlq.{Vlq, VlqLaws}
use organic_blockbook.Db.Keys.{pack_uint}
use organic_blockbook.Db.Keys.RoundTrip.{unpack_uint-pack_uint}
use organic_blockbook.Db.Codec.{read_bytes, read_varuint}
use organic_blockbook.Db.Codec.TxRoundTrip.{read_bytes-append, read_varuint-put, uint32_lem}
use organic_blockbook.Db.Heights.{
  BlockInfo, uint32_of_time, ◌>>=◌, pack_block_info, unpack_block_info,
}
use mathlib.Core.Path.{subst}
use mathlib.Core.List.{append-nil}

-- What is stored of a block whose numbers fit their words.
pub record IsBlockInfo (bi : BlockInfo) : Type 0 where
  pub txs : bi.txs < 2 ^ 32
  pub size : bi.size < 2 ^ 32

uint32_of_time-lt : (z : ℤ) → uint32_of_time z < 2 ^ 32
unfolding uint32_of_time
uint32_of_time-lt (pos n) = omega arith
uint32_of_time-lt (negsuc n) = omega arith

module _ (parser : ChainParser) (vlq : Vlq) (laws : VlqLaws vlq) where
  -- unpackBlockInfo reads back the hash, the time as far as it fits 32 bits, which is the time modulo
  -- 2^32, and the two counts, which are below 2^32; the height is not stored, and comes back as zero.
  -- The hash is one that packs to the length of an id and unpacks to itself.
  pub unpack-pack_block_info :
      (bi : BlockInfo) (id : Bytes)
      → parser.pack_block_hash bi.hash ≡ some id
      → parser.unpack_block_hash id ≡ some bi.hash
      → length id ≡ parser.packed_txid_len
      → IsBlockInfo bi
      → (pack_block_info parser vlq bi >>= unpack_block_info parser vlq)
        ≡ ok (some (record bi { time = pos (uint32_of_time bi.time); height = 0 }))
  unfolding pack_block_info unpack_block_info
  unpack-pack_block_info bi id packs unpacks len h = rw (
    packs,
    enough,
    read_id (pack_uint t ++ (vlq.put_uint bi.txs ++ vlq.put_uint bi.size)),
    unpacks,
    unpack_uint-pack_uint t (vlq.put_uint bi.txs ++ vlq.put_uint bi.size)
        (uint32_of_time-lt bi.time),
    slice_from-append (pack_uint t) (vlq.put_uint bi.txs ++ vlq.put_uint bi.size) 4 (sym four),
    read_varuint-put vlq laws bi.txs (vlq.put_uint bi.size) (omega (arith, h.txs)),
    read_size,
    uint32_lem bi.txs h.txs,
    uint32_lem bi.size h.size,
  )
    where
      t : ℕ
      t = uint32_of_time bi.time

      four : length (pack_uint t) ≡ 4
      four = unfold pack_uint in length-be_bytes 4 t

      read_id : (rest : Bytes) → read_bytes parser.packed_txid_len (id ++ rest) ≡ some (id, rest)
      read_id rest =
          subst (λ k. read_bytes k (id ++ rest) ≡ some (id, rest)) len (read_bytes-append id rest)

      read_size : read_varuint vlq (vlq.put_uint bi.size) ≡ some (bi.size, [])
      read_size =
          ap (read_varuint vlq) (sym (append-nil (vlq.put_uint bi.size)))
          ∙ read_varuint-put vlq laws bi.size [] (omega (arith, h.size))

      enough :
          ltb
            (length (id ++ (pack_uint t ++ (vlq.put_uint bi.txs ++ vlq.put_uint bi.size))))
            (parser.packed_txid_len + 4 + 2)
          ≡ false
      enough = ground (
        arith,
        len,
        four,
        length-append id (pack_uint t ++ (vlq.put_uint bi.txs ++ vlq.put_uint bi.size)),
        length-append (pack_uint t) (vlq.put_uint bi.txs ++ vlq.put_uint bi.size),
        length-append (vlq.put_uint bi.txs) (vlq.put_uint bi.size),
        laws.length-put_uint bi.txs,
        laws.length-put_uint bi.size,
      )
