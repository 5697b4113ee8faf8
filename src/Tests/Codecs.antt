-- ===== src/Tests/Codecs.antt =====
-- The theorems on the keys and the values of the columns at concrete data.
use organic_blockbook.Prelude.{
  ◌/◌, ◌^◌, ◌≤◌, ◌≡◌, refl, ap, arith, List, [], ◌∷◌, ◌++◌, some, length, reverse, true, false,
}
use organic_blockbook.Prelude.Int.{pos, negsuc}
use organic_blockbook.Prelude.Bytes.{Bytes}
use organic_blockbook.Prelude.Options.{ok}
use organic_blockbook.Db.Bigint.{
  word_base, max_packed_bigint_bytes, magnitude, pack_bigint, unpack_bigint,
}
use organic_blockbook.Db.Bigint.RoundTrip.{dropped_words, unpack-pack_bigint_truncated}
use organic_blockbook.Db.Codec.{TxAddresses, pack_tx_addresses, unpack_tx_addresses}
use organic_blockbook.Db.Codec.TxRoundTrip.{IsTxAddresses, unpack-pack_tx_addresses}
use organic_blockbook.Db.Connect.Addresses.{TxIndexes}
use organic_blockbook.Db.AddressColumn.{pack_tx_indexes, unpack_tx_indexes}
use organic_blockbook.Db.AddressColumn.RoundTrip.{unpack-pack_tx_indexes}
use organic_blockbook.Db.BlockTxs.{BlockTxs, pack_block_txs, unpack_block_txs}
use organic_blockbook.Db.BlockTxs.RoundTrip.{unpack-pack_block_txs}
use organic_blockbook.Db.Heights.{
  BlockInfo, uint32_of_time, pack_block_info, unpack_block_info, ◌>>=◌,
}
use organic_blockbook.Db.Heights.RoundTrip.{unpack-pack_block_info}
use organic_blockbook.Tests.Fixtures.{fixed, fixed-VlqLaws, small_parser}

unpack-pack_bigint_truncated_example :
    (unpack_bigint (pack_bigint (negsuc 299) ++ 7 ∷ [])
      ≡ some (
        pos (magnitude (negsuc 299) / word_base ^ dropped_words (magnitude (negsuc 299))),
        length (pack_bigint (negsuc 299)),
      ))
    × (length (pack_bigint (negsuc 299)) ≤ max_packed_bigint_bytes)
unpack-pack_bigint_truncated_example = unpack-pack_bigint_truncated (negsuc 299) (7 ∷ [])

abbrev script : Bytes
script = 118 ∷ 169 ∷ []

abbrev short_key : Bytes
short_key = 1 ∷ 2 ∷ 3 ∷ []

abbrev shielded : TxAddresses
shielded = record {
  height = 9;
  inputs = record { addr_desc = 1 ∷ 2 ∷ []; value_sat = pos 500 } ∷ [];
  outputs =
      record { addr_desc = 3 ∷ []; spent = true; value_sat = pos 400 }
      ∷ record { addr_desc = 4 ∷ []; spent = false; value_sat = pos 60 }
      ∷ [];
  shield_ins = 1;
  shield_outs = 2;
  shield_val_bal = negsuc 39;
}

shielded-IsTxAddresses : IsTxAddresses shielded
shielded-IsTxAddresses = record {
  height = omega arith;
  few_inputs = omega arith;
  few_outputs = omega arith;
  inputs = (record { short = omega arith; amount = omega arith }, tt);
  outputs = (
    record { short = omega arith; amount = omega arith },
    (record { short = omega arith; amount = omega arith }, tt),
  );
  shield_ins = omega arith;
  shield_outs = omega arith;
  shield_val_bal = omega arith;
}

unpack-pack_tx_addresses_example :
    unpack_tx_addresses fixed (pack_tx_addresses fixed shielded)
    ≡ some (record shielded { shield_val_bal = pos (magnitude (negsuc 39)) })
unpack-pack_tx_addresses_example =
    unpack-pack_tx_addresses fixed fixed-VlqLaws shielded shielded-IsTxAddresses

abbrev two_entries : List TxIndexes
two_entries =
    record { btx_id = 1 ∷ []; indexes = pos 0 ∷ negsuc 2 ∷ [] }
    ∷ record { btx_id = 2 ∷ []; indexes = pos 4 ∷ [] }
    ∷ []

unpack-pack_tx_indexes_example :
    unpack_tx_indexes fixed
      (length (pack_tx_indexes fixed two_entries))
      1
      (pack_tx_indexes fixed two_entries)
    ≡ some (reverse two_entries)
unpack-pack_tx_indexes_example = unpack-pack_tx_indexes fixed fixed-VlqLaws 1 two_entries (
  record { id = refl; some_index = λ e. omega (arith, ap length e); indexes = (omega arith, tt) },
  (
    record {
      id = refl;
      some_index = λ e. omega (arith, ap length e);
      indexes = (omega arith, (omega arith, tt));
    },
    tt,
  ),
)

abbrev two_txs : List BlockTxs
two_txs =
    record { btx_id = 1 ∷ []; inputs = record { btx_id = 0 ∷ []; index = pos 0 } ∷ [] }
    ∷ record { btx_id = 2 ∷ []; inputs = record { btx_id = 1 ∷ []; index = pos 1 } ∷ [] }
    ∷ []

unpack-pack_block_txs_example :
    unpack_block_txs fixed (length (pack_block_txs fixed two_txs)) 1 (pack_block_txs fixed two_txs)
    ≡ ok two_txs
unpack-pack_block_txs_example = unpack-pack_block_txs fixed fixed-VlqLaws 1 two_txs (omega arith) (
  record {
    id = refl;
    few = omega arith;
    inputs = (record { id = refl; index = (omega arith, omega arith) }, tt);
  },
  (
    record {
      id = refl;
      few = omega arith;
      inputs = (record { id = refl; index = (omega arith, omega arith) }, tt);
    },
    tt,
  ),
)

abbrev small_info : BlockInfo
small_info = record { hash = 5 ∷ []; time = pos 1000; txs = 3; size = 700; height = 9 }

unpack-pack_block_info_example :
    (pack_block_info small_parser fixed small_info >>= unpack_block_info small_parser fixed)
    ≡ ok (some (record small_info { time = pos 1000; height = 0 }))
unfolding uint32_of_time
unpack-pack_block_info_example =
    unpack-pack_block_info small_parser fixed fixed-VlqLaws small_info (5 ∷ []) refl refl refl
      (record { txs = omega arith; size = omega arith })
