-- ===== src/Tests/Inputs.antt =====
-- The theorems on what comes from outside at concrete data: pages, limits, post-quantum transactions
-- and the mempool.
use organic_blockbook.Prelude.{
  ℕ, ◌*◌, ◌%◌, ◌^◌, ◌≤◌, ◌≡◌, ◌⊎◌, refl, arith, ◌==◌, if◌then◌else◌, [], ◌∷◌, ◌++◌, some, length,
}
use organic_blockbook.Prelude.Int.{pos, negsuc}
use organic_blockbook.Prelude.Bytes.{Bytes}
use organic_blockbook.Prelude.Bytes.{bytes_eq}
use organic_blockbook.Prelude.Maps.{lookup}
use organic_blockbook.Prelude.Options.{ok, err}
use organic_blockbook.Api.Paging.{compute_page_bounds, IsPage, compute_page_bounds-IsPage}
use organic_blockbook.Server.InputLimits.{max_address_history_results, normalize_address_paging}
use organic_blockbook.Server.InputLimits.Bounds.{normalize_address_paging_lem}
use organic_blockbook.Bchain.PqTransaction.{
  PqEnv, compact_size, invalid_compact_size, is_payload, pq_tx, parse_pq_transaction,
  invalid_extra_payload,
}
use organic_blockbook.Bchain.PqTransaction.CompactSize.{
  le_bytes, put_compact_size, compact_size_canonical,
}
use organic_blockbook.Bchain.PqTransaction.RoundTrip.{
  put_bytes, put_output, put_all, put_inputs, put_outputs, put_trailer, PqTx, IsPqTx, put_pq_tx,
  parse-put_pq_tx, uint64,
}
use organic_blockbook.Bchain.Mempool.{
  TxEntry, BaseMempool, outpoints, others, remove_entry_from_mempool, on_new_entry,
  get_addr_desc_transactions,
}
use organic_blockbook.Bchain.Mempool.Entries.{remove_entry-on_new_entry}

compute_page_bounds-IsPage_example : IsPage 7 3 (compute_page_bounds (pos 7) (pos 9) (pos 3))
compute_page_bounds-IsPage_example =
    compute_page_bounds-IsPage 7 3 (pos 9) (omega arith) (omega arith)

normalize_address_paging_lem_example :
    (p s : ℕ) × (normalize_address_paging (pos 5000000) (pos 70) (pos 25) (pos 50)
      ≡ some (pos p, pos s))
    × (1 ≤ p)
    × (1 ≤ s)
    × (s ≤ 50)
    × ((p ≡ 1) ⊎ (p * s ≤ max_address_history_results))
normalize_address_paging_lem_example =
    normalize_address_paging_lem (pos 5000000) (pos 70) 25 50 (omega arith) (omega arith)

compact_size_canonical_example :
    (compact_size 24000 (253 ∷ le_bytes 2 (200 % 253) ++ []) ≡ err invalid_compact_size)
    × (compact_size 24000 (254 ∷ le_bytes 4 (200 % 2 ^ 16) ++ []) ≡ err invalid_compact_size)
    × (compact_size 24000 (255 ∷ le_bytes 8 (200 % 2 ^ 32) ++ []) ≡ err invalid_compact_size)
compact_size_canonical_example = compact_size_canonical 24000 200 [] (omega arith)

abbrev seven : Bytes
seven = 7 ∷ []

abbrev plain_env : PqEnv
plain_env = record {
  output_script_to_addresses = λ s. s ∷ [];
  double_hash = λ b. b;
  hash_string = λ b. b;
}

abbrev one_output : PqTx
one_output = record {
  inputs = [];
  outputs = record { value = pos 500; script = 81 ∷ 82 ∷ [] } ∷ [];
  lock_time = 70000;
  payload = 1 ∷ 0 ∷ 2 ∷ [];
}

one_output-IsPqTx : IsPqTx one_output
unfolding is_payload
one_output-IsPqTx = record {
  few_inputs = omega arith;
  few_outputs = omega arith;
  inputs = tt;
  outputs = (record { value = (omega arith, omega arith); script = omega arith }, tt);
  lock_time = omega arith;
  payload = refl;
  payload_size = omega arith;
}

one_output_size : length (put_pq_tx one_output ++ 7 ∷ []) ≤ 24000
unfolding put_pq_tx put_inputs put_outputs put_trailer put_all put_output put_bytes put_compact_size
    le_bytes uint64
one_output_size = omega arith

parse-put_pq_tx_example : parse_pq_transaction plain_env (put_pq_tx one_output ++ 7 ∷ []) ≡ (
    if length seven == 0
    then ok (
        pq_tx plain_env (put_pq_tx one_output ++ 7 ∷ []) one_output.inputs one_output.outputs 70000)
    else err invalid_extra_payload)
parse-put_pq_tx_example =
    parse-put_pq_tx plain_env one_output (7 ∷ []) one_output-IsPqTx one_output_size

abbrev old_mempool : BaseMempool
old_mempool = record {
  tx_entries = (1 ∷ [], record { addr_indexes = []; time = 9 }) ∷ [];
  addr_desc_to_tx = (5 ∷ [], record { txid = 1 ∷ []; vout = pos 0 } ∷ []) ∷ [];
}

abbrev new_entry : TxEntry
new_entry = record { addr_indexes = record { addr_desc = 5 ∷ []; n = negsuc 0 } ∷ []; time = 10 }

remove_entry-on_new_entry_example :
    get_addr_desc_transactions
      (remove_entry_from_mempool (on_new_entry old_mempool (2 ∷ []) new_entry) (2 ∷ []) new_entry)
      (5 ∷ [])
    ≡ get_addr_desc_transactions old_mempool (5 ∷ [])
unfolding others outpoints lookup bytes_eq
remove_entry-on_new_entry_example =
    remove_entry-on_new_entry old_mempool (2 ∷ []) (5 ∷ []) new_entry refl
