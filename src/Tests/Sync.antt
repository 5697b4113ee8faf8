-- ===== src/Tests/Sync.antt =====
-- The theorems of db/sync.go at an index of hashes that is forked from a node with three blocks.
use organic_blockbook.Prelude.{
  ℕ, zero, suc, ◌+◌, ◌-◌, ◌≡◌, refl, sym, ap, ◌∙◌, arith, false, if◌then◌else◌, List, [], ◌∷◌, ◌++◌,
  Option, none, some, length, get_elem?,
}
use organic_blockbook.Prelude.Int.{pos}
use organic_blockbook.Prelude.Bytes.{
  Bytes, be_bytes, be_value, slice_to, slice_from, bytes_eq, bytes_eq_refl, bytes_eq_ne,
}
use organic_blockbook.Prelude.Maps.{lookup}
use organic_blockbook.Bchain.Types.{Block}
use organic_blockbook.Db.Keys.{pack_uint, unpack_uint}
use organic_blockbook.Db.Keys.Order.{bytes_lt}
use organic_blockbook.Db.Codec.{read_bytes, read_varuint}
use organic_blockbook.Db.Store.{empty_store, get_cf}
use organic_blockbook.Db.Heights.{
  unpack_block_info, get_block_hash, last_entry, best_of, get_best_block,
}
use organic_blockbook.Db.Heights.{insert_height}
use organic_blockbook.Db.Blocks.{connect_block}
use organic_blockbook.Db.Connect.Inputs.{process_addresses}
use organic_blockbook.Db.BlockTxs.{block_txs_of}
use organic_blockbook.Db.BulkConnect.{BulkConnect, init_bulk_connect}
use organic_blockbook.Db.BulkConnect.Closing.{all_taken}
use organic_blockbook.Db.Sync.{
  Answer, found, not_found, Node, IndexDb, SyncWorker, done, resync_index, disconnect_fork,
}
use organic_blockbook.Db.Sync.Index.{rocks_index}
use organic_blockbook.Db.Sync.Connecting.{hashes, last_of, answer_hash, Serves, connect_all}
use organic_blockbook.Db.Sync.Fork.{
  Forked, disconnected, get_elem?-append_right, disconnect_fork_lem,
}
use organic_blockbook.Db.Sync.Planning.{IsDistinct}
use organic_blockbook.Db.Sync.Resync.{
  ending, catch_up, go_on, resync_index-catch_up, resync_index-Forked,
}
use organic_blockbook.Tests.Fixtures.{small_env, fixed_uint, sized}
use mathlib.Core.Option.{some-injective}

from_zero : (n : ℕ) → 0 + n ≡ n
from_zero n = omega arith

abbrev block_at : ℕ → Bytes → Block
block_at height next = record {
  hash = (10 + height) ∷ [];
  next = next;
  height = height;
  time = pos 0;
  size = 0;
  txs = [];
}

abbrev genesis : Block
genesis = block_at 0 (11 ∷ [])

abbrev later : List Block
later = block_at 1 (12 ∷ []) ∷ block_at 2 [] ∷ []

abbrev three_blocks : List Block
three_blocks = genesis ∷ later

-- A node that has the blocks of a list, the first one at height zero.
abbrev answer_block : Bytes → Option Block → Answer Block
answer_block hash none = not_found
answer_block hash (some b) = if bytes_eq b.hash hash then found b else not_found

abbrev serve : List Block → Node
serve blocks = record {
  best_block_hash = some (last_of (hashes blocks));
  best_block_height = some (length blocks - 1);
  block_hash = λ h. answer_hash (get_elem? blocks h);
  block = λ hash h. answer_block hash (get_elem? blocks h);
}

three_blocks-Serves : Serves 0 (serve three_blocks) three_blocks
three_blocks-Serves = record {
  chain = (
    refl,
    λ e. omega (arith, ap length e),
    refl,
    (
      refl,
      λ e. omega (arith, ap length e),
      refl,
      (refl, λ e. omega (arith, ap length e), refl, tt),
    ),
  );
  fits = omega arith;
  best = refl;
  block_hash = λ i. rw (from_zero i) refl;
  block = λ done_blocks rest b split.
      let e : length done_blocks + 0 ≡ 0 + length done_blocks = omega arith in
      let there : get_elem? three_blocks (0 + length done_blocks) ≡ some b =
        ap (get_elem? three_blocks) (sym e)
        ∙ ap (λ l. get_elem? l (length done_blocks + 0)) split
        ∙ get_elem?-append_right done_blocks (b ∷ rest) 0 in
      ap (answer_block b.hash) there ∙ rw (bytes_eq_refl b.hash);
  end = refl;
}

hash_at : (i : ℕ) (b : Block) → get_elem? three_blocks i ≡ some b → b.hash ≡ (10 + i) ∷ []
hash_at zero b e = ap (λ c. c.hash) (sym (some-injective genesis b e))
hash_at (suc zero) b e = ap (λ c. c.hash) (sym (some-injective (block_at 1 (12 ∷ [])) b e))
hash_at (suc (suc zero)) b e = ap (λ c. c.hash) (sym (some-injective (block_at 2 []) b e))
hash_at (suc (suc (suc i))) b e = ground arith

abbrev first_byte : Bytes → ℕ
first_byte [] = 0
first_byte (x ∷ xs) = x

three_blocks-IsDistinct : IsDistinct three_blocks
three_blocks-IsDistinct i j b c at_i at_j e =
    omega (arith, ap first_byte (sym (hash_at i b at_i) ∙ e ∙ hash_at j c at_j))

-- A database, and the rows that it holds of the column height: the genesis block, and a block that
-- the node does not have, for whose disconnection the data is not there.
abbrev index : IndexDb
index = rocks_index small_env [] [] all_taken

abbrev info_row : Bytes → Bytes
info_row hash = hash ++ (pack_uint 0 ++ (be_bytes 8 0 ++ be_bytes 8 0))

abbrev behind : BulkConnect
behind = init_bulk_connect (record empty_store { heights = (pack_uint 0, info_row (10 ∷ [])) ∷ [] })

abbrev stale : BulkConnect
stale = init_bulk_connect (record empty_store {
  heights = (pack_uint 0, info_row (10 ∷ [])) ∷ (pack_uint 1, info_row (5 ∷ [])) ∷ [];
})

stale-held :
    (k : ℕ) (h : Bytes)
    → get_elem? ((10 ∷ []) ∷ (5 ∷ []) ∷ []) k ≡ some h
    → index.block_hash stale (0 + (0 + k)) ≡ some h
unfolding init_bulk_connect get_block_hash unpack_block_info get_cf lookup pack_uint be_bytes
    bytes_eq read_bytes slice_to slice_from unpack_uint read_varuint fixed_uint sized
stale-held zero h e = e
stale-held (suc zero) h e = e
stale-held (suc (suc k)) h e = ground arith

stale-Forked :
    Forked index 0 (serve three_blocks) three_blocks [] later genesis ((5 ∷ []) ∷ []) stale
stale-Forked = record {
  serves = three_blocks-Serves;
  split = refl;
  some_hash = λ e. omega (arith, ap length e);
  held = stale-held;
  foreign = (
    (
      λ e. omega (arith, ap length e),
      λ i b at. bytes_eq_ne (5 ∷ []) b.hash λ e. omega (arith, ap first_byte (e ∙ hash_at i b at)),
    ),
    tt,
  );
  fits = omega arith;
}

abbrev idle_worker : SyncWorker
idle_worker = record {
  sync_workers = 8;
  sync_chunk = 100;
  dry_run = false;
  start_height = 0;
  start_hash = [];
}

behind-best : index.best_block behind ≡ some (0 + 0, 10 ∷ [])
unfolding init_bulk_connect get_best_block unpack_block_info last_entry pack_uint be_bytes bytes_lt
    unpack_uint read_bytes slice_to slice_from read_varuint fixed_uint sized be_value best_of
behind-best = refl

stale-best : index.best_block stale ≡ some (0 + (0 + suc 0), 5 ∷ [])
unfolding init_bulk_connect get_best_block unpack_block_info last_entry pack_uint be_bytes bytes_lt
    unpack_uint read_bytes slice_to slice_from read_varuint fixed_uint sized be_value best_of
stale-best = refl

-- Both blocks above the genesis block are connected.
both_connected : (connect_all index later behind).0 ≡ done
unfolding connect_block insert_height process_addresses block_txs_of
both_connected = refl

resync_index-catch_up_example :
    ending index (resync_index index 1 4 (λ _. serve three_blocks) none false idle_worker behind)
    ≡ catch_up index later behind
resync_index-catch_up_example =
    resync_index-catch_up index 0 (serve three_blocks) three_blocks three_blocks-Serves
      three_blocks-IsDistinct [] genesis later idle_worker behind 0 4 none refl behind-best
      (omega arith)

resync_index-Forked_example :
    ending index (resync_index index 2 4 (λ _. serve three_blocks) none false idle_worker stale)
    ≡ go_on index
        (serve three_blocks)
        1
        4
        none
        idle_worker
        stale
        (index.disconnect_block_range stale (0 + 0 + 1) (0 + (0 + suc 0)))
resync_index-Forked_example =
    resync_index-Forked index 0 (serve three_blocks) three_blocks three_blocks-Serves
      three_blocks-IsDistinct [] genesis later (5 ∷ []) [] idle_worker stale 1 4 none stale-Forked
      stale-best (omega arith)

disconnect_fork_lem_example :
    disconnect_fork index 1 (serve three_blocks) stale (0 + (0 + 1))
    ≡ disconnected index 0 (index.disconnect_block_range stale (0 + 0 + 1) (0 + (0 + 1))) stale
disconnect_fork_lem_example =
    disconnect_fork_lem index 0 (serve three_blocks) three_blocks [] later genesis ((5 ∷ []) ∷ [])
      stale 1 stale-Forked (λ e. omega (arith, ap length e)) (omega arith)
