-- ===== src/Db/Blocks/Cleanup.antt =====
-- cleanupBlockTxs removes what is too old to be disconnected, and nothing newer.
use organic_blockbook.Prelude.{
  ℕ, zero, suc, ◌-◌, ◌^◌, ◌≤◌, ◌<◌, ◌≡◌, ◌≢◌, refl, sym, ap, ◌∙◌, arith, ltb, ◌==◌, if◌then◌else◌,
  true, Option, none, some, Option-cases, Bool-cases, inl, inr,
}
use organic_blockbook.Prelude.Bytes.{Bytes}
use organic_blockbook.Prelude.Maps.{lookup-delete}
use organic_blockbook.Db.Keys.{pack_uint}
use organic_blockbook.Db.Keys.Order.{be_bytes_order}
use organic_blockbook.Db.Store.{Store, cf_block_txs, get_cf, change_cf}
use organic_blockbook.Db.Blocks.{cleanup_from, cleanup_block_txs}
use native.Mathlib.Decide.{dec_lt}
use native.Mathlib.Nat.{le_refl}

-- The data of a block in the column blockTxs.
abbrev pub block_data : Store → ℕ → Option Bytes
block_data s height = get_cf s cf_block_txs (pack_uint height)

block_data-delete :
    (s : Store) (h k : ℕ)
    → h < 2 ^ 32
    → k < 2 ^ 32
    → block_data (change_cf s cf_block_txs (pack_uint h) none) k
      ≡ (if h == k then none else block_data s k)
unfolding get_cf change_cf pack_uint
block_data-delete s h k hh hk =
    lookup-delete (pack_uint h) (pack_uint k) s.block_txs
    ∙ ap (λ b. if b then none else block_data s k) (be_bytes_order 4 h k hh hk).1

cleanup_from-stop :
    (rh : ℕ) (s : Store) → block_data s (suc rh) ≡ none → cleanup_from (suc rh) s ≡ s
unfolding cleanup_from
cleanup_from-stop rh s e = rw (e, cleanup_from)

cleanup_from-suc :
    (rh : ℕ) (s : Store) {b : Bytes}
    → block_data s (suc rh) ≡ some b
    → cleanup_from (suc rh) s ≡ cleanup_from rh (change_cf s cf_block_txs (pack_uint (suc rh)) none)
unfolding cleanup_from
cleanup_from-suc rh s e = rw (e, cleanup_from)

cleanup_from-none :
    (rh k : ℕ) (s : Store)
    → rh < 2 ^ 32
    → k < 2 ^ 32
    → block_data s k ≡ none
    → block_data (cleanup_from rh s) k ≡ none
unfolding cleanup_from
cleanup_from-none zero k s hr hk h = h
cleanup_from-none (suc rh) k s hr hk h = elim (Option-cases (block_data s (suc rh))) [
  | inl e ↦ rw (cleanup_from-stop rh s e) h
  | inr (b, e) ↦ rw (cleanup_from-suc rh s e) (
      cleanup_from-none rh k (change_cf s cf_block_txs (pack_uint (suc rh)) none) (omega arith) hk
        (block_data-delete s (suc rh) k hr hk ∙ ground arith))
]

cleanup_from_newer :
    (rh k : ℕ) (s : Store) → rh < k → k < 2 ^ 32 → block_data (cleanup_from rh s) k ≡ block_data s k
unfolding cleanup_from
cleanup_from_newer zero k s hr hk = refl
cleanup_from_newer (suc rh) k s hr hk = elim (Option-cases (block_data s (suc rh))) [
  | inl e ↦ rw (cleanup_from-stop rh s e)
  | inr (b, e) ↦ rw (cleanup_from-suc rh s e) (
      cleanup_from_newer rh k (change_cf s cf_block_txs (pack_uint (suc rh)) none) (omega arith) hk
      ∙ block_data-delete s (suc rh) k (omega arith) hk
      ∙ ground arith)
]

-- The blocks from `k` to `rh` all have data.
abbrev pub AllStored : Store → ℕ → ℕ → Type 0
AllStored s k rh = (j : ℕ) → k ≤ j → j ≤ rh → block_data s j ≢ none

cleanup_from_older :
    (rh k : ℕ) (s : Store)
    → 0 < k
    → k ≤ rh
    → rh < 2 ^ 32
    → AllStored s k rh
    → block_data (cleanup_from rh s) k ≡ none
unfolding cleanup_from
cleanup_from_older zero k s pos_k hk hr stored = absurd (omega arith)
cleanup_from_older (suc rh) k s pos_k hk hr stored = elim (Option-cases (block_data s (suc rh))) [
  | inl e ↦ absurd (stored (suc rh) hk (le_refl _) e)
  | inr (b, e) ↦ rw (cleanup_from-suc rh s e) (elim (dec_lt rh k) [
    | yes last ↦
        cleanup_from-none rh k (change_cf s cf_block_txs (pack_uint (suc rh)) none) (omega arith)
          (omega arith) (block_data-delete s (suc rh) k hr (omega arith) ∙ ground arith)
    | no more ↦
        cleanup_from_older rh k (change_cf s cf_block_txs (pack_uint (suc rh)) none) pos_k
          (omega arith) (omega arith)
          λ j kj jr p.
            stored j kj (omega arith)
              (sym (block_data-delete s (suc rh) j hr (omega arith) ∙ ground arith) ∙ p)
  ])
]

-- After the block at `height` the data of every older block, from `height - keep` down to 1, is gone,
-- if there was data at all heights in between.
pub cleanup_block_txs_older :
    (keep height k : ℕ) (s : Store)
    → keep < height
    → height < 2 ^ 32
    → 0 < k
    → k ≤ height - keep
    → AllStored s k (height - keep)
    → block_data (cleanup_block_txs keep height s) k ≡ none
unfolding cleanup_block_txs
cleanup_block_txs_older keep height k s old small pos_k le stored =
    let test : ltb keep height ≡ true = ground arith in
    rw test (cleanup_from_older (height - keep) k s pos_k le (omega arith) stored)

-- The data of the blocks that are to be kept is as before, at every height.
pub cleanup_block_txs_newer :
    (keep height k : ℕ) (s : Store)
    → height < 2 ^ 32
    → k < 2 ^ 32
    → height - keep < k
    → block_data (cleanup_block_txs keep height s) k ≡ block_data s k
unfolding cleanup_block_txs
cleanup_block_txs_newer keep height k s small hk newer = elim (Bool-cases (ltb keep height)) [
  | inl old ↦ rw old (cleanup_from_newer (height - keep) k s newer hk)
  | inr young ↦ rw young
]
