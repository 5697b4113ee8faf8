-- ===== src/Db/Sync/Connecting.antt =====
-- connectBlocks on a chain that the node serves: the database is given every block of it, in order.
use organic_blockbook.Prelude.{
  ℕ, zero, suc, ◌+◌, ◌%◌, ◌^◌, ◌<◌, ◌≡◌, ◌≢◌, refl, sym, ap, ◌∙◌, arith, List, [], ◌∷◌, ◌++◌,
  Option, none, some, length, length-append, get_elem?, Option-cases, inl, inr,
}
use organic_blockbook.Prelude.Bytes.{Bytes}
use organic_blockbook.Bchain.Types.{Block}
use organic_blockbook.Db.Sync.{
  Answer, found, not_found, Node, IndexDb, SyncResult, done, error, db_failed, connect_chain,
}
use mathlib.Core.List.{append_assoc, append-nil}

abbrev pub hashes : List Block → List Bytes
hashes [] = []
hashes (b ∷ bs) = b.hash ∷ hashes bs

pub hashes-append : (xs ys : List Block) → hashes (xs ++ ys) ≡ hashes xs ++ hashes ys
hashes-append [] ys = refl
hashes-append (x ∷ xs) ys = ap (λ t. x.hash ∷ t) (hashes-append xs ys)

abbrev pub first_hash : List Block → Bytes
first_hash [] = []
first_hash (b ∷ bs) = b.hash

abbrev pub last_of : List Bytes → Bytes
last_of [] = []
last_of (h ∷ []) = h
last_of (h ∷ k ∷ hs) = last_of (k ∷ hs)

abbrev pub answer_hash : Option Block → Answer Bytes
answer_hash none = not_found
answer_hash (some b) = found b.hash

-- Blocks of consecutive heights, each naming the next, the last one none; no hash is empty.
abbrev pub IsChain : ℕ → List Block → Type 0
IsChain height [] = Unit
IsChain height (b ∷ bs) =
    (b.height ≡ height) × (b.hash ≢ []) × (b.next ≡ first_hash bs) × IsChain (height + 1) bs

-- The node has the chain from the height `base` on, and nothing above it.
pub record Serves (base : ℕ) (node : Node) (blocks : List Block) : Type 0 where
  pub chain : IsChain base blocks
  pub fits : base + length blocks + 1 < 2 ^ 32
  pub best : node.best_block_hash ≡ some (last_of (hashes blocks))
  pub block_hash : (i : ℕ) → node.block_hash (base + i) ≡ answer_hash (get_elem? blocks i)
  pub block :
      (done_blocks rest : List Block) (b : Block)
      → blocks ≡ done_blocks ++ b ∷ rest
      → node.block b.hash (base + length done_blocks) ≡ found b
  pub end : node.block [] (base + length blocks) ≡ not_found

module _ (D : IndexDb) where
  -- The blocks of a list connected one after the other, up to the first that the database refuses.
  abbrev pub connect_all : List Block → D.State → SyncResult × D.State
  connect_all [] s = (done, s)
  connect_all (b ∷ bs) s = elim (D.connect_block s b) [
    | none ↦ (error db_failed, s)
    | some s' ↦ connect_all bs s'
  ]

  -- One round per block and one to see that there is no next block are enough.
  pub connect_chain_rest :
      (base : ℕ) (node : Node) (blocks done_blocks rest : List Block) (fuel n height : ℕ)
      (s : D.State)
      → Serves base node blocks
      → blocks ≡ done_blocks ++ rest
      → height ≡ base + length done_blocks
      → IsChain height rest
      → length rest < fuel
      → connect_chain D fuel node none n (first_hash rest) height s ≡ connect_all rest s
  unfolding connect_chain
  connect_chain_rest base node blocks done_blocks rest zero n height s serves split at chain
        enough =
      absurd (omega arith)
  connect_chain_rest base node blocks done_blocks [] (suc fuel) n height s serves split at chain
        enough =
      let whole : blocks ≡ done_blocks = split ∙ append-nil done_blocks in
      let end : node.block [] height ≡ not_found =
        ap (λ h. node.block [] h) (at ∙ ap (λ bs. base + length bs) (sym whole)) ∙ serves.end in
      rw end
  connect_chain_rest base node blocks done_blocks (b ∷ rest) (suc fuel) n height s serves split at
        chain enough =
      let (b_height, some_hash, b_next, chain') = chain in
      let served : node.block b.hash height ≡ found b =
        ap (λ h. node.block b.hash h) at ∙ serves.block done_blocks rest b split in
      let next_height : (height + 1) % 2 ^ 32 ≡ height + 1 =
        omega (arith, serves.fits, ap length split, length-append done_blocks (b ∷ rest)) in
      let next = λ (s' : D.State).
        connect_chain_rest base node blocks (done_blocks ++ b ∷ []) rest fuel (suc n) (height + 1)
          s' serves (split ∙ sym (append_assoc done_blocks (b ∷ []) rest))
          (omega (arith, length-append done_blocks (b ∷ []))) chain' (omega arith) in
      elim (Option-cases (D.connect_block s b)) [
        | inl e ↦ rw (served, connect_chain, connect_all, e)
        | inr (s', e) ↦
            rw (served, connect_chain, connect_all, e, next_height)
              (ap (λ h. connect_chain D fuel node none (suc n) h (height + 1) s') b_next ∙ next s')
      ]
