-- ===== src/Db/Sync/Resync.antt =====
-- resyncIndex against a node whose chain does not change: which blocks the database is given, and
-- how it ends.
use organic_blockbook.Prelude.{
  ℕ, suc, ◌+◌, ◌≤◌, ◌<◌, ◌≡◌, refl, sym, ap, ◌∙◌, arith, false, List, [], ◌∷◌, ◌++◌, Option, none,
  some, length, length-append, inr,
}
use organic_blockbook.Prelude.Bytes.{Bytes}
use organic_blockbook.Bchain.Types.{Block}
use organic_blockbook.Db.Sync.{
  found, Node, IndexDb, SyncWorker, SyncResult, synced, error, db_failed, advance, plan,
  parallel_to, connect_blocks, resync_index, Outcome, ended,
}
use organic_blockbook.Db.Sync.Connecting.{last_of, IsChain, Serves, connect_all, connect_chain_rest}
use organic_blockbook.Db.Sync.Planning.{
  IsDistinct, IsChain-rest, remote_at, plan-behind, plan-empty, plan-Forked,
}
use organic_blockbook.Db.Sync.Fork.{Forked, disconnected, disconnect_fork_lem}
use mathlib.Core.List.{append_assoc}
use mathlib.Core.Path.{subst}

module _ (D : IndexDb) where
  -- How a synchronisation ended, and the database then.
  abbrev pub ending : Outcome D → SyncResult × D.State
  ending o = (o.result, o.state)

  -- What is to be done for an index that lacks the blocks of a list.
  abbrev pub catch_up : List Block → D.State → SyncResult × D.State
  catch_up [] s = (synced, s)
  catch_up (b ∷ bs) s = connect_all D (b ∷ bs) s

  -- The rounds that follow the answer of the database.
  abbrev pub go_on :
      Node → ℕ → ℕ → Option ℕ → SyncWorker → D.State → Option D.State → SyncResult × D.State
  go_on node fuel steps signal w s none = (error db_failed, s)
  go_on node fuel steps signal w s (some s') =
      ending (resync_index D fuel steps (λ _. node) signal false w s')

module _ (D : IndexDb) (base : ℕ) (node : Node) (blocks : List Block)
    (serves : Serves base node blocks) (distinct : IsDistinct blocks) where
  parallel_to_regular : (w : SyncWorker) → parallel_to D node false w ≡ inr none
  unfolding parallel_to
  parallel_to_regular w = ground arith

  connect_blocks-ending :
      (done_blocks : List Block) (b : Block) (new : List Block) (w : SyncWorker) (s : D.State)
      (steps : ℕ) (signal : Option ℕ)
      → blocks ≡ done_blocks ++ b ∷ new
      → w.start_height ≡ base + length done_blocks
      → w.start_hash ≡ b.hash
      → length (b ∷ new) < steps
      → ending D (connect_blocks D steps node signal false w s) ≡ connect_all D (b ∷ new) s
  unfolding connect_blocks
  connect_blocks-ending done_blocks b new w s steps signal split at first enough =
      let rest =
        IsChain-rest base w.start_height done_blocks (b ∷ new) at
          (subst (IsChain base) split serves.chain) in
      rw first (
        connect_chain_rest D base node blocks done_blocks (b ∷ new) steps 0 w.start_height s serves
          split at rest enough)

  resync_index-advance :
      (done_blocks : List Block) (b : Block) (new : List Block) (w : SyncWorker) (s : D.State)
      (fuel steps start : ℕ) (signal : Option ℕ)
      → plan D node w s ≡ advance start
      → blocks ≡ done_blocks ++ b ∷ new
      → start ≡ base + length done_blocks
      → length (b ∷ new) < steps
      → ending D (resync_index D (suc fuel) steps (λ _. node) signal false w s)
        ≡ connect_all D (b ∷ new) s
  unfolding resync_index
  resync_index-advance done_blocks b new w s fuel steps start signal planned split at enough =
      let place : base + length done_blocks ≡ base + (length done_blocks + 0) = omega arith in
      let hash : node.block_hash start ≡ found b.hash =
        ap node.block_hash (at ∙ place)
        ∙ remote_at D base node blocks serves distinct done_blocks (b ∷ new) 0 split in
      let w' : SyncWorker = record w { start_height = start; start_hash = b.hash } in
      rw (planned, resync_index, hash, parallel_to_regular w')
        (connect_blocks-ending done_blocks b new w' s steps signal split at refl enough)

  -- When the best block of the index is a block of the node's chain, a regular synchronisation
  -- ends: at once as synchronised if the node has no block above it; otherwise the database is
  -- given exactly the blocks above it, in their order, and the synchronisation ends without an
  -- error after the last, or with the database's error at the first that this refuses. One round
  -- of resyncIndex is enough, with one step more than the node has blocks. The node's chain does
  -- not change meanwhile, its heights fit 32 bits, and no two of its blocks have one hash.
  pub resync_index-catch_up :
      (shared : List Block) (common : Block) (new : List Block) (w : SyncWorker) (s : D.State)
      (fuel steps : ℕ) (signal : Option ℕ)
      → blocks ≡ shared ++ common ∷ new
      → D.best_block s ≡ some (base + length shared, common.hash)
      → length blocks < steps
      → ending D (resync_index D (suc fuel) steps (λ _. node) signal false w s) ≡ catch_up D new s
  unfolding resync_index
  resync_index-catch_up shared common [] w s fuel steps signal split best enough =
      rw (
        plan-behind D base node blocks serves distinct shared common [] w s split best,
        resync_index,
      )
  resync_index-catch_up shared common (b ∷ new) w s fuel steps signal split best enough =
      resync_index-advance (shared ++ common ∷ []) b new w s fuel steps (base + length shared + 1)
        signal
        (plan-behind D base node blocks serves distinct shared common (b ∷ new) w s split best)
        (split ∙ sym (append_assoc shared (common ∷ []) (b ∷ new)))
        (omega (arith, length-append shared (common ∷ [])))
        (omega (arith, ap length split, length-append shared (common ∷ b ∷ new)))

  -- An index that is empty, and starts at the first height of the node's chain, is given the whole
  -- chain.
  pub resync_index-empty :
      (b : Block) (new : List Block) (w : SyncWorker) (s : D.State) (fuel steps : ℕ)
      (signal : Option ℕ)
      → blocks ≡ b ∷ new
      → w.start_height ≡ base
      → D.best_block s ≡ some (0, [])
      → length blocks < steps
      → ending D (resync_index D (suc fuel) steps (λ _. node) signal false w s)
        ≡ connect_all D blocks s
  resync_index-empty b new w s fuel steps signal e at best enough =
      resync_index-advance [] b new w s fuel steps w.start_height signal
        (plan-empty D base node blocks serves distinct b new w s e best) e (omega arith)
        (omega (arith, ap length e))
      ∙ ap (λ bs. connect_all D bs s) (sym e)

  -- On an index whose best block the node does not have, resyncIndex first asks the database to
  -- disconnect exactly the blocks above the last one that the index and the node share. If the
  -- database refuses, the synchronisation ends with its error and changes nothing; if not, it goes
  -- on with the database that this leaves. As many steps as there are such blocks are enough. None
  -- of these blocks is one of the node's, whose chain does not change meanwhile; all heights fit
  -- 32 bits, and no two blocks of the node have one hash.
  pub resync_index-Forked :
      (shared : List Block) (common : Block) (new : List Block) (o : Bytes) (old : List Bytes)
      (w : SyncWorker) (s : D.State) (fuel steps : ℕ) (signal : Option ℕ)
      → Forked D base node blocks shared new common (o ∷ old) s
      → D.best_block s ≡ some (base + (length shared + suc (length old)), last_of (o ∷ old))
      → suc (length old) ≤ steps
      → ending D (resync_index D (suc fuel) steps (λ _. node) signal false w s)
        ≡ go_on D node fuel steps signal w s (
            D.disconnect_block_range s
              (base + length shared + 1)
              (base + (length shared + suc (length old))))
  unfolding resync_index
  resync_index-Forked shared common new o old w s fuel steps signal f best enough =
      let e =
        disconnect_fork_lem D base node blocks shared new common (o ∷ old) s steps f
          (λ q. omega (arith, ap length q)) enough in
      let planned =
        plan-Forked D base node blocks serves distinct shared common new o old w s f best in
      rw (planned, resync_index)
        (subst
          (λ r.
            ending D (elim r.0 [
              | some x ↦ ended D (error x) w r.1
              | none ↦ resync_index D fuel steps (λ _. node) signal false w r.1
            ])
            ≡ go_on D node fuel steps signal w s answer)
          (sym e) (by_answer answer))
    where
      answer : Option D.State
      answer =
          D.disconnect_block_range s (base + length shared + 1)
            (base + (length shared + suc (length old)))

      by_answer :
          (a : Option D.State)
          → ending D (elim (disconnected D base a s).0 [
            | some x ↦ ended D (error x) w (disconnected D base a s).1
            | none ↦
                resync_index D fuel steps (λ _. node) signal false w (disconnected D base a s).1
          ])
            ≡ go_on D node fuel steps signal w s a
      by_answer none = refl
      by_answer (some s') = refl
