-- ===== src/Db/Sync.antt =====
-- db/sync.go: the worker that brings the index to the chain of the node.
pub mod Connecting
pub mod Fork
pub mod Index
pub mod Planning
pub mod Resync
use organic_blockbook.Prelude.{
  ℕ, zero, suc, ◌+◌, ◌-◌, ◌%◌, ◌^◌, Bool, true, false, ◌&&◌, ltb, leb, ◌==◌, if◌then◌else◌, List,
  [], ◌∷◌, Option, none, some, ◌⊎◌, inl, inr,
}
use organic_blockbook.Prelude.Bytes.{Bytes, bytes_eq}
use organic_blockbook.Bchain.Types.{Block}

-- What the node answers to a request: a value, ErrBlockNotFound, or another error.
pub data Answer {ℓ} (A : Type ℓ) : Type ℓ where
  found : A → Answer A
  not_found : Answer A
  failed : Answer A

-- bchain.BlockChain as package db calls it, at one moment; `none` is an error.
pub record Node : Type 0 where
  pub best_block_hash : Option Bytes
  pub best_block_height : Option ℕ
  pub block_hash : ℕ → Answer Bytes
  pub block : Bytes → ℕ → Answer Block

-- The database as the worker uses it; `none` is an error. The empty hash stands for no block. The
-- bulk operations are those of db/bulkconnect.go.
pub record IndexDb : Type 1 where
  pub State : Type 0
  pub best_block : State → Option (ℕ × Bytes)
  pub block_hash : State → ℕ → Option Bytes
  pub connect_block : State → Block → Option State
  pub disconnect_block_range : State → ℕ → ℕ → Option State
  pub keep_block_addresses : ℕ
  pub init_bulk_connect : State → Option State
  pub bulk_connect_block : State → Block → Bool → Option State
  pub close_bulk : State → Option State

-- `never_ends` is a request that is repeated as long as it fails, `fatal` ends the process, `panic`
-- is a nil dereference.
pub data SyncError : Type 0 where
  node_failed db_failed interrupted remote_best_height : SyncError
  never_ends fatal panic out_of_fuel : SyncError

-- How a synchronisation ends: with changes, with the flag errSynced, or with an error.
pub data SyncResult : Type 0 where
  done synced : SyncResult
  error : SyncError → SyncResult

pub record SyncWorker : Type 0 where
  pub sync_workers : ℕ
  pub sync_chunk : ℕ
  pub dry_run : Bool
  pub start_height : ℕ
  pub start_hash : Bytes

abbrev pub uint32_pred : ℕ → ℕ
uint32_pred h = (h + 2 ^ 32 - 1) % 2 ^ 32

module _ (D : IndexDb) where
  pub record Outcome : Type 0 where
    pub result : SyncResult
    pub worker : SyncWorker
    pub state : D.State

  abbrev pub ended : SyncResult → SyncWorker → D.State → Outcome
  ended r w s = record { result = r; worker = w; state = s }

  -- The consumer of connectBlocks at a signal: with no block so far, its log line fails.
  unfoldable pub interrupt : ℕ → SyncError
  interrupt zero = panic
  interrupt (suc n) = interrupted

  -- connectBlocks and getBlockChain: block by block from a hash and a height, as long as the node
  -- has the next one. `signal` is the number of blocks after which an initial synchronisation is
  -- interrupted.
  unfoldable pub connect_chain :
      ℕ → Node → Option ℕ → ℕ → Bytes → ℕ → D.State → SyncResult × D.State
  unfolding interrupt
  connect_chain zero node signal n hash height s = (error out_of_fuel, s)
  connect_chain (suc fuel) node signal n hash height s =
      if elim signal [ none ↦ false | some k ↦ k == n ]
      then (error (interrupt n), s)
      else elim (node.block hash height) [
        | failed ↦ (error node_failed, s)
        | not_found ↦ (done, s)
        | found b ↦ elim (D.connect_block s b) [
          | none ↦ (error db_failed, s)
          | some s' ↦ connect_chain fuel node signal (suc n) b.next ((height + 1) % 2 ^ 32) s'
        ]
      ]

  unfoldable pub connect_blocks : ℕ → Node → Option ℕ → Bool → SyncWorker → D.State → Outcome
  unfolding connect_chain
  connect_blocks fuel node signal initial_sync w s =
      let (r, s') =
        connect_chain fuel node (if initial_sync then signal else none) 0 w.start_hash
          w.start_height s in
      ended r w s'

  -- The writer of ConnectBlocksParallel takes the blocks in the order of their heights, whatever
  -- worker fetched them; a request that fails is repeated. `n` blocks are left; the signal comes
  -- when so many are.
  unfoldable pub connect_bulk : ℕ → Node → Option ℕ → ℕ → ℕ → D.State → SyncResult × D.State
  connect_bulk zero node signal height higher s = (done, s)
  connect_bulk (suc n) node signal height higher s =
      if elim signal [ none ↦ false | some k ↦ k == n ]
      then (error interrupted, s)
      else elim (node.block_hash height) [
        | failed ↦ (error never_ends, s)
        | not_found ↦ (error never_ends, s)
        | found hash ↦ elim (node.block hash height) [
          | failed ↦ (error never_ends, s)
          | not_found ↦ (error never_ends, s)
          | found b ↦
              if b.height == height
              then elim (D.bulk_connect_block s b
                  (ltb higher ((b.height + D.keep_block_addresses) % 2 ^ 32))) [
                    | none ↦ (error fatal, s)
                    | some s' ↦ connect_bulk n node signal ((height + 1) % 2 ^ 32) higher s'
                  ]
              else (error fatal, s)
        ]
      ]

  -- In a dry run the blocks are fetched and dropped, which is left out: nothing is connected. The
  -- error of Close is only logged; so is that of InitBulkConnect, and the writer then uses a nil
  -- pointer.
  unfoldable pub close_bulk_connect : SyncResult × D.State → SyncResult × D.State
  close_bulk_connect (r, s) = elim (D.close_bulk s) [ none ↦ (r, s) | some s' ↦ (r, s') ]

  unfoldable pub connect_blocks_parallel :
      Node → Option ℕ → SyncWorker → ℕ → ℕ → D.State → SyncResult × D.State
  unfolding connect_bulk close_bulk_connect
  connect_blocks_parallel node signal w lower higher s = elim (D.init_bulk_connect s) [
    | none ↦ (error panic, s)
    | some s' ↦
        if w.dry_run
        then close_bulk_connect (done, s')
        else close_bulk_connect (connect_bulk (higher + 1 - lower) node signal lower higher s')
  ]

  -- The loop of handleFork, from a height down: the first height at which the index has no block or
  -- the node's. Heights are uint32, so below zero stands the greatest height.
  unfoldable pub fork_height : ℕ → Node → D.State → ℕ → SyncError ⊎ ℕ
  fork_height zero node s height = inl out_of_fuel
  fork_height (suc fuel) node s height = elim (D.block_hash s height) [
    | none ↦ inl db_failed
    | some local ↦
        let lower = fork_height fuel node s (uint32_pred height) in
        if bytes_eq local [] then inr height else elim (node.block_hash height) [
          | failed ↦ inl node_failed
          | not_found ↦ lower
          | found remote ↦ if bytes_eq local remote then inr height else lower
        ]
  ]

  -- The index without the blocks that the node does not have; `none` on success.
  unfoldable pub disconnect_fork : ℕ → Node → D.State → ℕ → Option SyncError × D.State
  unfolding fork_height
  disconnect_fork fuel node s local_best_height =
      elim (fork_height fuel node s (uint32_pred local_best_height)) [
        | inl e ↦ (some e, s)
        | inr height ↦ elim (D.disconnect_block_range s ((height + 1) % 2 ^ 32) local_best_height) [
          | none ↦ (some db_failed, s)
          | some s' ↦ (none, s')
        ]
      ]

  -- What resyncIndex does next: it is done, it found a fork, or it connects blocks.
  pub data Plan : Type 0 where
    stop : SyncResult → Plan
    fork : ℕ → Plan
    advance : ℕ → Plan

  unfoldable pub plan : Node → SyncWorker → D.State → Plan
  plan node w s = elim node.best_block_hash [
    | none ↦ stop (error node_failed)
    | some remote_best ↦ elim (D.best_block s) [
      | none ↦ stop (error db_failed)
      | some (height, hash) ↦
          if bytes_eq hash remote_best
          then stop synced
          else if bytes_eq hash []
          then advance w.start_height
          else elim (node.block_hash height) [
            | failed ↦ stop (error node_failed)
            | not_found ↦ fork height
            | found remote ↦
                if bytes_eq hash remote then advance ((height + 1) % 2 ^ 32) else fork height
          ]
    ]
  ]

  -- Whether an initial synchronisation fetches blocks in parallel: the height up to which it does.
  unfoldable pub parallel_to : Node → Bool → SyncWorker → SyncError ⊎ Option ℕ
  parallel_to node initial_sync w =
      if ltb 1 w.sync_workers && initial_sync
      then elim node.best_block_height [
        | none ↦ inl node_failed
        | some best ↦
            if ltb best w.start_height
            then inl remote_best_height
            else inr (if ltb w.sync_chunk (best - w.start_height) then some best else none)
      ]
      else inr none

  -- resyncIndex and handleFork. The node of each call is given by the fuel that is left; within a
  -- call it does not change.
  unfoldable pub resync_index :
      ℕ → ℕ → (ℕ → Node) → Option ℕ → Bool → SyncWorker → D.State → Outcome
  unfolding plan disconnect_fork parallel_to connect_blocks connect_blocks_parallel
  resync_index zero steps node signal initial_sync w s = ended (error out_of_fuel) w s
  resync_index (suc fuel) steps node signal initial_sync w s = elim (plan (node fuel) w s) [
    | stop r ↦ ended r w s
    | fork height ↦
        let (o, s') = disconnect_fork steps (node fuel) s height in
        elim o [
          | some e ↦ ended (error e) w s'
          | none ↦ resync_index fuel steps node signal initial_sync w s'
        ]
    | advance start ↦
        let w = record w { start_height = start } in
        elim ((node fuel).block_hash start) [
          | failed ↦ ended (error node_failed) w s
          | not_found ↦ ended (error node_failed) w s
          | found hash ↦
              let w = record w { start_hash = hash } in
              elim (parallel_to (node fuel) initial_sync w) [
                | inl e ↦ ended (error e) w s
                | inr none ↦ connect_blocks steps (node fuel) signal initial_sync w s
                | inr (some best) ↦
                    let (r, s') = connect_blocks_parallel (node fuel) signal w start best s in
                    elim r [
                      | error e ↦ ended (error e) w s'
                      | _ ↦ resync_index fuel steps node signal initial_sync w s'
                    ]
              ]
        ]
  ]
