-- ===== src/Db/Sync/Fork.antt =====
-- handleFork: the search for the last block that the index and the node share, and the disconnection
-- of what stands above it.
use organic_blockbook.Prelude.{
  ℕ, zero, suc, ◌+◌, ◌%◌, ◌^◌, ◌≤◌, ◌<◌, ◌≡◌, ◌≢◌, refl, ap, ◌∙◌, arith, false, List, [], ◌∷◌, ◌++◌,
  Option, none, some, length, get_elem?, All, Option-cases, inl, inr,
}
use organic_blockbook.Prelude.Bytes.{Bytes, bytes_eq, bytes_eq_refl, bytes_eq_ne}
use organic_blockbook.Bchain.Types.{Block}
use organic_blockbook.Db.Sync.{
  found, Node, IndexDb, SyncError, db_failed, uint32_pred, fork_height, disconnect_fork,
}
use organic_blockbook.Db.Sync.Connecting.{answer_hash, Serves}
use mathlib.Core.Option.{some-injective}
use mathlib.Core.Path.{subst}

pub get_elem?-append_right {ℓ} :
    {A : Type ℓ} (xs ys : List A) (i : ℕ) → get_elem? (xs ++ ys) (length xs + i) ≡ get_elem? ys i
get_elem?-append_right [] ys i = let e : 0 + i ≡ i = omega arith in ap (get_elem? ys) e
get_elem?-append_right (x ∷ xs) ys i =
    let e : suc (length xs) + i ≡ suc (length xs + i) = omega arith in
    ap (get_elem? (x ∷ (xs ++ ys))) e ∙ get_elem?-append_right xs ys i

get_elem?-lt {ℓ} :
    {A : Type ℓ} (xs : List A) (i : ℕ) → i < length xs → (a : A) × (get_elem? xs i ≡ some a)
get_elem?-lt [] i h = elim h [ ]
get_elem?-lt (x ∷ xs) zero h = (x, refl)
get_elem?-lt (x ∷ xs) (suc i) h = get_elem?-lt xs i (omega arith)

All-get_elem? {ℓ κ} :
    {A : Type ℓ} (P : A → Type κ) (xs : List A) (i : ℕ) (a : A)
    → All P xs
    → get_elem? xs i ≡ some a
    → P a
All-get_elem? P [] i a h e = ground arith
All-get_elem? P (x ∷ xs) zero a (h, hs) e = subst P (some-injective x a e) h
All-get_elem? P (x ∷ xs) (suc i) a (h, hs) e = All-get_elem? P xs i a hs e

-- A hash that is not one of the node's.
abbrev pub IsForeign : List Block → Bytes → Type 0
IsForeign blocks h =
    (h ≢ []) × ((i : ℕ) (b : Block) → get_elem? blocks i ≡ some b → bytes_eq h b.hash ≡ false)

module _ (D : IndexDb) (base : ℕ) where
  -- The index answers with `common`, which the node has after `shared`, and above it with hashes of
  -- blocks that the node does not have; the node goes on with other blocks, if with any.
  pub record Forked (node : Node) (blocks shared new : List Block) (common : Block)
      (old : List Bytes) (s : D.State) : Type 0 where
    pub serves : Serves base node blocks
    pub split : blocks ≡ shared ++ common ∷ new
    pub some_hash : common.hash ≢ []
    pub held :
        (k : ℕ) (h : Bytes)
        → get_elem? (common.hash ∷ old) k ≡ some h
        → D.block_hash s (base + (length shared + k)) ≡ some h
    pub foreign : All (IsForeign blocks) old
    pub fits : base + length shared + length old + 1 < 2 ^ 32

  remote_hash :
      (node : Node) (blocks shared rest : List Block) (i : ℕ)
      → Serves base node blocks
      → blocks ≡ shared ++ rest
      → node.block_hash (base + (length shared + i)) ≡ answer_hash (get_elem? rest i)
  remote_hash node blocks shared rest i serves split =
      serves.block_hash (length shared + i)
      ∙ ap (λ l. answer_hash (get_elem? l (length shared + i))) split
      ∙ ap answer_hash (get_elem?-append_right shared rest i)

  fork_height_shared :
      (node : Node) (blocks shared new : List Block) (common : Block) (old : List Bytes)
      (s : D.State) (k fuel height : ℕ)
      → Forked node blocks shared new common old s
      → height ≡ base + (length shared + k)
      → k ≤ length old
      → k < fuel
      → fork_height D fuel node s height ≡ inr (base + length shared)
  unfolding fork_height
  fork_height_shared node blocks shared new common old s k zero height f at few enough =
      absurd (omega arith)
  fork_height_shared node blocks shared new common old s zero (suc fuel) height f at few enough =
      let local : D.block_hash s height ≡ some common.hash =
        ap (D.block_hash s) at ∙ f.held 0 common.hash refl in
      let remote : node.block_hash height ≡ found common.hash =
        ap node.block_hash at ∙ remote_hash node blocks shared (common ∷ new) 0 f.serves f.split in
      rw
        (
          local,
          fork_height,
          bytes_eq_ne common.hash [] f.some_hash,
          remote,
          bytes_eq_refl common.hash,
        )
        (ap inr (at ∙ omega arith))
  fork_height_shared node blocks shared new common old s (suc k) (suc fuel) height f at few enough =
      let (o, there) = get_elem?-lt old k (omega arith) in
      let (some_o, distinct) = All-get_elem? (IsForeign blocks) old k o f.foreign there in
      let local : D.block_hash s height ≡ some o =
        ap (D.block_hash s) at ∙ f.held (suc k) o there in
      let remote : node.block_hash height ≡ answer_hash (get_elem? blocks (length shared + suc k)) =
        ap node.block_hash at ∙ f.serves.block_hash (length shared + suc k) in
      let lower =
        fork_height_shared node blocks shared new common old s k fuel (uint32_pred height) f
          (omega (arith, f.fits)) (omega arith) (omega arith) in
      elim (Option-cases (get_elem? blocks (length shared + suc k))) [
        | inl e ↦ rw (local, fork_height, bytes_eq_ne o [] some_o, remote, e) lower
        | inr (b, e) ↦
            rw
              (
                local,
                fork_height,
                bytes_eq_ne o [] some_o,
                remote,
                e,
                distinct (length shared + suc k) b e,
              )
              lower
      ]

  -- What handleFork makes of the answer of the database.
  abbrev pub disconnected : Option D.State → D.State → Option SyncError × D.State
  disconnected none s = (some db_failed, s)
  disconnected (some s') s = (none, s')

  -- On an index whose top blocks the node does not have, handleFork finds the last block that the
  -- index and the node share, and asks the database once, to disconnect exactly the blocks above
  -- it: the result is the database's, and an error only if the database refuses. As many rounds as
  -- there are such blocks are enough. There is at least one, none of them is one of the node's,
  -- the index and the node share one below them, and all heights fit 32 bits.
  pub disconnect_fork_lem :
      (node : Node) (blocks shared new : List Block) (common : Block) (old : List Bytes)
      (s : D.State) (fuel : ℕ)
      → Forked node blocks shared new common old s
      → old ≢ []
      → length old ≤ fuel
      → disconnect_fork D fuel node s (base + (length shared + length old))
        ≡ disconnected
            (D.disconnect_block_range s
              (base + length shared + 1)
              (base + (length shared + length old)))
            s
  unfolding disconnect_fork
  disconnect_fork_lem node blocks shared new common [] s fuel f some_old enough =
      absurd (some_old refl)
  disconnect_fork_lem node blocks shared new common (o ∷ old) s fuel f some_old enough =
      let best = base + (length shared + suc (length old)) in
      let fork =
        fork_height_shared node blocks shared new common (o ∷ old) s (length old) fuel
          (uint32_pred best) f (omega (arith, f.fits)) (omega arith) (omega arith) in
      let lower : (base + length shared + 1) % 2 ^ 32 ≡ base + length shared + 1 =
        omega (arith, f.fits) in
      elim (Option-cases (D.disconnect_block_range s (base + length shared + 1) best)) [
        | inl e ↦ rw (fork, disconnect_fork, lower, e)
        | inr (s', e) ↦ rw (fork, disconnect_fork, lower, e)
      ]
