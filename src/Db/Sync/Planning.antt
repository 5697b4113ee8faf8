-- ===== src/Db/Sync/Planning.antt =====
-- What resyncIndex decides to do, for an index that is behind the node, empty or forked.
use organic_blockbook.Prelude.{
  ℕ, suc, ◌+◌, ◌%◌, ◌^◌, ◌≡◌, ◌≢◌, refl, sym, ap, ◌∙◌, arith, false, List, [], ◌∷◌, ◌++◌, some,
  length, length-append, get_elem?, All, Option-cases, inl, inr,
}
use organic_blockbook.Prelude.Bytes.{Bytes, bytes_eq, bytes_eq_refl, bytes_eq_ne}
use organic_blockbook.Bchain.Types.{Block}
use organic_blockbook.Db.Sync.{Node, IndexDb, SyncWorker, synced, Plan, stop, fork, advance, plan}
use organic_blockbook.Db.Sync.Connecting.{
  hashes, hashes-append, last_of, answer_hash, IsChain, Serves,
}
use organic_blockbook.Db.Sync.Fork.{IsForeign, Forked, get_elem?-append_right}
use mathlib.Core.Path.{subst}

-- No two blocks of the chain have one hash.
abbrev pub IsDistinct : List Block → Type 0
IsDistinct blocks =
    (i j : ℕ) (b c : Block)
    → get_elem? blocks i ≡ some b
    → get_elem? blocks j ≡ some c
    → b.hash ≡ c.hash
    → i ≡ j

pub last_of-append :
    (xs : List Bytes) (h : Bytes) (hs : List Bytes) → last_of (xs ++ h ∷ hs) ≡ last_of (h ∷ hs)
last_of-append [] h hs = refl
last_of-append (x ∷ []) h hs = refl
last_of-append (x ∷ y ∷ xs) h hs = last_of-append (y ∷ xs) h hs

pub All-last_of {κ} :
    (P : Bytes → Type κ) (h : Bytes) (hs : List Bytes) → All P (h ∷ hs) → P (last_of (h ∷ hs))
All-last_of P h [] (p, ps) = p
All-last_of P h (k ∷ hs) (p, ps) = All-last_of P k hs ps

pub last_block :
    (b : Block) (bs : List Block)
    → (c : Block) × (get_elem? (b ∷ bs) (length bs) ≡ some c) × (last_of (hashes (b ∷ bs)) ≡ c.hash)
last_block b [] = (b, refl, refl)
last_block b (b' ∷ bs) = last_block b' bs

pub IsChain-hash :
    (height : ℕ) (xs : List Block) (b : Block) (ys : List Block)
    → IsChain height (xs ++ b ∷ ys)
    → b.hash ≢ []
IsChain-hash height [] b ys (e, some_hash, next, chain) = some_hash
IsChain-hash height (x ∷ xs) b ys (e, some_hash, next, chain) =
    IsChain-hash (height + 1) xs b ys chain

pub IsChain-rest :
    (height k : ℕ) (xs ys : List Block)
    → k ≡ height + length xs
    → IsChain height (xs ++ ys)
    → IsChain k ys
IsChain-rest height k [] ys e chain = let e' : height ≡ k = omega arith in rw (← e') chain
IsChain-rest height k (x ∷ xs) ys e (_, _, _, chain) =
    IsChain-rest (height + 1) k xs ys (omega arith) chain

last_of-IsChain :
    (height : ℕ) (b : Block) (bs : List Block)
    → IsChain height (b ∷ bs)
    → last_of (hashes (b ∷ bs)) ≢ []
last_of-IsChain height b [] (e, some_hash, next, chain) = some_hash
last_of-IsChain height b (b' ∷ bs) (e, some_hash, next, chain) =
    last_of-IsChain (height + 1) b' bs chain

module _ (D : IndexDb) (base : ℕ) (node : Node) (blocks : List Block)
    (serves : Serves base node blocks) (distinct : IsDistinct blocks) where
  pub best_last :
      (shared : List Block) (b : Block) (new : List Block)
      → blocks ≡ shared ++ b ∷ new
      → node.best_block_hash ≡ some (last_of (hashes (b ∷ new)))
  best_last shared b new split =
      serves.best
      ∙ ap (λ l. some (last_of (hashes l))) split
      ∙ ap (λ l. some (last_of l)) (hashes-append shared (b ∷ new))
      ∙ ap some (last_of-append (hashes shared) b.hash (hashes new))

  pub block_at :
      (shared rest : List Block) (i : ℕ)
      → blocks ≡ shared ++ rest
      → get_elem? blocks (length shared + i) ≡ get_elem? rest i
  block_at shared rest i split =
      ap (λ l. get_elem? l (length shared + i)) split ∙ get_elem?-append_right shared rest i

  pub remote_at :
      (shared rest : List Block) (i : ℕ)
      → blocks ≡ shared ++ rest
      → node.block_hash (base + (length shared + i)) ≡ answer_hash (get_elem? rest i)
  remote_at shared rest i split =
      serves.block_hash (length shared + i) ∙ ap answer_hash (block_at shared rest i split)

  not_best :
      (shared : List Block) (common b : Block) (new : List Block)
      → blocks ≡ shared ++ common ∷ b ∷ new
      → bytes_eq common.hash (last_of (hashes (b ∷ new))) ≡ false
  not_best shared common b new split = bytes_eq_ne common.hash (last_of (hashes (b ∷ new))) λ same.
      let (c, at, e) = last_block b new in
      let i =
        distinct (length shared + 0) (length shared + suc (length new)) common c
          (block_at shared (common ∷ b ∷ new) 0 split)
          (block_at shared (common ∷ b ∷ new) (suc (length new)) split ∙ at) (same ∙ e) in
      omega arith

  abbrev pub next_plan : ℕ → List Block → Plan D
  next_plan height [] = stop synced
  next_plan height (b ∷ new) = advance height

  place : (shared : List Block) → base + length shared ≡ base + (length shared + 0)
  place shared = omega arith

  pub plan-behind :
      (shared : List Block) (common : Block) (new : List Block) (w : SyncWorker) (s : D.State)
      → blocks ≡ shared ++ common ∷ new
      → D.best_block s ≡ some (base + length shared, common.hash)
      → plan D node w s ≡ next_plan (base + length shared + 1) new
  unfolding plan
  plan-behind shared common [] w s split local =
      rw (best_last shared common [] split, plan, local, bytes_eq_refl common.hash)
  plan-behind shared common (b ∷ new) w s split local =
      let some_hash : common.hash ≢ [] =
        IsChain-hash base shared common (b ∷ new) (subst (IsChain base) split serves.chain) in
      let next : (base + length shared + 1) % 2 ^ 32 ≡ base + length shared + 1 =
        omega (arith, serves.fits, ap length split, length-append shared (common ∷ b ∷ new)) in
      rw (
        best_last shared common (b ∷ new) split,
        plan,
        local,
        not_best shared common b new split,
        bytes_eq_ne common.hash [] some_hash,
        ap node.block_hash (place shared) ∙ remote_at shared (common ∷ b ∷ new) 0 split,
        bytes_eq_refl common.hash,
        next,
      )

  pub plan-empty :
      (b : Block) (new : List Block) (w : SyncWorker) (s : D.State)
      → blocks ≡ b ∷ new
      → D.best_block s ≡ some (0, [])
      → plan D node w s ≡ advance w.start_height
  unfolding plan
  plan-empty b new w s split local =
      let some_hash : last_of (hashes (b ∷ new)) ≢ [] =
        last_of-IsChain base b new (subst (IsChain base) split serves.chain) in
      rw (
        best_last [] b new split,
        plan,
        local,
        bytes_eq_ne [] (last_of (hashes (b ∷ new))) (λ q. some_hash (sym q)),
        bytes_eq_refl [],
      )

  pub plan-Forked :
      (shared : List Block) (common : Block) (new : List Block) (o : Bytes) (old : List Bytes)
      (w : SyncWorker) (s : D.State)
      → Forked D base node blocks shared new common (o ∷ old) s
      → D.best_block s ≡ some (base + (length shared + suc (length old)), last_of (o ∷ old))
      → plan D node w s ≡ fork (base + (length shared + suc (length old)))
  unfolding plan
  plan-Forked shared common new o old w s f local =
      let (c, at, e) = last_block common new in
      let (some_hash, foreign) = All-last_of (IsForeign blocks) o old f.foreign in
      let other : bytes_eq (last_of (o ∷ old)) (last_of (hashes (common ∷ new))) ≡ false =
        ap (bytes_eq (last_of (o ∷ old))) e
        ∙ foreign (length shared + length new) c
            (block_at shared (common ∷ new) (length new) f.split ∙ at) in
      let height = length shared + suc (length old) in
      elim (Option-cases (get_elem? blocks height)) [
        | inl gone ↦ rw (
          best_last shared common new f.split,
          plan,
          local,
          other,
          bytes_eq_ne (last_of (o ∷ old)) [] some_hash,
          serves.block_hash height,
          gone,
        )
        | inr (b, there) ↦ rw (
          best_last shared common new f.split,
          plan,
          local,
          other,
          bytes_eq_ne (last_of (o ∷ old)) [] some_hash,
          serves.block_hash height,
          there,
          foreign height b there,
        )
      ]
