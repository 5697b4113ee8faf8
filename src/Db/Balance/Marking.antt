-- ===== src/Db/Balance/Marking.antt =====
-- Marking a spent output: the indexed search finds what the linear one finds, as long as the outputs
-- of one transaction stand together.
use organic_blockbook.Prelude.{
  ℕ, zero, suc, ◌≡◌, ◌⊎◌, inl, inr, refl, sym, ap, ◌∙◌, arith, List, [], ◌∷◌, ◌++◌, Option, none,
  some, Bool-cases, true, false,
}
use organic_blockbook.Prelude.Int.{ℤ}
use organic_blockbook.Prelude.Bytes.{Bytes, bytes_eq, bytes_eq_iff}
use mathlib.Core.Path.{subst}
use organic_blockbook.Db.Balance.{
  Utxo, AddrBalance, is_outpoint, mark_scan, mark_from, mark_indexed, find_and_mark, minus_one,
  scan_utxo,
}
use organic_blockbook.Db.Balance.Index.{IsIndexed, first_index}

-- No output of the transaction.
abbrev pub IsAbsent : Bytes → List Utxo → Type 0
IsAbsent btx_id [] = Unit
IsAbsent btx_id (u ∷ us) = (bytes_eq u.btx_id btx_id ≡ false) × IsAbsent btx_id us

-- The outputs of the transaction stand at the front, and no other of them behind.
abbrev pub IsRun : Bytes → List Utxo → Type 0
IsRun btx_id [] = Unit
IsRun btx_id (u ∷ us) =
    ((bytes_eq u.btx_id btx_id ≡ true) × IsRun btx_id us)
    ⊎ ((bytes_eq u.btx_id btx_id ≡ false) × IsAbsent btx_id us)

-- The outputs of each transaction stand together.
abbrev pub IsGrouped : List Utxo → Type 0
IsGrouped [] = Unit
IsGrouped (u ∷ us) = IsRun u.btx_id us × IsGrouped us

module _ (btx_id : Bytes) (vout : ℤ) where
  mark_absent :
      (us : List Utxo)
      → IsAbsent btx_id us
      → (mark_scan btx_id vout us ≡ none) × (mark_from zero btx_id vout us ≡ none)
  unfolding mark_scan mark_from is_outpoint
  mark_absent [] h = (refl, refl)
  mark_absent (u ∷ us) (other, h) = ground (arith, mark_absent us h)

  mark_run :
      (us : List Utxo) → IsRun btx_id us → mark_from zero btx_id vout us ≡ mark_scan btx_id vout us
  unfolding mark_scan mark_from is_outpoint
  mark_run [] h = refl
  mark_run (u ∷ us) (inl (same, h)) = ground (arith, mark_run us h)
  mark_run (u ∷ us) (inr (other, h)) = ground (arith, mark_absent us h)

abbrev shifted : Option ℕ → Option ℕ
shifted none = none
shifted (some i) = some (suc i)

first_index-suc :
    (i : ℕ) (btx_id : Bytes) (us : List Utxo)
    → first_index (suc i) btx_id us ≡ shifted (first_index i btx_id us)
unfolding first_index
first_index-suc i btx_id [] = refl
first_index-suc i btx_id (u ∷ us) = ground (arith, first_index-suc (suc i) btx_id us)

abbrev behind : Utxo → Option (List Utxo) → Option (List Utxo)
behind u none = none
behind u (some us) = some (u ∷ us)

behind_elim :
    (u : Utxo) (o : Option (List Utxo))
    → behind u o ≡ elim o [ none ↦ none | some vs ↦ some (u ∷ vs) ]
behind_elim u none = refl
behind_elim u (some us) = refl

module _ (btx_id : Bytes) (vout : ℤ) where
  mark_indexed-shifted :
      (o : Option ℕ) (u : Utxo) (us : List Utxo)
      → mark_indexed (shifted o) btx_id vout (u ∷ us) ≡ behind u (mark_indexed o btx_id vout us)
  unfolding mark_indexed mark_from
  mark_indexed-shifted none u us = refl
  mark_indexed-shifted (some i) u us = ground arith

  mark_scan-other :
      (u : Utxo) (us : List Utxo)
      → bytes_eq u.btx_id btx_id ≡ false
      → mark_scan btx_id vout (u ∷ us) ≡ behind u (mark_scan btx_id vout us)
  unfolding mark_scan is_outpoint
  mark_scan-other u us other = ground arith

  mark_indexed-first_index :
      (us : List Utxo)
      → IsGrouped us
      → mark_indexed (first_index 0 btx_id us) btx_id vout us ≡ mark_scan btx_id vout us
  unfolding first_index
  mark_indexed-first_index [] h = unfold mark_indexed mark_scan in refl
  mark_indexed-first_index (u ∷ us) (run, h) = elim (Bool-cases (bytes_eq u.btx_id btx_id)) [
    | inl same ↦ rw same (
        unfold mark_indexed in
        mark_run btx_id vout (u ∷ us)
          (inl (same, subst (λ t. IsRun t us) ((bytes_eq_iff _ _).0 same) run)))
    | inr other ↦ rw other (
        ap (λ o. mark_indexed o btx_id vout (u ∷ us)) (first_index-suc 0 btx_id us)
        ∙ mark_indexed-shifted (first_index 0 btx_id us) u us
        ∙ ap (behind u) (mark_indexed-first_index us h)
        ∙ sym (mark_scan-other u us other))
  ]

-- The search by the index marks what the linear search marks, and fails where it fails, for every
-- balance that is indexed and whose outputs of one transaction stand together.
pub find_and_mark_lem :
    (ab : AddrBalance) (btx_id : Bytes) (vout : ℤ)
    → IsIndexed ab
    → IsGrouped ab.utxos
    → find_and_mark ab btx_id vout ≡ mark_scan btx_id vout ab.utxos
unfolding find_and_mark
find_and_mark_lem ab btx_id vout (inl n) grouped = rw n
find_and_mark_lem ab btx_id vout (inr (_, right)) grouped =
    rw (right btx_id, mark_indexed-first_index btx_id vout ab.utxos grouped) (ground arith)

-- What a marked list is: the first output of the outpoint has the number -1 in its place.
pub record IsMarked (btx_id : Bytes) (vout : ℤ) (us vs : List Utxo) : Type 0 where
  pub before : List Utxo
  pub spent : Utxo
  pub after : List Utxo
  pub was : us ≡ before ++ spent ∷ after
  pub is : vs ≡ before ++ record spent { vout = minus_one } ∷ after
  pub outpoint : is_outpoint btx_id vout spent ≡ true
  pub first : scan_utxo btx_id vout before ≡ false

-- The outcome of a search: no output of the outpoint is there, or the first one is marked.
abbrev pub Outcome : Bytes → ℤ → List Utxo → Option (List Utxo) → Type 0
Outcome btx_id vout us none = scan_utxo btx_id vout us ≡ false
Outcome btx_id vout us (some vs) = IsMarked btx_id vout us vs

module _ (btx_id : Bytes) (vout : ℤ) where
  Outcome-behind :
      (u : Utxo) (us : List Utxo) (o : Option (List Utxo))
      → is_outpoint btx_id vout u ≡ false
      → Outcome btx_id vout us o
      → Outcome btx_id vout (u ∷ us) (behind u o)
  unfolding scan_utxo
  Outcome-behind u us none e h = rw e h
  Outcome-behind u us (some vs) e h = record {
    before = u ∷ h.before;
    spent = h.spent;
    after = h.after;
    was = ap (λ l. u ∷ l) h.was;
    is = ap (λ l. u ∷ l) h.is;
    outpoint = h.outpoint;
    first = rw e h.first;
  }

  mark_scan-Outcome : (us : List Utxo) → Outcome btx_id vout us (mark_scan btx_id vout us)
  unfolding mark_scan scan_utxo
  mark_scan-Outcome [] = refl
  mark_scan-Outcome (u ∷ us) = elim (Bool-cases (is_outpoint btx_id vout u)) [
    | inl here ↦ rw here (record {
      before = [];
      spent = u;
      after = us;
      was = refl;
      is = refl;
      outpoint = here;
      first = refl;
    })
    | inr there ↦ rw there (
        subst (Outcome btx_id vout (u ∷ us)) (behind_elim u (mark_scan btx_id vout us))
          (Outcome-behind u us (mark_scan btx_id vout us) there (mark_scan-Outcome us)))
  ]

-- markUtxoAsSpent on an indexed balance whose outputs of one transaction stand together marks the
-- first output of the outpoint, in its place, and leaves the rest; it reports that the outpoint is
-- missing exactly where no output has it.
pub find_and_mark-Outcome :
    (ab : AddrBalance) (btx_id : Bytes) (vout : ℤ)
    → IsIndexed ab
    → IsGrouped ab.utxos
    → Outcome btx_id vout ab.utxos (find_and_mark ab btx_id vout)
find_and_mark-Outcome ab btx_id vout indexed grouped =
    rw (find_and_mark_lem ab btx_id vout indexed grouped) (mark_scan-Outcome btx_id vout ab.utxos)
