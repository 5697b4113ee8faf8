-- ===== src/Db/Blocks/Range/Sorting.antt =====
-- storeBalancesDisconnect keeps exactly the unspent outputs, and leaves them sorted by height.
use organic_blockbook.Prelude.{ℕ, ◌≤◌, arith, leb, List, [], ◌∷◌, Bool-cases, inl, inr, All}
use organic_blockbook.Db.Balance.{Utxo, AddrBalance}
use organic_blockbook.Db.BalanceColumn.RoundTrip.{unspent}
use organic_blockbook.Db.Blocks.Range.{insert_by_height, sort_by_height, tidy}
use mathlib.Core.List.{Perm}
use mathlib.Core.List.Perm

abbrev pub IsSorted : List Utxo → Type 0
IsSorted [] = Unit
IsSorted (u ∷ us) = All (λ v. u.height ≤ v.height) us × IsSorted us

insert_by_height-perm : (u : Utxo) (us : List Utxo) → Perm (insert_by_height u us) (u ∷ us)
unfolding insert_by_height
insert_by_height-perm u [] = Perm.refl _
insert_by_height-perm u (v ∷ vs) = elim (Bool-cases (leb u.height v.height)) [
  | inl low ↦ rw low (Perm.refl _)
  | inr high ↦ rw high (Perm.trans (Perm.cons v (insert_by_height-perm u vs)) (Perm.swap _ _ _))
]

sort_by_height-perm : (us : List Utxo) → Perm (sort_by_height us) us
unfolding sort_by_height
sort_by_height-perm [] = Perm.refl _
sort_by_height-perm (u ∷ us) =
    Perm.trans (insert_by_height-perm u (sort_by_height us)) (Perm.cons u (sort_by_height-perm us))

insert_by_height-All :
    (n : ℕ) (u : Utxo) (us : List Utxo)
    → n ≤ u.height
    → All (λ v. n ≤ v.height) us
    → All (λ v. n ≤ v.height) (insert_by_height u us)
unfolding insert_by_height
insert_by_height-All n u [] h hs = (h, tt)
insert_by_height-All n u (v ∷ vs) h (hv, hvs) = elim (Bool-cases (leb u.height v.height)) [
  | inl low ↦ rw low (h, (hv, hvs))
  | inr high ↦ rw high (hv, insert_by_height-All n u vs h hvs)
]

All-trans :
    (m n : ℕ) (us : List Utxo) → m ≤ n → All (λ v. n ≤ v.height) us → All (λ v. m ≤ v.height) us
All-trans m n [] h hs = tt
All-trans m n (u ∷ us) h (hu, hus) = (omega arith, All-trans m n us h hus)

insert_by_height-IsSorted :
    (u : Utxo) (us : List Utxo) → IsSorted us → IsSorted (insert_by_height u us)
unfolding insert_by_height
insert_by_height-IsSorted u [] h = (tt, tt)
insert_by_height-IsSorted u (v ∷ vs) (hv, hvs) = elim (Bool-cases (leb u.height v.height)) [
  | inl low ↦
      let le : u.height ≤ v.height = ground arith in
      rw low ((le, All-trans u.height v.height vs le hv), (hv, hvs))
  | inr high ↦
      let le : v.height ≤ u.height = ground arith in
      rw high (insert_by_height-All v.height u vs le hv, insert_by_height-IsSorted u vs hvs)
]

sort_by_height-IsSorted : (us : List Utxo) → IsSorted (sort_by_height us)
unfolding sort_by_height
sort_by_height-IsSorted [] = tt
sort_by_height-IsSorted (u ∷ us) =
    insert_by_height-IsSorted u (sort_by_height us) (sort_by_height-IsSorted us)

-- A balance that is stored after a disconnect has the outputs that are not spent, each as often as
-- before, sorted by the height of their block.
pub tidy_lem :
    (ab : AddrBalance) → Perm (tidy ab).utxos (unspent ab.utxos) × IsSorted (tidy ab).utxos
unfolding tidy
tidy_lem ab = (sort_by_height-perm (unspent ab.utxos), sort_by_height-IsSorted (unspent ab.utxos))
