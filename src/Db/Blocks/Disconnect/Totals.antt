-- ===== src/Db/Blocks/Disconnect/Totals.antt =====
-- Disconnecting an output or an input takes back what connecting it did to a balance.
use organic_blockbook.Prelude.{
  ℕ, ◌≤◌, ◌≡◌, refl, sym, ap, ◌∙◌, arith, Bool, true, false, List, [], ◌∷◌, ◌++◌, All, length, ◌⊎◌,
}
use organic_blockbook.Prelude.Int.{ℤ, pos, negsuc, ◌+ℤ◌, ◌-ℤ◌, ◌≤ℤ◌, pos_part, neg_part, int_laws}
use organic_blockbook.Prelude.Bytes.{bytes_eq_refl}
use mathlib.Core.List.{append-nil}
use mathlib.Core.Path.{subst}
use organic_blockbook.Db.Balance.{
  Utxo, AddrBalance, is_outpoint, int_eq, scan_utxo, mark_scan, minus_one, mark_utxo_as_spent,
  received_sat, add_utxo, no_index, index_from,
}
use organic_blockbook.Db.Balance.Index.{IsIndexed, IsIndexOf, add_utxo-IsIndexed}
use organic_blockbook.Db.Balance.Marking.{IsGrouped, find_and_mark_lem}
use organic_blockbook.Db.BalanceColumn.{is_unspent}
use organic_blockbook.Db.BalanceColumn.RoundTrip.{unspent, add_utxo-SameTotals}
use organic_blockbook.Db.Connect.Outputs.{count_tx, credit}
use organic_blockbook.Db.Connect.Inputs.{debit, reset_negative}
use organic_blockbook.Db.Connect.Ledger.{IsBalanced}
use organic_blockbook.Db.Connect.Debit.{
  Holds, IsNonneg, debit-IsBalanced, mark_scan-Holds, reset_negative_lem, mark_utxo_as_spent_lem,
}
use organic_blockbook.Db.Blocks.Disconnect.{uncount_tx, undo_debit, undo_credit}

cancel_sent : (new old sent value : ℤ) → new +ℤ (sent +ℤ value) ≡ old +ℤ sent → new +ℤ value ≡ old
cancel_sent new old sent value e = omega (int_laws, ap pos_part e, ap neg_part e)

uncount_tx_fields :
    (exist : Bool) (ab : AddrBalance)
    → ((uncount_tx exist ab).balance_sat ≡ ab.balance_sat)
      × ((uncount_tx exist ab).sent_sat ≡ ab.sent_sat)
unfolding uncount_tx
uncount_tx_fields true ab = (refl, refl)
uncount_tx_fields false ab = (refl, refl)

-- Disconnecting the input that was debited last gives the balance and the amount sent that there were
-- before, if the balance was the sum of its unspent outputs, which are indexed, stand together by
-- transaction and hold the output, and no amount is negative.
pub undo_debit-debit :
    (ab : AddrBalance) (u : Utxo) (n : ℕ) (counted exist : Bool)
    → IsIndexed ab
    → IsGrouped ab.utxos
    → All IsNonneg ab.utxos
    → Holds ab.utxos u.btx_id (pos n) u.value_sat
    → IsBalanced ab
    → pos 0 ≤ℤ ab.sent_sat
    → ((undo_debit (debit ab u.btx_id (pos n) u.value_sat counted) u exist).balance_sat
        ≡ ab.balance_sat)
      × ((undo_debit (debit ab u.btx_id (pos n) u.value_sat counted) u exist).sent_sat
          ≡ ab.sent_sat)
unfolding undo_debit received_sat
undo_debit-debit ab u n counted exist indexed grouped amounts held h nonneg =
    let d = debit ab u.btx_id (pos n) u.value_sat counted in
    let (balanced, sent, received) =
      debit-IsBalanced ab u.btx_id n u.value_sat counted indexed grouped amounts held h in
    let (same_balance, same_sent) = uncount_tx_fields exist d in
    let back : d.sent_sat -ℤ u.value_sat ≡ ab.sent_sat =
      ap (λ z. z -ℤ u.value_sat) sent ∙ omega int_laws in
    (
      rw same_balance (
          cancel_sent d.balance_sat ab.balance_sat ab.sent_sat u.value_sat
            (ap (λ z. d.balance_sat +ℤ z) (sym sent) ∙ received)),
      rw (same_sent, back) (reset_negative_lem ab.sent_sat nonneg),
    )

unspent-append : (us vs : List Utxo) → unspent (us ++ vs) ≡ unspent us ++ unspent vs
unfolding unspent
unspent-append [] vs = refl
unspent-append (u ∷ us) vs = ground (arith, unspent-append us vs)

-- The last output of a list, marked as spent.
unspent-marked :
    (us : List Utxo) (u : Utxo) → unspent (us ++ record u { vout = minus_one } ∷ []) ≡ unspent us
unspent-marked us u =
    unspent-append us (record u { vout = minus_one } ∷ [])
    ∙ ap (λ l. unspent us ++ l) gone
    ∙ append-nil (unspent us)
  where
    gone : unspent (record u { vout = minus_one } ∷ []) ≡ []
    gone = unfold unspent is_unspent in refl

int_eq_refl : (z : ℤ) → int_eq z z ≡ true
unfolding int_eq
int_eq_refl (pos n) = ground arith
int_eq_refl (negsuc n) = ground arith

IsIndexed-same :
    (a b : AddrBalance) → b.utxos ≡ a.utxos → b.utxos_map ≡ a.utxos_map → IsIndexed a → IsIndexed b
IsIndexed-same a b us index h =
    subst (λ l. (no_index b.utxos_map ≡ true) ⊎ ((index_from ≤ length l) × IsIndexOf b.utxos_map l))
      (sym us)
      (subst (λ m. (no_index m ≡ true) ⊎ ((index_from ≤ length a.utxos) × IsIndexOf m a.utxos))
        (sym index) h)

-- Counting and uncounting a transaction leave the sums, the outputs and the index.
recounted :
    (exist counted : Bool) (ab : AddrBalance)
    → ((uncount_tx exist (count_tx counted ab)).balance_sat ≡ ab.balance_sat)
      × ((uncount_tx exist (count_tx counted ab)).sent_sat ≡ ab.sent_sat)
      × ((uncount_tx exist (count_tx counted ab)).utxos ≡ ab.utxos)
      × ((uncount_tx exist (count_tx counted ab)).utxos_map ≡ ab.utxos_map)
unfolding uncount_tx count_tx
recounted true true ab = (refl, refl, refl, refl)
recounted true false ab = (refl, refl, refl, refl)
recounted false true ab = (refl, refl, refl, refl)
recounted false false ab = (refl, refl, refl, refl)

module _ (ab : AddrBalance) (u : Utxo) (counted exist : Bool) (indexed : IsIndexed ab)
    (grouped : IsGrouped (ab.utxos ++ u ∷ []))
    (fresh : scan_utxo u.btx_id u.vout ab.utxos ≡ false) where
  credited : AddrBalance
  credited = add_utxo (record ab { balance_sat = ab.balance_sat +ℤ u.value_sat }) u

  credited_utxos : IsIndexed credited × (credited.utxos ≡ ab.utxos ++ u ∷ [])
  unfolding credited
  credited_utxos =
      add_utxo-IsIndexed (record ab { balance_sat = ab.balance_sat +ℤ u.value_sat }) u indexed

  -- Whatever the sums and the number of transactions, the output is found and marked.
  mark_credited :
      (b : AddrBalance)
      → b.utxos ≡ credited.utxos
      → b.utxos_map ≡ credited.utxos_map
      → mark_utxo_as_spent b u.btx_id u.vout
        ≡ record b { utxos = ab.utxos ++ record u { vout = minus_one } ∷ [] }
  mark_credited b us index =
      let (indexed', e) = credited_utxos in
      mark_utxo_as_spent_lem b u.btx_id u.vout (
        find_and_mark_lem b u.btx_id u.vout (IsIndexed-same credited b us index indexed')
          (subst IsGrouped (sym (us ∙ e)) grouped)
        ∙ ap (mark_scan u.btx_id u.vout) (us ∙ e)
        ∙ mark_scan-Holds ab.utxos [] u u.btx_id u.vout here fresh)
    where
      here : is_outpoint u.btx_id u.vout u ≡ true
      here = unfold is_outpoint in rw (bytes_eq_refl u.btx_id, int_eq_refl u.vout)

  -- Disconnecting the output that was credited last gives the balance, the amount sent and the
  -- unspent outputs that there were before, if the balance was not negative, the address had no
  -- index or a right one, the output was not among its outputs, and the outputs of each transaction
  -- stand together.
  pub undo_credit-credit :
      pos 0 ≤ℤ ab.balance_sat
      → ((undo_credit (credit ab u counted) u.btx_id u.vout u.value_sat exist).balance_sat
          ≡ ab.balance_sat)
        × ((undo_credit (credit ab u counted) u.btx_id u.vout u.value_sat exist).sent_sat
            ≡ ab.sent_sat)
        × (unspent (undo_credit (credit ab u counted) u.btx_id u.vout u.value_sat exist).utxos
            ≡ unspent ab.utxos)
  unfolding undo_credit credit credited
  undo_credit-credit nonneg =
      let totals =
        add_utxo-SameTotals (record ab { balance_sat = ab.balance_sat +ℤ u.value_sat }) u in
      let (balance, sent, us, index) = recounted exist counted credited in
      let taken : ((uncount_tx exist (count_tx counted credited)).balance_sat -ℤ u.value_sat)
          ≡ ab.balance_sat =
        ap (λ z. z -ℤ u.value_sat) (balance ∙ totals.balance) ∙ omega int_laws in
      let marked =
        mark_credited
          (record (uncount_tx exist (count_tx counted credited)) {
            balance_sat =
                reset_negative
                  ((uncount_tx exist (count_tx counted credited)).balance_sat -ℤ u.value_sat);
          })
          us index in
      (
        ap (λ (b : AddrBalance). b.balance_sat) marked
            ∙ ap reset_negative taken
            ∙ reset_negative_lem ab.balance_sat nonneg,
        ap (λ (b : AddrBalance). b.sent_sat) marked ∙ sent ∙ totals.sent,
        ap (λ (b : AddrBalance). unspent b.utxos) marked ∙ unspent-marked ab.utxos u,
      )
