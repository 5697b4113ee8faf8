-- ===== src/Db/Connect/Ledger.antt =====
-- The ledger of an address: its balance is the sum of its unspent outputs, before and after an output
-- is credited.
use organic_blockbook.Prelude.{
  ◌≡◌, refl, sym, ap, ◌∙◌, arith, Bool, true, false, if◌then◌else◌, List, [], ◌∷◌, ◌++◌, Bool-cases,
  inl, inr, All,
}
use organic_blockbook.Prelude.Int.{ℤ, pos, ◌+ℤ◌, ◌≤ℤ◌, int_laws}
use organic_blockbook.Db.Balance.{Utxo, AddrBalance, add_utxo, received_sat}
use organic_blockbook.Db.Balance.Index.{IsIndexed, add_utxo-IsIndexed}
use organic_blockbook.Db.BalanceColumn.{is_unspent}
use organic_blockbook.Db.BalanceColumn.RoundTrip.{add_utxo-SameTotals}
use organic_blockbook.Db.Connect.Outputs.{count_tx, credit}

-- The sum of the outputs that are not marked as spent.
unfoldable pub sum_unspent : List Utxo → ℤ
unfolding is_unspent
sum_unspent [] = pos 0
sum_unspent (u ∷ us) = if is_unspent u.vout then u.value_sat +ℤ sum_unspent us else sum_unspent us

pub sum_unspent-append :
    (us vs : List Utxo) → sum_unspent (us ++ vs) ≡ sum_unspent us +ℤ sum_unspent vs
unfolding sum_unspent
sum_unspent-append [] vs = omega int_laws
sum_unspent-append (u ∷ us) vs = elim (Bool-cases (is_unspent u.vout)) [
  | inl live ↦ rw (live, sum_unspent-append us vs) (omega int_laws)
  | inr spent ↦ rw spent (sum_unspent-append us vs)
]

-- The sum of the unspent outputs is not negative if no amount is.
pub sum_unspent_nonneg :
    (us : List Utxo) → All (λ u. pos 0 ≤ℤ u.value_sat) us → pos 0 ≤ℤ sum_unspent us
unfolding sum_unspent
sum_unspent_nonneg [] h = omega arith
sum_unspent_nonneg (u ∷ us) (hu, hus) = elim (Bool-cases (is_unspent u.vout)) [
  | inl live ↦ let ih = sum_unspent_nonneg us hus in rw live (omega int_laws)
  | inr spent ↦ rw spent (sum_unspent_nonneg us hus)
]

-- The balance is the sum of the unspent outputs.
abbrev pub IsBalanced : AddrBalance → Type 0
IsBalanced ab = ab.balance_sat ≡ sum_unspent ab.utxos

IsSame : AddrBalance → AddrBalance → Type 0
IsSame a b =
    (b.balance_sat ≡ a.balance_sat)
    × (b.sent_sat ≡ a.sent_sat)
    × (b.utxos ≡ a.utxos)
    × (b.utxos_map ≡ a.utxos_map)

count_tx-IsSame : (counted : Bool) (ab : AddrBalance) → IsSame ab (count_tx counted ab)
unfolding count_tx IsSame
count_tx-IsSame true ab = (refl, refl, refl, refl)
count_tx-IsSame false ab = (refl, refl, refl, refl)

count_tx-IsIndexed :
    (counted : Bool) (ab : AddrBalance) → IsIndexed ab → IsIndexed (count_tx counted ab)
unfolding count_tx
count_tx-IsIndexed true ab h = h
count_tx-IsIndexed false ab h = h

-- On a balance that is indexed, crediting an output that is not marked as spent keeps the balance
-- the sum of the unspent outputs and the index right, and adds its amount to what the address has
-- received, whether or not the transaction was counted before.
pub credit-IsBalanced :
    (ab : AddrBalance) (u : Utxo) (counted : Bool)
    → IsIndexed ab
    → is_unspent u.vout ≡ true
    → IsBalanced ab
    → IsBalanced (credit ab u counted)
      × IsIndexed (credit ab u counted)
      × (received_sat (credit ab u counted) ≡ received_sat ab +ℤ u.value_sat)
unfolding credit received_sat IsSame
credit-IsBalanced ab u counted indexed live h =
    let b : AddrBalance = record ab { balance_sat = ab.balance_sat +ℤ u.value_sat } in
    let (indexed', us) = add_utxo-IsIndexed b u indexed in
    let totals = add_utxo-SameTotals b u in
    let same = count_tx-IsSame counted (add_utxo b u) in
    (
      same.0
          ∙ totals.balance
          ∙ ap (λ z. z +ℤ u.value_sat) h
          ∙ sym (last_value u live)
          ∙ sym (sum_unspent-append ab.utxos (u ∷ []))
          ∙ ap sum_unspent (sym us ∙ sym same.2),
      count_tx-IsIndexed counted (add_utxo b u) indexed',
      rw (same.0, same.1, totals.balance, totals.sent) (omega int_laws),
    )
  where
    last_value :
        (u : Utxo)
        → is_unspent u.vout ≡ true
        → sum_unspent ab.utxos +ℤ sum_unspent (u ∷ []) ≡ sum_unspent ab.utxos +ℤ u.value_sat
    last_value u live = unfold sum_unspent in rw live (omega int_laws)
