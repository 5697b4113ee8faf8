-- ===== src/Db/Connect/Debit.antt =====
-- The ledger of an address when an input is debited.
use organic_blockbook.Prelude.{
  ℕ, ◌+◌, ◌≡◌, refl, sym, ap, ◌∙◌, arith, Bool, true, false, ◌&&◌, List, [], ◌∷◌, ◌++◌, some, All,
}
use organic_blockbook.Prelude.Int.{ℤ, pos, ◌+ℤ◌, ◌-ℤ◌, ◌≤ℤ◌, int_laws}
use organic_blockbook.Prelude.Bytes.{Bytes, bytes_eq}
use mathlib.Core.Path.{subst}
use organic_blockbook.Db.Codec.{uint32}
use organic_blockbook.Db.Balance.{
  Utxo, AddrBalance, int_eq, is_outpoint, scan_utxo, mark_scan, minus_one, find_and_mark,
  mark_utxo_as_spent, received_sat,
}
use organic_blockbook.Db.Balance.Index.{IsIndexed}
use organic_blockbook.Db.Balance.Marking.{IsGrouped, find_and_mark_lem}
use organic_blockbook.Db.BalanceColumn.{is_unspent}
use organic_blockbook.Db.Connect.Outputs.{count_tx}
use organic_blockbook.Db.Connect.Inputs.{debit, reset_negative}
use organic_blockbook.Db.Connect.Ledger.{
  sum_unspent, sum_unspent-append, sum_unspent_nonneg, IsBalanced,
}

-- The output of an outpoint stands among others, and no output before it has the outpoint.
pub record Holds (us : List Utxo) (btx_id : Bytes) (vout value : ℤ) : Type 0 where
  pub before : List Utxo
  pub spent : Utxo
  pub after : List Utxo
  pub stands : us ≡ before ++ spent ∷ after
  pub outpoint : is_outpoint btx_id vout spent ≡ true
  pub first : scan_utxo btx_id vout before ≡ false
  pub amount : spent.value_sat ≡ value

pub mark_scan-Holds :
    (before after : List Utxo) (spent : Utxo) (btx_id : Bytes) (vout : ℤ)
    → is_outpoint btx_id vout spent ≡ true
    → scan_utxo btx_id vout before ≡ false
    → mark_scan btx_id vout (before ++ spent ∷ after)
      ≡ some (before ++ record spent { vout = minus_one } ∷ after)
unfolding mark_scan scan_utxo
mark_scan-Holds [] after spent btx_id vout here none_before = rw here
mark_scan-Holds (u ∷ before) after spent btx_id vout here none_before =
    ground (arith, mark_scan-Holds before after spent btx_id vout here)

int_eq→eq : (a b : ℤ) → int_eq a b ≡ true → a ≡ b
unfolding int_eq
int_eq→eq a b h = ground arith

abbrev pub IsNonneg : Utxo → Type 0
IsNonneg u = pos 0 ≤ℤ u.value_sat

mark-IsNonneg :
    (before after : List Utxo) (spent : Utxo)
    → All IsNonneg (before ++ spent ∷ after)
    → All IsNonneg (before ++ record spent { vout = minus_one } ∷ after)
mark-IsNonneg [] after spent h = h
mark-IsNonneg (u ∷ before) after spent (hu, h) = (hu, mark-IsNonneg before after spent h)

pub reset_negative_lem : (z : ℤ) → pos 0 ≤ℤ z → reset_negative z ≡ z
unfolding reset_negative
reset_negative_lem z h = ground arith

-- The balance after an input, from the balance with the output marked.
unfoldable settle : AddrBalance → ℤ → AddrBalance
settle m value = record m {
  balance_sat = reset_negative m.balance_sat;
  sent_sat = m.sent_sat +ℤ value;
}

debit-settle :
    (ab : AddrBalance) (btx_id : Bytes) (vout value : ℤ)
    → debit ab btx_id vout value true
      ≡ settle
          (mark_utxo_as_spent (record ab { balance_sat = ab.balance_sat -ℤ value }) btx_id vout)
          value
unfolding debit settle count_tx
debit-settle ab btx_id vout value = refl

pub mark_utxo_as_spent_lem :
    (ab : AddrBalance) (btx_id : Bytes) (vout : ℤ) {vs : List Utxo}
    → find_and_mark ab btx_id vout ≡ some vs
    → mark_utxo_as_spent ab btx_id vout ≡ record ab { utxos = vs }
unfolding mark_utxo_as_spent
mark_utxo_as_spent_lem ab btx_id vout e = rw (e, mark_utxo_as_spent)

and_right : (a b : Bool) → (a && b) ≡ true → b ≡ true
and_right a b h = ground arith

live_sum :
    (u : Utxo) (us : List Utxo) (n : ℕ)
    → u.vout ≡ pos n
    → sum_unspent (u ∷ us) ≡ u.value_sat +ℤ sum_unspent us
unfolding sum_unspent
live_sum u us n e = ground (arith, live_vout u n e)
  where
    live_vout : (u : Utxo) (n : ℕ) → u.vout ≡ pos n → is_unspent u.vout ≡ true
    live_vout u n e = ap is_unspent e ∙ (unfold is_unspent in refl)

module _ (btx_id : Bytes) (n : ℕ) (value : ℤ) where
  module _ (us : List Utxo) (held : Holds us btx_id (pos n) value) where
    open held use {before, spent, after}

    after_marking : List Utxo
    after_marking = before ++ record spent { vout = minus_one } ∷ after

    spent_vout : spent.vout ≡ pos n
    spent_vout = int_eq→eq _ _ (
        unfold is_outpoint in
        and_right (bytes_eq spent.btx_id btx_id) (int_eq spent.vout (pos n)) held.outpoint)

    sum_before_and_after :
        (sum_unspent us ≡ sum_unspent before +ℤ (value +ℤ sum_unspent after))
        × (sum_unspent after_marking ≡ sum_unspent before +ℤ sum_unspent after)
    unfolding after_marking
    sum_before_and_after = (
      ap sum_unspent held.stands
          ∙ sum_unspent-append before (spent ∷ after)
          ∙ ap (λ z. sum_unspent before +ℤ z)
              (live_sum spent after n spent_vout ∙ ap (λ z. z +ℤ sum_unspent after) held.amount),
      sum_unspent-append before (record spent { vout = minus_one } ∷ after)
          ∙ (unfold sum_unspent in refl),
    )

  module _ (ab : AddrBalance) (indexed : IsIndexed ab) (grouped : IsGrouped ab.utxos)
      (amounts : All IsNonneg ab.utxos) (held : Holds ab.utxos btx_id (pos n) value)
      (h : IsBalanced ab) where
    marked : List Utxo
    marked = after_marking ab.utxos held

    taken : AddrBalance
    taken = record ab { balance_sat = ab.balance_sat -ℤ value }

    marking : mark_utxo_as_spent taken btx_id (pos n) ≡ record taken { utxos = marked }
    unfolding taken marked after_marking
    marking = mark_utxo_as_spent_lem taken btx_id (pos n) (
        find_and_mark_lem taken btx_id (pos n) indexed grouped
        ∙ ap (mark_scan btx_id (pos n)) held.stands
        ∙ mark_scan-Holds held.before held.after held.spent btx_id (pos n) held.outpoint held.first)

    new_balance : ab.balance_sat -ℤ value ≡ sum_unspent marked
    unfolding marked
    new_balance =
        let (before_sum, after_sum) = sum_before_and_after ab.utxos held in
        ap (λ z. z -ℤ value) (h ∙ before_sum) ∙ omega int_laws ∙ sym after_sum

    marked_nonneg : pos 0 ≤ℤ sum_unspent marked
    unfolding marked after_marking
    marked_nonneg =
        sum_unspent_nonneg _ (
          mark-IsNonneg held.before held.after held.spent
            (subst (All IsNonneg) held.stands amounts))

    debit_counted :
        IsBalanced (debit ab btx_id (pos n) value true)
        × ((debit ab btx_id (pos n) value true).sent_sat ≡ ab.sent_sat +ℤ value)
        × (received_sat (debit ab btx_id (pos n) value true) ≡ received_sat ab)
    unfolding settle taken received_sat
    debit_counted =
        let e = debit-settle ab btx_id (pos n) value ∙ ap (λ m. settle m value) marking in
        let kept =
          reset_negative_lem (ab.balance_sat -ℤ value)
            (subst (λ z. pos 0 ≤ℤ z) (sym new_balance) marked_nonneg) in
        rw e (kept ∙ new_balance, refl, rw kept (omega int_laws))

-- Debiting an input that spends an output which the balance holds keeps the balance the sum of the
-- unspent outputs, and moves its amount from the balance to what the address has sent, so that what
-- it has received stays the same. The balance is indexed, the outputs of one transaction stand
-- together, and no amount is negative.
pub debit-IsBalanced :
    (ab : AddrBalance) (btx_id : Bytes) (n : ℕ) (value : ℤ) (counted : Bool)
    → IsIndexed ab
    → IsGrouped ab.utxos
    → All (λ u. pos 0 ≤ℤ u.value_sat) ab.utxos
    → (held : Holds ab.utxos btx_id (pos n) value) → IsBalanced ab
    → IsBalanced (debit ab btx_id (pos n) value counted)
      × ((debit ab btx_id (pos n) value counted).sent_sat ≡ ab.sent_sat +ℤ value)
      × (received_sat (debit ab btx_id (pos n) value counted) ≡ received_sat ab)
unfolding debit received_sat
debit-IsBalanced ab btx_id n value true indexed grouped amounts held h =
    debit_counted btx_id n value ab indexed grouped amounts held h
debit-IsBalanced ab btx_id n value false indexed grouped amounts held h =
    debit_counted btx_id n value (record ab { txs = uint32 (ab.txs + 1) }) indexed grouped amounts
      held h
