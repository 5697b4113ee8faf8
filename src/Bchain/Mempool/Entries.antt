-- ===== src/Bchain/Mempool/Entries.antt =====
-- What an address shows after a transaction is added to the mempool, or removed from it.
use organic_blockbook.Prelude.{
  Bool, true, false, if◌then◌else◌, List, [], ◌∷◌, ◌++◌, reverse, none, some, ◌≡◌, refl, sym, ap,
  ◌∙◌, arith, Bool-cases, Option-cases, inl, inr,
}
use organic_blockbook.Prelude.Bytes.{Bytes, bytes_eq, bytes_eq_iff, bytes_eq_refl}
use organic_blockbook.Prelude.Maps.{Map, lookup, insert, lookup-insert, lookup-delete}
use organic_blockbook.Bchain.Mempool.{
  AddrIndex, TxEntry, Outpoint, BaseMempool, outpoints, others, put_outpoints, remove_index,
  remove_indexes, remove_entry_from_mempool, add_indexes, on_new_entry, get_addr_desc_transactions,
}
use mathlib.Core.List.{append_assoc, append-nil}

-- The outpoints that a transaction has under an address.
unfoldable pub own_outpoints : Bytes → Bytes → List AddrIndex → List Outpoint
own_outpoints txid d [] = []
own_outpoints txid d (si ∷ sis) =
    if bytes_eq si.addr_desc d
    then record { txid = txid; vout = si.n } ∷ own_outpoints txid d sis
    else own_outpoints txid d sis

unfoldable pub has_desc : Bytes → List AddrIndex → Bool
has_desc d [] = false
has_desc d (si ∷ sis) = if bytes_eq si.addr_desc d then true else has_desc d sis

add_indexes_lem :
    (txid d : Bytes) (sis : List AddrIndex) (m : Map (List Outpoint))
    → outpoints (lookup d (add_indexes txid sis m))
      ≡ outpoints (lookup d m) ++ own_outpoints txid d sis
unfolding add_indexes own_outpoints
add_indexes_lem txid d [] m = sym (append-nil (outpoints (lookup d m)))
add_indexes_lem txid d (si ∷ sis) m =
    let new = outpoints (lookup si.addr_desc m) ++ record { txid = txid; vout = si.n } ∷ [] in
    add_indexes_lem txid d sis (insert si.addr_desc new m)
    ∙ elim (Bool-cases (bytes_eq si.addr_desc d)) [
      | inl same ↦
          let e = (bytes_eq_iff si.addr_desc d).0 same in
          rw (lookup-insert si.addr_desc d new m, same, e)
            (append_assoc (outpoints (lookup d m)) _ (own_outpoints txid d sis))
      | inr other ↦ rw (lookup-insert si.addr_desc d new m, other)
    ]

put_outpoints_lem :
    (k d : Bytes) (os : List Outpoint) (m : Map (List Outpoint))
    → outpoints (lookup d (put_outpoints k os m))
      ≡ (if bytes_eq k d then os else outpoints (lookup d m))
unfolding put_outpoints outpoints
put_outpoints_lem k d [] m = rw (lookup-delete k d m) (ground arith)
put_outpoints_lem k d (o ∷ os) m = rw (lookup-insert k d (o ∷ os) m) (ground arith)

remove_index_lem :
    (txid d : Bytes) (si : AddrIndex) (m : Map (List Outpoint))
    → outpoints (lookup d (remove_index txid si m)) ≡ (
        if bytes_eq si.addr_desc d
        then others txid (outpoints (lookup d m))
        else outpoints (lookup d m))
unfolding others remove_index outpoints bytes_eq
remove_index_lem txid d si m = elim (Option-cases (lookup si.addr_desc m)) [
  | inl e ↦ elim (Bool-cases (bytes_eq si.addr_desc d)) [
    | inl same ↦
        let none_d : lookup d m ≡ none =
          ap (λ k. lookup k m) (sym ((bytes_eq_iff si.addr_desc d).0 same)) ∙ e in
        rw (e, remove_index, same, none_d)
    | inr other ↦ rw (e, remove_index, other)
  ]
  | inr (os, e) ↦ elim (Bool-cases (bytes_eq si.addr_desc d)) [
    | inl same ↦
        let some_d : lookup d m ≡ some os =
          ap (λ k. lookup k m) (sym ((bytes_eq_iff si.addr_desc d).0 same)) ∙ e in
        rw (e, remove_index, put_outpoints_lem si.addr_desc d (others txid os) m, same, some_d)
    | inr other ↦ rw (e, remove_index, put_outpoints_lem si.addr_desc d (others txid os) m, other)
  ]
]

others-others : (txid : Bytes) (os : List Outpoint) → others txid (others txid os) ≡ others txid os
unfolding others
others-others txid [] = refl
others-others txid (o ∷ os) = ground (arith, others-others txid os)

-- Removing a transaction takes its outpoints from each address of its entry, keeps those of the other
-- transactions in their order, and changes nothing for any other address.
pub remove_indexes_lem :
    (txid d : Bytes) (sis : List AddrIndex) (m : Map (List Outpoint))
    → outpoints (lookup d (remove_indexes txid sis m))
      ≡ (if has_desc d sis then others txid (outpoints (lookup d m)) else outpoints (lookup d m))
unfolding remove_indexes has_desc
remove_indexes_lem txid d [] m = refl
remove_indexes_lem txid d (si ∷ sis) m =
    remove_indexes_lem txid d sis (remove_index txid si m)
    ∙ rw (remove_index_lem txid d si m)
        (ground (arith, others-others txid (outpoints (lookup d m))))

others-own :
    (txid d : Bytes) (os : List Outpoint) (sis : List AddrIndex)
    → others txid (os ++ own_outpoints txid d sis) ≡ others txid os
unfolding others own_outpoints
others-own txid d [] [] = refl
others-own txid d [] (si ∷ sis) = ground (arith, others-own txid d [] sis, bytes_eq_refl txid)
others-own txid d (o ∷ os) sis = ground (arith, others-own txid d os sis)

own_outpoints-absent :
    (txid d : Bytes) (sis : List AddrIndex) → has_desc d sis ≡ false → own_outpoints txid d sis ≡ []
unfolding own_outpoints has_desc
own_outpoints-absent txid d [] h = refl
own_outpoints-absent txid d (si ∷ sis) h = ground (arith, own_outpoints-absent txid d sis)

-- Adding a transaction puts its outpoints behind those that each address has, in their order.
pub on_new_entry_lem :
    (m : BaseMempool) (txid d : Bytes) (entry : TxEntry)
    → outpoints (lookup d (on_new_entry m txid entry).addr_desc_to_tx)
      ≡ outpoints (lookup d m.addr_desc_to_tx) ++ own_outpoints txid d entry.addr_indexes
unfolding on_new_entry
on_new_entry_lem m txid d entry = by_indexes entry.addr_indexes refl
  where
    by_indexes :
        (sis : List AddrIndex)
        → entry.addr_indexes ≡ sis
        → outpoints (lookup d (on_new_entry m txid entry).addr_desc_to_tx)
          ≡ outpoints (lookup d m.addr_desc_to_tx) ++ own_outpoints txid d entry.addr_indexes
    by_indexes [] e = rw (e, on_new_entry) (add_indexes_lem txid d [] m.addr_desc_to_tx)
    by_indexes (si ∷ sis) e =
        rw (e, on_new_entry, add_indexes_lem txid d entry.addr_indexes m.addr_desc_to_tx, e)

-- A transaction that is added and then removed leaves every address with the transactions that it
-- showed before, if it was not among them.
pub remove_entry-on_new_entry :
    (m : BaseMempool) (txid d : Bytes) (entry : TxEntry)
    → others txid (outpoints (lookup d m.addr_desc_to_tx)) ≡ outpoints (lookup d m.addr_desc_to_tx)
    → get_addr_desc_transactions
        (remove_entry_from_mempool (on_new_entry m txid entry) txid entry)
        d
      ≡ get_addr_desc_transactions m d
unfolding get_addr_desc_transactions remove_entry_from_mempool
remove_entry-on_new_entry m txid d entry fresh =
    ap reverse {y = outpoints (lookup d m.addr_desc_to_tx)} (
      remove_indexes_lem txid d entry.addr_indexes (on_new_entry m txid entry).addr_desc_to_tx
      ∙ rw (on_new_entry_lem m txid d entry) (elim (Bool-cases (has_desc d entry.addr_indexes)) [
        | inl there ↦ rw there (others-own txid d _ entry.addr_indexes ∙ fresh)
        | inr absent ↦
            rw (absent, own_outpoints-absent txid d entry.addr_indexes absent)
              (append-nil (outpoints (lookup d m.addr_desc_to_tx)))
      ]))
