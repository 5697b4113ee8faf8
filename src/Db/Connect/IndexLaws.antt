-- ===== src/Db/Connect/IndexLaws.antt =====
-- What addToAddressesMap records for each address and transaction.
use organic_blockbook.Prelude.{
  ◌≡◌, refl, ap, ◌∙◌, arith, Bool, true, false, if◌then◌else◌, List, [], ◌∷◌, ◌++◌, Option, none,
  some, Option-cases, ◌&&◌, inl, inr,
}
use organic_blockbook.Prelude.Int.{ℤ}
use organic_blockbook.Prelude.Bytes.{Bytes, bytes_eq, bytes_eq_iff}
use organic_blockbook.Prelude.Maps.{lookup, insert, lookup-insert}
use organic_blockbook.Db.Connect.Addresses.{
  TxIndexes, AddressesMap, add_index, entries, add_to_addresses_map,
}

-- The indexes of a transaction in the list of an address.
unfoldable pub tx_indexes : Bytes → List TxIndexes → List ℤ
tx_indexes btx_id [] = []
tx_indexes btx_id (t ∷ ts) = if bytes_eq btx_id t.btx_id then t.indexes else tx_indexes btx_id ts

unfoldable pub has_tx : Bytes → List TxIndexes → Bool
has_tx btx_id [] = false
has_tx btx_id (t ∷ ts) = if bytes_eq btx_id t.btx_id then true else has_tx btx_id ts

-- The indexes of a transaction under an address.
abbrev pub indexes_of : AddressesMap → Bytes → Bytes → List ℤ
indexes_of m desc btx_id = tx_indexes btx_id (entries (lookup desc m))

-- The new list of an address: with the index in the entry of the transaction, or with a new entry.
unfoldable pub with_index : Bytes → ℤ → List TxIndexes → List TxIndexes
unfolding add_index
with_index btx_id index ts = elim (add_index btx_id index ts) [
  | some us ↦ us
  | none ↦ ts ++ record { btx_id = btx_id; indexes = index ∷ [] } ∷ []
]

add_index-has_tx :
    (btx_id : Bytes) (index : ℤ) (ts : List TxIndexes)
    → has_tx btx_id ts ≡ false
    → (add_index btx_id index ts ≡ none) × (tx_indexes btx_id ts ≡ [])
unfolding add_index has_tx tx_indexes
add_index-has_tx btx_id index [] h = (refl, refl)
add_index-has_tx btx_id index (t ∷ ts) h = ground (arith, add_index-has_tx btx_id index ts)

tx_indexes-with_index :
    (btx_id other : Bytes) (index : ℤ) (ts : List TxIndexes)
    → tx_indexes other (with_index btx_id index ts)
      ≡ (if bytes_eq btx_id other then tx_indexes other ts ++ index ∷ [] else tx_indexes other ts)
unfolding with_index tx_indexes
tx_indexes-with_index btx_id other index [] =
    ground (arith, bytes_eq_iff btx_id other, bytes_eq_iff other btx_id)
tx_indexes-with_index btx_id other index (t ∷ ts) = ground (
  arith,
  tx_indexes-with_index btx_id other index ts,
  bytes_eq_iff btx_id other,
  bytes_eq_iff other btx_id,
  bytes_eq_iff btx_id t.btx_id,
  bytes_eq_iff other t.btx_id,
)

abbrev is_some : Option (List TxIndexes) → Bool
is_some none = false
is_some (some ts) = true

has_tx-add_index :
    (btx_id : Bytes) (index : ℤ) (ts : List TxIndexes)
    → is_some (add_index btx_id index ts) ≡ has_tx btx_id ts
unfolding has_tx add_index
has_tx-add_index btx_id index [] = refl
has_tx-add_index btx_id index (t ∷ ts) = ground (arith, has_tx-add_index btx_id index ts)

add_to_addresses_map_parts :
    (m : AddressesMap) (desc btx_id : Bytes) (index : ℤ)
    → ((add_to_addresses_map m desc btx_id index).0
        ≡ insert desc (with_index btx_id index (entries (lookup desc m))) m)
      × ((add_to_addresses_map m desc btx_id index).1 ≡ has_tx btx_id (entries (lookup desc m)))
unfolding add_to_addresses_map with_index
add_to_addresses_map_parts m desc btx_id index =
    let flag = has_tx-add_index btx_id index (entries (lookup desc m)) in
    elim (Option-cases (add_index btx_id index (entries (lookup desc m)))) [
      | inl e ↦ rw (e, add_to_addresses_map, with_index) (refl, rw e at flag)
      | inr (ts, e) ↦ rw (e, add_to_addresses_map, with_index) (refl, rw e at flag)
    ]

-- addToAddressesMap adds the index behind those that the transaction has under the address, changes
-- nothing for any other address or transaction, and tells whether the transaction was there before.
pub add_to_addresses_map_lem :
    (m : AddressesMap) (desc btx_id : Bytes) (index : ℤ)
    → ((d t : Bytes)
        → indexes_of (add_to_addresses_map m desc btx_id index).0 d t ≡ (
            if bytes_eq desc d && bytes_eq btx_id t
            then indexes_of m d t ++ index ∷ []
            else indexes_of m d t))
      × ((add_to_addresses_map m desc btx_id index).1 ≡ has_tx btx_id (entries (lookup desc m)))
add_to_addresses_map_lem m desc btx_id index = (
  λ d t.
      ap (λ n. indexes_of n d t) (add_to_addresses_map_parts m desc btx_id index).0
      ∙ ap (λ o. tx_indexes t (entries o))
          (lookup-insert desc d (with_index btx_id index (entries (lookup desc m))) m)
      ∙ ground (
        arith,
        tx_indexes-with_index btx_id t index (entries (lookup desc m)),
        bytes_eq_iff desc d,
      ),
  (add_to_addresses_map_parts m desc btx_id index).1,
)
