-- ===== src/Db/Connect/Addresses.antt =====
-- addToAddressesMap: which transactions of a block touch an address, and with which inputs (negative
-- numbers) and outputs.
use organic_blockbook.Prelude.{
  Bool, true, false, if◌then◌else◌, List, [], ◌∷◌, ◌++◌, Option, none, some,
}
use organic_blockbook.Prelude.Int.{ℤ}
use organic_blockbook.Prelude.Bytes.{Bytes, bytes_eq}
use organic_blockbook.Prelude.Maps.{Map, lookup, insert}

pub record TxIndexes : Type 0 where
  pub btx_id : Bytes
  pub indexes : List ℤ

abbrev pub AddressesMap : Type 0
AddressesMap = Map (List TxIndexes)

-- The loop over the transactions of an address: the list with the index added to the entry of the
-- transaction, or `none` if it has none.
unfoldable pub add_index : Bytes → ℤ → List TxIndexes → Option (List TxIndexes)
add_index btx_id index [] = none
add_index btx_id index (t ∷ ts) =
    let rest = add_index btx_id index ts in
    if bytes_eq btx_id t.btx_id
    then some (record t { indexes = t.indexes ++ index ∷ [] } ∷ ts)
    else elim rest [ none ↦ none | some us ↦ some (t ∷ us) ]

-- What `addresses[strAddrDesc]` is, `nil` if it is missing.
abbrev pub entries : Option (List TxIndexes) → List TxIndexes
entries none = []
entries (some ts) = ts

-- The flag tells that the transaction was counted for the address before.
unfoldable pub add_to_addresses_map : AddressesMap → Bytes → Bytes → ℤ → AddressesMap × Bool
unfolding add_index
add_to_addresses_map addresses desc btx_id index =
    let at = entries (lookup desc addresses) in
    elim (add_index btx_id index at) [
      | some ts ↦ (insert desc ts addresses, true)
      | none ↦ (
        insert desc (at ++ record { btx_id = btx_id; indexes = index ∷ [] } ∷ []) addresses,
        false,
      )
    ]
