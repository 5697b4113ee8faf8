-- ===== src/Db/Balance.antt =====
-- db/rocksdb.go: AddrBalance, its unspent outputs, and the index over them that is kept in memory
-- from 16 outputs on. An output that was spent stays in its place with -1 for its number.
pub mod Index
pub mod Marking
use organic_blockbook.Prelude.{
  ℕ, zero, suc, ◌+◌, ◌-◌, ◌==◌, leb, ltb, if◌then◌else◌, Bool, true, false, ◌&&◌, List, [], ◌∷◌,
  ◌++◌, Option, none, some, length, get_elem?,
}
use organic_blockbook.Prelude.Int.{ℤ, pos, negsuc, ◌+ℤ◌}
use organic_blockbook.Prelude.Bytes.{Bytes, bytes_eq}
use organic_blockbook.Prelude.Maps.{Map, lookup, insert}

-- `==` on int32 values
unfoldable pub int_eq : ℤ → ℤ → Bool
int_eq (pos a) (pos b) = a == b
int_eq (pos a) (negsuc b) = false
int_eq (negsuc a) (pos b) = false
int_eq (negsuc a) (negsuc b) = a == b

abbrev pub minus_one : ℤ
minus_one = negsuc 0

pub record Utxo : Type 0 where
  pub btx_id : Bytes
  pub vout : ℤ
  pub height : ℕ
  pub value_sat : ℤ

pub record AddrBalance : Type 0 where
  pub txs : ℕ
  pub sent_sat : ℤ
  pub balance_sat : ℤ
  pub utxos : List Utxo
  pub utxos_map : Map ℕ

abbrev pub empty_balance : AddrBalance
empty_balance = record {
  txs = 0;
  sent_sat = pos 0;
  balance_sat = pos 0;
  utxos = [];
  utxos_map = [];
}

unfoldable pub received_sat : AddrBalance → ℤ
received_sat ab = ab.balance_sat +ℤ ab.sent_sat

unfoldable pub is_outpoint : Bytes → ℤ → Utxo → Bool
unfolding int_eq
is_outpoint btx_id vout u = bytes_eq u.btx_id btx_id && int_eq u.vout vout

-- `len(ab.utxosMap) == 0`
unfoldable pub no_index : Map ℕ → Bool
no_index [] = true
no_index (e ∷ m) = false

-- The linear search of hasUtxo.
unfoldable pub scan_utxo : Bytes → ℤ → List Utxo → Bool
scan_utxo btx_id vout [] = false
scan_utxo btx_id vout (u ∷ us) =
    if is_outpoint btx_id vout u then true else scan_utxo btx_id vout us

-- The search of hasUtxo by the index: only the output that the index points at is looked at.
unfoldable pub indexed_utxo : ℤ → List Utxo → Option ℕ → Bool
unfolding int_eq
indexed_utxo vout us none = false
indexed_utxo vout us (some i) = elim (get_elem? us i) [ none ↦ false | some u ↦ int_eq u.vout vout ]

unfoldable pub has_utxo : AddrBalance → Bytes → ℤ → Bool
unfolding scan_utxo indexed_utxo no_index
has_utxo ab btx_id vout =
    if no_index ab.utxos_map
    then scan_utxo btx_id vout ab.utxos
    else indexed_utxo vout ab.utxos (lookup btx_id ab.utxos_map)

-- `if _, e := ab.utxosMap[s]; !e { ab.utxosMap[s] = i }`
unfoldable pub insert_absent : Bytes → ℕ → Map ℕ → Map ℕ
insert_absent s i m = elim (lookup s m) [ none ↦ insert s i m | some j ↦ m ]

-- The loop of addUtxo that builds the index, from position `i` on.
unfoldable pub index_utxos : ℕ → List Utxo → Map ℕ → Map ℕ
unfolding insert_absent
index_utxos i [] m = m
index_utxos i (u ∷ us) m = index_utxos (suc i) us (insert_absent u.btx_id i m)

abbrev pub index_from : ℕ
index_from = 16

unfoldable pub add_utxo : AddrBalance → Utxo → AddrBalance
unfolding no_index index_utxos insert_absent
add_utxo ab u =
    let us = ab.utxos ++ u ∷ [] in
    let l = length us in
    if leb index_from l
    then (if no_index ab.utxos_map
        then record ab { utxos = us; utxos_map = index_utxos 0 us [] }
        else record ab { utxos = us; utxos_map = insert_absent u.btx_id (l - 1) ab.utxos_map })
    else record ab { utxos = us }

-- The linear search of markUtxoAsSpent: the outputs with the outpoint marked, if it is there.
unfoldable pub mark_scan : Bytes → ℤ → List Utxo → Option (List Utxo)
mark_scan btx_id vout [] = none
mark_scan btx_id vout (u ∷ us) =
    let rest = mark_scan btx_id vout us in
    if is_outpoint btx_id vout u
    then some (record u { vout = minus_one } ∷ us)
    else elim rest [ none ↦ none | some vs ↦ some (u ∷ vs) ]

-- The loop behind an index: from its position on, up to the first output of that number, which is
-- marked if it is of the transaction and ends the loop otherwise (`break`).
unfoldable pub mark_from : ℕ → Bytes → ℤ → List Utxo → Option (List Utxo)
unfolding int_eq
mark_from i btx_id vout [] = none
mark_from zero btx_id vout (u ∷ us) =
    let rest = mark_from zero btx_id vout us in
    if int_eq u.vout vout
    then (if bytes_eq u.btx_id btx_id then some (record u { vout = minus_one } ∷ us) else none)
    else elim rest [ none ↦ none | some vs ↦ some (u ∷ vs) ]
mark_from (suc i) btx_id vout (u ∷ us) = elim (mark_from i btx_id vout us) [
  | none ↦ none
  | some vs ↦ some (u ∷ vs)
]

unfoldable pub mark_indexed : Option ℕ → Bytes → ℤ → List Utxo → Option (List Utxo)
mark_indexed none btx_id vout us = none
mark_indexed (some i) btx_id vout us = mark_from i btx_id vout us

-- `none` is the logged error: the outpoint was not found and nothing changes.
unfoldable pub find_and_mark : AddrBalance → Bytes → ℤ → Option (List Utxo)
unfolding no_index mark_scan mark_indexed
find_and_mark ab btx_id vout =
    if no_index ab.utxos_map
    then mark_scan btx_id vout ab.utxos
    else mark_indexed (lookup btx_id ab.utxos_map) btx_id vout ab.utxos

unfoldable pub mark_utxo_as_spent : AddrBalance → Bytes → ℤ → AddrBalance
unfolding find_and_mark
mark_utxo_as_spent ab btx_id vout = elim (find_and_mark ab btx_id vout) [
  | none ↦ ab
  | some us ↦ record ab { utxos = us }
]
