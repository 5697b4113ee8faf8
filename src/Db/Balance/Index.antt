-- ===== src/Db/Balance/Index.antt =====
-- The index over the unspent outputs: what it holds, and that addUtxo keeps it right.
use organic_blockbook.Prelude.{
  ℕ, suc, ◌+◌, ◌-◌, ◌≤◌, ◌≡◌, ◌⊎◌, inl, inr, refl, sym, ap, ◌∙◌, arith, if◌then◌else◌, List, [],
  ◌∷◌, ◌++◌, Option, none, some, length, length-append, get_elem?, Bool-cases, true, false, leb,
  Bool,
}
use organic_blockbook.Prelude.Int.{ℤ}
use organic_blockbook.Prelude.Bytes.{Bytes, bytes_eq, bytes_eq_iff}
use mathlib.Core.Bool.{false≢true}
use organic_blockbook.Prelude.Maps.{Map, lookup, lookup-insert}
use organic_blockbook.Db.Balance.{
  Utxo, AddrBalance, insert_absent, index_utxos, add_utxo, no_index, index_from, has_utxo,
  scan_utxo, indexed_utxo, int_eq,
}
use mathlib.Core.List.{append_assoc}
use native.Mathlib.Numerals.{add-one}

-- The position of the first output of a transaction, behind `i` others.
unfoldable pub first_index : ℕ → Bytes → List Utxo → Option ℕ
first_index i btx_id [] = none
first_index i btx_id (u ∷ us) =
    if bytes_eq u.btx_id btx_id then some i else first_index (suc i) btx_id us

abbrev pub or_else : Option ℕ → Option ℕ → Option ℕ
or_else none o = o
or_else (some i) o = some i

lookup-insert_absent :
    (s j : Bytes) (i : ℕ) (m : Map ℕ)
    → lookup j (insert_absent s i m) ≡ or_else (lookup j m) (if bytes_eq s j then some i else none)
unfolding insert_absent
lookup-insert_absent s j i m =
    ground (arith, lookup-insert s j i m, bytes_eq_iff s j, ap (λ k. lookup k m) (sym e))
  where
    e : s ≡ s
    e = refl

lookup-index_utxos :
    (i : ℕ) (us : List Utxo) (m : Map ℕ) (j : Bytes)
    → lookup j (index_utxos i us m) ≡ or_else (lookup j m) (first_index i j us)
unfolding index_utxos first_index
lookup-index_utxos i [] m j = ground arith
lookup-index_utxos i (u ∷ us) m j = ground (
  arith,
  lookup-index_utxos (suc i) us (insert_absent u.btx_id i m) j,
  lookup-insert_absent u.btx_id j i m,
)

first_index-append :
    (i : ℕ) (us : List Utxo) (u : Utxo) (j : Bytes)
    → first_index i j (us ++ u ∷ [])
      ≡ or_else (first_index i j us) (if bytes_eq u.btx_id j then some (i + length us) else none)
unfolding first_index
first_index-append i [] u j = ground arith
first_index-append i (v ∷ us) u j = ground (arith, first_index-append (suc i) us u j)

-- The index holds the first position of each transaction that has outputs, and nothing else.
abbrev pub IsIndexOf : Map ℕ → List Utxo → Type 0
IsIndexOf m us = (j : Bytes) → lookup j m ≡ first_index 0 j us

-- There is no index, or it is right; it is made from 16 outputs on.
abbrev pub IsIndexed : AddrBalance → Type 0
IsIndexed ab =
    (no_index ab.utxos_map ≡ true)
    ⊎ ((index_from ≤ length ab.utxos) × IsIndexOf ab.utxos_map ab.utxos)

index_utxos-IsIndexOf : (us : List Utxo) → IsIndexOf (index_utxos 0 us []) us
unfolding lookup
index_utxos-IsIndexOf us j = lookup-index_utxos 0 us [] j

insert_absent-IsIndexOf :
    (m : Map ℕ) (us : List Utxo) (u : Utxo)
    → IsIndexOf m us
    → IsIndexOf (insert_absent u.btx_id (length (us ++ u ∷ []) - 1) m) (us ++ u ∷ [])
insert_absent-IsIndexOf m us u h j = ground (
  arith,
  lookup-insert_absent u.btx_id j (length (us ++ u ∷ []) - 1) m,
  first_index-append 0 us u j,
  length-append us (u ∷ []),
  h j,
)

-- Adding an output, whether it builds the index, extends it or needs none, leaves the balance
-- indexed, and puts the output behind the others.
pub add_utxo-IsIndexed :
    (ab : AddrBalance) (u : Utxo)
    → IsIndexed ab
    → IsIndexed (add_utxo ab u) × ((add_utxo ab u).utxos ≡ ab.utxos ++ u ∷ [])
unfolding add_utxo
add_utxo-IsIndexed ab u h = elim (Bool-cases (leb index_from (length (ab.utxos ++ u ∷ [])))) [
  | inl many ↦ elim (Bool-cases (no_index ab.utxos_map)) [
    | inl none_yet ↦
        rw (many, none_yet) (inr (ground arith, index_utxos-IsIndexOf (ab.utxos ++ u ∷ [])), refl)
    | inr old ↦
        rw (many, old)
          (
            elim h [
              | inl n ↦ absurd (false≢true (sym old ∙ n))
              | inr (_, right) ↦
                  inr (ground arith, insert_absent-IsIndexOf ab.utxos_map ab.utxos u right)
            ],
            refl,
          )
  ]
  | inr few ↦ rw few (
    elim h [
      | inl n ↦ inl n
      | inr (big, _) ↦ absurd (ground (arith, length-append ab.utxos (u ∷ [])))
    ],
    refl,
  )
]

-- Whether the first output of a transaction has the number.
unfoldable pub first_has_vout : Bytes → ℤ → List Utxo → Bool
unfolding int_eq
first_has_vout btx_id vout [] = false
first_has_vout btx_id vout (u ∷ us) =
    if bytes_eq u.btx_id btx_id then int_eq u.vout vout else first_has_vout btx_id vout us

get_elem?-append :
    (before us : List Utxo) (u : Utxo) → get_elem? (before ++ u ∷ us) (length before) ≡ some u
get_elem?-append [] us u = refl
get_elem?-append (v ∷ before) us u = get_elem?-append before us u

abbrev found : ℤ → Option Utxo → Bool
found vout none = false
found vout (some u) = int_eq u.vout vout

indexed_utxo-first_index :
    (before us : List Utxo) (btx_id : Bytes) (vout : ℤ)
    → indexed_utxo vout (before ++ us) (first_index (length before) btx_id us)
      ≡ first_has_vout btx_id vout us
unfolding indexed_utxo first_index first_has_vout
indexed_utxo-first_index before [] btx_id vout = refl
indexed_utxo-first_index before (u ∷ us) btx_id vout =
    elim (Bool-cases (bytes_eq u.btx_id btx_id)) [
      | inl same ↦ rw same (ap (found vout) (get_elem?-append before us u))
      | inr other ↦ rw other (
          rw (append_assoc before (u ∷ []) us, length-append before (u ∷ []), add-one) at
            (indexed_utxo-first_index (before ++ u ∷ []) us btx_id vout))
    ]

-- On a balance with no index or a right one: without an index hasUtxo searches all outputs; with one
-- it looks at the first output of the transaction only, and answers whether that one has the number.
pub has_utxo_lem :
    (ab : AddrBalance) (btx_id : Bytes) (vout : ℤ)
    → IsIndexed ab
    → has_utxo ab btx_id vout ≡ (
        if no_index ab.utxos_map
        then scan_utxo btx_id vout ab.utxos
        else first_has_vout btx_id vout ab.utxos)
unfolding has_utxo
has_utxo_lem ab btx_id vout (inl n) = rw n
has_utxo_lem ab btx_id vout (inr (_, right)) =
    rw (right btx_id, indexed_utxo-first_index [] ab.utxos btx_id vout)
