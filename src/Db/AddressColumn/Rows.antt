-- ===== src/Db/AddressColumn/Rows.antt =====
-- The rows of the column addresses in the order of their keys, and the calls that they lead to.
use organic_blockbook.Prelude.{
  ℕ, ◌^◌, ◌<◌, ◌≡◌, ◌≢◌, refl, sym, ap, ◌∙◌, arith, Bool, true, false, ◌&&◌, if◌then◌else◌, List,
  [], ◌∷◌, ◌++◌, reverse, All, Bool-cases, inl, inr,
}
use organic_blockbook.Prelude.Int.{ℤ}
use organic_blockbook.Prelude.Bytes.{Bytes}
use organic_blockbook.Bchain.BaseParser.{unpack_txid}
use organic_blockbook.Db.Keys.{pack_address_key}
use organic_blockbook.Db.Keys.Order.{bytes_lt}
use organic_blockbook.Db.Connect.Addresses.{TxIndexes}
use organic_blockbook.Db.AddressColumn.RoundTrip.{IsEntry}
use organic_blockbook.Db.AddressColumn.Walk.{Called, next, call_each}
use mathlib.Core.List.{append_assoc, append-nil}

-- A row of the column: the transactions of a descriptor in the block of a height.
pub record Row : Type 0 where
  pub desc : Bytes
  pub height : ℕ
  pub txs : List TxIndexes

abbrev pub key_of : Row → Bytes
key_of r = pack_address_key r.desc r.height

abbrev pub keep : (Row → Bool) → List Row → List Row
keep p [] = []
keep p (r ∷ rs) = if p r then r ∷ keep p rs else keep p rs

-- The rows are ordered by their keys.
abbrev pub IsOrdered : List Row → Type 0
IsOrdered [] = Unit
IsOrdered (r ∷ rs) = All (λ q. bytes_lt (key_of r) (key_of q) ≡ true) rs × IsOrdered rs

pub record IsRow (txid_len : ℕ) (r : Row) : Type 0 where
  pub some_desc : r.desc ≢ []
  pub height : r.height < 2 ^ 32
  pub txs : All (IsEntry txid_len) (reverse r.txs)

-- A call of the callback: the id, the height and the indexes.
abbrev pub Call : Type 0
Call = Bytes × ℕ × List ℤ

-- The callback that notes its calls.
abbrev pub note : Bytes → ℕ → List ℤ → List Call → Called (List Call)
note txid height indexes calls = next (calls ++ (txid, height, indexes) ∷ [])

abbrev pub calls_of_txs : ℕ → List TxIndexes → List Call
calls_of_txs height [] = []
calls_of_txs height (t ∷ ts) = (unpack_txid t.btx_id, height, t.indexes) ∷ calls_of_txs height ts

-- The transactions of a block are called from the newest to the oldest.
abbrev pub calls_of : List Row → List Call
calls_of [] = []
calls_of (r ∷ rs) = calls_of_txs r.height (reverse r.txs) ++ calls_of rs

pub bytes_lt_trans :
    (xs ys zs : Bytes) → bytes_lt xs ys ≡ true → bytes_lt ys zs ≡ true → bytes_lt xs zs ≡ true
unfolding bytes_lt
bytes_lt_trans [] [] zs h k = absurd (ground (arith, h))
bytes_lt_trans (x ∷ xs) [] zs h k = absurd (ground (arith, h))
bytes_lt_trans [] (y ∷ ys) [] h k = k
bytes_lt_trans [] (y ∷ ys) (z ∷ zs) h k = refl
bytes_lt_trans (x ∷ xs) (y ∷ ys) [] h k = k
bytes_lt_trans (x ∷ xs) (y ∷ ys) (z ∷ zs) h k = ground (arith, h, k, bytes_lt_trans xs ys zs)

pub call_each-note :
    (height : ℕ) (ts : List TxIndexes) (calls : List Call)
    → call_each note height ts calls ≡ next (calls ++ calls_of_txs height ts)
unfolding call_each
call_each-note height [] calls = ap next (sym (append-nil calls))
call_each-note height (t ∷ ts) calls =
    call_each-note height ts (calls ++ (unpack_txid t.btx_id, height, t.indexes) ∷ [])
    ∙ ap next (
        append_assoc calls ((unpack_txid t.btx_id, height, t.indexes) ∷ [])
          (calls_of_txs height ts))

pub keep_none : (p : Row → Bool) (rows : List Row) → All (λ q. p q ≡ false) rows → keep p rows ≡ []
keep_none p [] h = refl
keep_none p (r ∷ rs) (e, h) = rw e (keep_none p rs h)

pub keep-append : (p : Row → Bool) (xs ys : List Row) → keep p (xs ++ ys) ≡ keep p xs ++ keep p ys
keep-append p [] ys = refl
keep-append p (x ∷ xs) ys = elim (Bool-cases (p x)) [
  | inl e ↦ rw (e, keep-append p xs ys)
  | inr e ↦ rw (e, keep-append p xs ys)
]

pub calls_of-append : (xs ys : List Row) → calls_of (xs ++ ys) ≡ calls_of xs ++ calls_of ys
calls_of-append [] ys = refl
calls_of-append (x ∷ xs) ys =
    ap (λ cs. calls_of_txs x.height (reverse x.txs) ++ cs) (calls_of-append xs ys)
    ∙ sym (append_assoc (calls_of_txs x.height (reverse x.txs)) (calls_of xs) (calls_of ys))

pub keep-keep :
    (p q : Row → Bool) (rows : List Row) → keep q (keep p rows) ≡ keep (λ r. p r && q r) rows
keep-keep p q [] = refl
keep-keep p q (r ∷ rs) = elim (Bool-cases (p r)) [
  | inl e ↦ rw (e, keep-keep p q rs)
  | inr e ↦ rw (e, keep-keep p q rs)
]

pub keep_same :
    (p q : Row → Bool) (rows : List Row) → All (λ r. p r ≡ q r) rows → keep p rows ≡ keep q rows
keep_same p q [] h = refl
keep_same p q (r ∷ rs) (e, h) = rw (e, keep_same p q rs h)

pub keep-All {κ} :
    (P : Row → Type κ) (p : Row → Bool) (rows : List Row) → All P rows → All P (keep p rows)
keep-All P p [] h = tt
keep-All P p (r ∷ rs) (e, h) = elim (Bool-cases (p r)) [
  | inl kept ↦ rw kept (e, keep-All P p rs h)
  | inr out ↦ rw out (keep-All P p rs h)
]

pub keep-IsOrdered : (p : Row → Bool) (rows : List Row) → IsOrdered rows → IsOrdered (keep p rows)
keep-IsOrdered p [] h = tt
keep-IsOrdered p (r ∷ rs) (e, h) = elim (Bool-cases (p r)) [
  | inl kept ↦
      rw kept (keep-All (λ q. bytes_lt (key_of r) (key_of q) ≡ true) p rs e, keep-IsOrdered p rs h)
  | inr out ↦ rw out (keep-IsOrdered p rs h)
]
