-- ===== src/Db/InternalState/Sizes.antt =====
-- computeColumnSize counts every row once, however often it takes a new iterator.
use organic_blockbook.Prelude.{◌+◌, ◌≡◌, true, List, [], ◌∷◌, ◌++◌, length, All}
use organic_blockbook.Prelude.Bytes.{Bytes}
use organic_blockbook.Db.Keys.Order.{bytes_lt}
use organic_blockbook.Db.InternalState.{ColumnSize, count_row}

abbrev pub no_rows : ColumnSize
no_rows = record { rows = 0; key_bytes = 0; value_bytes = 0 }

-- The sums over all rows, in one pass.
abbrev pub count_rows : List (Bytes × Bytes) → ColumnSize → ColumnSize
count_rows [] s = s
count_rows (r ∷ rows) s = count_rows rows (count_row r s)

-- The keys go up strictly.
abbrev pub IsAscending : List (Bytes × Bytes) → Type 0
IsAscending [] = Unit
IsAscending ((k, v) ∷ rows) = All (λ r. bytes_lt k r.0 ≡ true) rows × IsAscending rows

-- What an iterator reads: nothing, and then nothing was left; or rows up to a last one.
pub record IsRead (it : List (Bytes × Bytes)) (s s' : ColumnSize) (key : Bytes)
    (left : List (Bytes × Bytes)) : Type 0 where
  pub before : List (Bytes × Bytes)
  pub value : Bytes
  pub rows : it ≡ before ++ (key, value) ∷ left
  pub sums : count_rows left s' ≡ count_rows it s
  pub more : s'.rows ≡ s.rows + length before + 1
