-- ===== src/Common/InternalState.antt =====
-- common/internalstate.go: the synchronisation flags and the statistics of the columns. The times
-- of the last changes are left out.
use organic_blockbook.Prelude.{ℕ, zero, suc, Bool, true, false, List, [], ◌∷◌, Option, none, some}
use organic_blockbook.Prelude.Int.{ℤ, pos, ◌+ℤ◌}
use organic_blockbook.Prelude.Bytes.{Bytes}

abbrev pub db_state_closed : ℕ
db_state_closed = 0

abbrev pub db_state_open : ℕ
db_state_open = 1

abbrev pub db_state_inconsistent : ℕ
db_state_inconsistent = 2

pub record InternalStateColumn : Type 0 where
  pub name : Bytes
  pub version : ℕ
  pub rows : ℤ
  pub key_bytes : ℤ
  pub value_bytes : ℤ

pub record InternalState : Type 0 where
  pub coin : Bytes
  pub coin_shortcut : Bytes
  pub coin_label : Bytes
  pub host : Bytes
  pub db_state : ℕ
  pub sync_mode : Bool
  pub initial_sync : Bool
  pub is_synchronized : Bool
  pub best_height : ℕ
  pub is_mempool_synchronized : Bool
  pub mempool_size : ℤ
  pub db_columns : List InternalStateColumn

unfoldable pub started_sync : InternalState → InternalState
started_sync is = record is { is_synchronized = false }

unfoldable pub finished_sync : ℕ → InternalState → InternalState
finished_sync best_height is = record is { is_synchronized = true; best_height = best_height }

unfoldable pub update_best_height : ℕ → InternalState → InternalState
update_best_height best_height is = record is { best_height = best_height }

unfoldable pub finished_sync_no_change : InternalState → InternalState
finished_sync_no_change is = record is { is_synchronized = true }

unfoldable pub started_mempool_sync : InternalState → InternalState
started_mempool_sync is = record is { is_mempool_synchronized = false }

unfoldable pub finished_mempool_sync : ℤ → InternalState → InternalState
finished_mempool_sync mempool_size is = record is {
  is_mempool_synchronized = true;
  mempool_size = mempool_size;
}

-- The column at an index is changed; `none` is the panic of an index out of range.
unfoldable pub change_column :
    (InternalStateColumn → InternalStateColumn)
    → ℕ
    → List InternalStateColumn
    → Option (List InternalStateColumn)
change_column f c [] = none
change_column f zero (dc ∷ dcs) = some (f dc ∷ dcs)
change_column f (suc c) (dc ∷ dcs) = elim (change_column f c dcs) [
  | none ↦ none
  | some changed ↦ some (dc ∷ changed)
]

unfoldable pub change_stats :
    (InternalStateColumn → InternalStateColumn) → ℕ → InternalState → Option InternalState
unfolding change_column
change_stats f c is = elim (change_column f c is.db_columns) [
  | none ↦ none
  | some changed ↦ some (record is { db_columns = changed })
]

-- The sums are int64 in the code, which no size on a disk exceeds.
unfoldable pub add_db_column_stats : ℕ → ℤ → ℤ → ℤ → InternalState → Option InternalState
unfolding change_stats
add_db_column_stats c rows_diff key_bytes_diff value_bytes_diff is =
    change_stats
      (λ dc. record dc {
        rows = dc.rows +ℤ rows_diff;
        key_bytes = dc.key_bytes +ℤ key_bytes_diff;
        value_bytes = dc.value_bytes +ℤ value_bytes_diff;
      })
      c is

unfoldable pub set_db_column_stats : ℕ → ℤ → ℤ → ℤ → InternalState → Option InternalState
unfolding change_stats
set_db_column_stats c rows key_bytes value_bytes is =
    change_stats (λ dc. record dc { rows = rows; key_bytes = key_bytes; value_bytes = value_bytes })
      c is

unfoldable pub total_size : List InternalStateColumn → ℤ
total_size [] = pos 0
total_size (c ∷ cs) = (c.key_bytes +ℤ c.value_bytes) +ℤ total_size cs

unfoldable pub db_size_total : InternalState → ℤ
unfolding total_size
db_size_total is = total_size is.db_columns
