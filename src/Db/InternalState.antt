-- ===== src/Db/InternalState.antt =====
-- db/rocksdb.go: the internal state in the database, and the sizes of the columns.
pub mod Life
pub mod Sizes
use organic_blockbook.Prelude.{
  ℕ, zero, suc, ◌+◌, Bool, true, false, ◌==◌, if◌then◌else◌, List, [], ◌∷◌, Option, none, some,
  length,
}
use organic_blockbook.Prelude.Int.{ℤ, pos}
use organic_blockbook.Prelude.Bytes.{Bytes, bytes_eq}
use organic_blockbook.Prelude.Options.{Result, ok, err}
use organic_blockbook.Db.Keys.Order.{bytes_lt}
use organic_blockbook.Common.InternalState.{
  db_state_closed, db_state_open, db_state_inconsistent, InternalStateColumn, InternalState,
}

abbrev pub db_version : ℕ
db_version = 5

abbrev pub refresh_iterator : ℕ
refresh_iterator = 5000000

-- encoding/json of the internal state; `none` is an error.
pub record StateJson : Type 0 where
  pub marshal : InternalState → Option Bytes
  pub unmarshal : Bytes → Option InternalState

pub data StateError : Type 0 where
  bad_json coins_do_not_match incompatible_version : StateError

abbrev pub new_column : Bytes → InternalStateColumn
new_column name = record {
  name = name;
  version = db_version;
  rows = pos 0;
  key_bytes = pos 0;
  value_bytes = pos 0;
}

-- The statistics that are stored for a column, if its version fits.
unfoldable pub match_column :
    Bytes → List InternalStateColumn → Result StateError InternalStateColumn
match_column name [] = ok (new_column name)
match_column name (sc ∷ scs) =
    let rest = match_column name scs in
    if bytes_eq sc.name name
    then (if sc.version == db_version
        then ok (record sc { name = name; version = db_version })
        else err incompatible_version)
    else rest

unfoldable pub match_columns :
    List Bytes → List InternalStateColumn → Result StateError (List InternalStateColumn)
unfolding match_column
match_columns [] stored = ok []
match_columns (name ∷ names) stored =
    let rest = match_columns names stored in
    elim (match_column name stored) [
      | err e ↦ err e
      | ok c ↦ elim rest [ err e ↦ err e | ok cs ↦ ok (c ∷ cs) ]
    ]

unfoldable pub with_coin : Bytes → InternalState → Result StateError InternalState
with_coin coin is =
    if bytes_eq is.coin []
    then ok (record is { coin = coin })
    else if bytes_eq is.coin coin
    then ok is
    else err coins_do_not_match

abbrev pub new_state : Bytes → InternalState
new_state coin = record {
  coin = coin;
  coin_shortcut = [];
  coin_label = [];
  host = [];
  db_state = db_state_closed;
  sync_mode = false;
  initial_sync = false;
  is_synchronized = false;
  best_height = 0;
  is_mempool_synchronized = false;
  mempool_size = pos 0;
  db_columns = [];
}

module _ (json : StateJson) (cf_names : List Bytes) where
  unfoldable pub unpack_state : Bytes → Bytes → Result StateError InternalState
  unfolding with_coin
  unpack_state coin data_ =
      if length data_ == 0
      then ok (new_state coin)
      else elim (json.unmarshal data_) [ none ↦ err bad_json | some is ↦ with_coin coin is ]

  -- LoadInternalState; after the load the synchronisation data is reset.
  unfoldable pub load_internal_state : Bytes → Bytes → Result StateError InternalState
  unfolding unpack_state match_columns
  load_internal_state coin data_ = elim (unpack_state coin data_) [
    | err e ↦ err e
    | ok is ↦ elim (match_columns cf_names is.db_columns) [
      | err e ↦ err e
      | ok nc ↦ ok (record is {
        db_columns = nc;
        is_synchronized = false;
        is_mempool_synchronized = false;
        sync_mode = false;
      })
    ]
  ]

  -- What the database holds under the key of the internal state, and the state in memory.
  pub record Kept : Type 0 where
    pub disk : Bytes
    pub memory : InternalState

  -- storeState; if the state cannot be packed, nothing is stored.
  unfoldable pub store_state : Kept → Kept
  store_state k = elim (json.marshal k.memory) [ none ↦ k | some b ↦ record k { disk = b } ]

  unfoldable pub set_inconsistent_state : Bool → Kept → Kept
  unfolding store_state
  set_inconsistent_state inconsistent k = store_state (record k {
    memory = record k.memory {
      db_state = if inconsistent then db_state_inconsistent else db_state_open;
    };
  })

  -- Close stores the state only if the database is open, and not when it is inconsistent.
  unfoldable pub close : Kept → Kept
  unfolding store_state
  close k =
      if k.memory.db_state == db_state_open
      then store_state (record k { memory = record k.memory { db_state = db_state_closed } })
      else k

  -- The start of the program: an inconsistent database is refused; any other one is marked as open,
  -- and the state is stored.
  unfoldable pub start_up : Bytes → Bytes → Option Kept
  unfolding load_internal_state
  start_up coin data_ = elim (load_internal_state coin data_) [
    | err e ↦ none
    | ok is ↦
        if is.db_state == db_state_inconsistent
        then none
        else (let opened = record is { db_state = db_state_open } in
            elim (json.marshal opened) [
              | none ↦ none
              | some b ↦ some (record { disk = b; memory = opened })
            ])
  ]

-- The sums of computeColumnSize: rows, bytes of keys and bytes of values.
pub record ColumnSize : Type 0 where
  pub rows : ℕ
  pub key_bytes : ℕ
  pub value_bytes : ℕ

abbrev pub count_row : Bytes × Bytes → ColumnSize → ColumnSize
count_row (k, v) s = record {
  rows = s.rows + 1;
  key_bytes = s.key_bytes + length k;
  value_bytes = s.value_bytes + length v;
}

-- One iterator: at most `count` rows are read. What follows is the sums, the last key, and the rows
-- left.
unfoldable pub read_rows :
    ℕ → List (Bytes × Bytes) → ColumnSize → Bytes → ColumnSize × Bytes × List (Bytes × Bytes)
read_rows zero it s key = (s, key, it)
read_rows (suc count) [] s key = (s, key, [])
read_rows (suc count) ((k, v) ∷ it) s key = read_rows count it (count_row (k, v) s) k

-- `Seek`, on the rows in the order of their keys.
unfoldable pub seek : Bytes → List (Bytes × Bytes) → List (Bytes × Bytes)
seek key [] = []
seek key ((k, v) ∷ rows) = if bytes_lt k key then seek key rows else (k, v) ∷ rows

-- `Next`
abbrev pub advance : List (Bytes × Bytes) → List (Bytes × Bytes)
advance [] = []
advance (r ∷ rows) = rows

-- computeColumnSize, which takes a new iterator after every `refresh` rows. It is not stopped here. The
-- key of the last row is a slice of the iterator's memory, and is copied when the iterator has moved
-- on: `reread` is what this memory holds then.
unfoldable pub compute_column_size :
    (Bytes → Bytes) → ℕ → ℕ → List (Bytes × Bytes) → ColumnSize → Bytes → Option ColumnSize
unfolding read_rows seek
compute_column_size reread zero refresh column s seek_key = none
compute_column_size reread (suc fuel) refresh column s seek_key =
    let it = if s.rows == 0 then column else advance (seek seek_key column) in
    let (s', key, left) = read_rows refresh it s [] in
    elim left [
      | [] ↦ some s'
      | _ ∷ _ ↦ compute_column_size reread fuel refresh column s' (reread key)
    ]
