-- ===== src/Tests/State.antt =====
-- The theorems on the internal state with a concrete text form of it, and on the sizes of a column.
use organic_blockbook.Prelude.{
  ℕ, zero, suc, ◌≡◌, refl, arith, Bool, true, false, List, [], ◌∷◌, Option, none, some,
}
use organic_blockbook.Prelude.Bytes.{Bytes}
use organic_blockbook.Prelude.Options.{◌>>=◌}
use organic_blockbook.Common.InternalState.{InternalStateColumn, InternalState, db_state_open}
use organic_blockbook.Db.InternalState.{
  StateJson, Kept, new_state, set_inconsistent_state, start_up, load_internal_state,
}
use organic_blockbook.Db.InternalState.Life.{
  StateJsonLaws, running, ended, Lived, fresh, step, started, bulk_begun, killed, Lived-refused,
}
use organic_blockbook.Tests.Protobuf.{
  Reader, put_bytes, get_bytes, get_bytes-put_bytes, get_nat, put_int, get_int, get_int-put_int,
  put_list, get_list, get_list-put_list,
}
use mathlib.Core.Option.{some-injective}

abbrev bit : Bool → ℕ
bit true = 1
bit false = 0

unfoldable get_bool : Reader Bool
get_bool [] = none
get_bool (zero ∷ r) = some (false, r)
get_bool (suc n ∷ r) = some (true, r)

get_bool-bit : (b : Bool) (r : Bytes) → get_bool (bit b ∷ r) ≡ some (b, r)
unfolding get_bool
get_bool-bit true r = refl
get_bool-bit false r = refl

abbrev put_column : InternalStateColumn → Bytes → Bytes
put_column c r =
    c.version ∷ put_bytes c.name (put_int c.rows (put_int c.key_bytes (put_int c.value_bytes r)))

unfoldable get_column : Reader InternalStateColumn
unfolding get_nat
get_column r = do
  (version, r) ← get_nat r
  (name, r) ← get_bytes r
  (rows, r) ← get_int r
  (key_bytes, r) ← get_int r
  (value_bytes, r) ← get_int r
  some (
    record {
      name = name;
      version = version;
      rows = rows;
      key_bytes = key_bytes;
      value_bytes = value_bytes;
    },
    r,
  )

get_column-put_column :
    (c : InternalStateColumn) (r : Bytes) → get_column (put_column c r) ≡ some (c, r)
unfolding get_column
get_column-put_column c r = rw (
  get_bytes-put_bytes c.name (put_int c.rows (put_int c.key_bytes (put_int c.value_bytes r))),
  get_int-put_int c.rows (put_int c.key_bytes (put_int c.value_bytes r)),
  get_int-put_int c.key_bytes (put_int c.value_bytes r),
  get_int-put_int c.value_bytes r,
)

abbrev put_columns : List InternalStateColumn → Bytes
put_columns cs = put_list put_column get_column get_column-put_column cs []

abbrev put_flags : InternalState → Bytes
put_flags is =
    is.db_state
    ∷ is.best_height
    ∷ bit is.sync_mode
    ∷ bit is.initial_sync
    ∷ bit is.is_synchronized
    ∷ bit is.is_mempool_synchronized
    ∷ put_int is.mempool_size (put_columns is.db_columns)

abbrev put_state : InternalState → Bytes
put_state is =
    put_bytes is.coin
      (put_bytes is.coin_shortcut (put_bytes is.coin_label (put_bytes is.host (put_flags is))))

unfoldable get_state : Bytes → Option InternalState
unfolding get_nat
get_state r = do
  (coin, r) ← get_bytes r
  (coin_shortcut, r) ← get_bytes r
  (coin_label, r) ← get_bytes r
  (host, r) ← get_bytes r
  (db_state, r) ← get_nat r
  (best_height, r) ← get_nat r
  (sync_mode, r) ← get_bool r
  (initial_sync, r) ← get_bool r
  (is_synchronized, r) ← get_bool r
  (is_mempool_synchronized, r) ← get_bool r
  (mempool_size, r) ← get_int r
  (db_columns, r) ← get_list put_column get_column get_column-put_column r
  some (record {
    coin = coin;
    coin_shortcut = coin_shortcut;
    coin_label = coin_label;
    host = host;
    db_state = db_state;
    sync_mode = sync_mode;
    initial_sync = initial_sync;
    is_synchronized = is_synchronized;
    best_height = best_height;
    is_mempool_synchronized = is_mempool_synchronized;
    mempool_size = mempool_size;
    db_columns = db_columns;
  })

get_state-put_state : (is : InternalState) → get_state (put_state is) ≡ some is
unfolding get_state
get_state-put_state is = rw (
  get_bytes-put_bytes is.coin
      (put_bytes is.coin_shortcut (put_bytes is.coin_label (put_bytes is.host (put_flags is)))),
  get_bytes-put_bytes is.coin_shortcut (put_bytes is.coin_label (put_bytes is.host (put_flags is))),
  get_bytes-put_bytes is.coin_label (put_bytes is.host (put_flags is)),
  get_bytes-put_bytes is.host (put_flags is),
  get_bool-bit is.sync_mode,
  get_bool-bit is.initial_sync,
  get_bool-bit is.is_synchronized,
  get_bool-bit is.is_mempool_synchronized,
  get_int-put_int is.mempool_size (put_columns is.db_columns),
  get_list-put_list put_column get_column get_column-put_column is.db_columns [],
)

abbrev simple_json : StateJson
simple_json = record { marshal = λ is. some (put_state is); unmarshal = get_state }

simple_json-StateJsonLaws : StateJsonLaws simple_json
simple_json-StateJsonLaws = record {
  marshals = λ is. (put_state is, refl);
  unmarshal-marshal =
      λ is b e. (is, rw (← some-injective (put_state is) b e) (get_state-put_state is), refl);
  some_text = λ is b e. rw (← some-injective (put_state is) b e) (λ z. omega (arith, z));
}

abbrev opened : InternalState
opened = record (new_state (7 ∷ [])) { db_state = db_state_open }

abbrev first_life : Kept simple_json []
first_life = record { disk = put_state opened; memory = opened }

abbrev in_bulk : Kept simple_json []
in_bulk = set_inconsistent_state simple_json [] true first_life

killed-Lived : Lived simple_json [] (ended in_bulk.disk true)
unfolding start_up load_internal_state
killed-Lived =
    step (running in_bulk true) (ended in_bulk.disk true)
      (step (running first_life false) (running in_bulk true)
        (step (ended [] false) (running first_life false) fresh
          (started (7 ∷ []) [] false first_life refl))
        (bulk_begun first_life))
      (killed in_bulk true)

Lived-refused_example : start_up simple_json [] (7 ∷ []) in_bulk.disk ≡ none
Lived-refused_example =
    Lived-refused simple_json [] simple_json-StateJsonLaws in_bulk.disk (7 ∷ []) killed-Lived

abbrev three_entries : List (Bytes × Bytes)
three_entries = (1 ∷ [], 9 ∷ 9 ∷ []) ∷ (2 ∷ [], []) ∷ (3 ∷ 0 ∷ [], 4 ∷ []) ∷ []
