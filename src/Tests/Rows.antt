-- ===== src/Tests/Rows.antt =====
-- The theorems on the rows of an address at a column with two descriptors.
use organic_blockbook.Prelude.{
  ℕ, ◌-◌, ◌^◌, ◌<◌, ◌≡◌, refl, ap, arith, not, List, [], ◌∷◌, ◌++◌, length, reverse,
}
use organic_blockbook.Prelude.Int.{pos, negsuc}
use organic_blockbook.Prelude.Bytes.{Bytes, be_bytes}
use organic_blockbook.Prelude.Options.{ok}
use organic_blockbook.Db.Keys.{pack_address_key}
use organic_blockbook.Db.Keys.Order.{bytes_lt}
use organic_blockbook.Db.Connect.Addresses.{TxIndexes}
use organic_blockbook.Db.AddressColumn.RoundTrip.{IsEntry}
use organic_blockbook.Db.AddressColumn.Walk.{get_addr_desc_transactions}
use organic_blockbook.Db.AddressColumn.Rows.{Row, key_of, keep, IsRow, note, calls_of, calls_of_txs}
use organic_blockbook.Db.AddressColumn.Range.{
  longer_row, visited, is_asked, entries_of, get_addr_desc_transactions_lem,
  get_addr_desc_transactions_foreign,
}
use organic_blockbook.Tests.Fixtures.{fixed, fixed-VlqLaws}

abbrev paid : List TxIndexes
paid = record { btx_id = 1 ∷ []; indexes = pos 0 ∷ negsuc 2 ∷ [] } ∷ []

abbrev row : ℕ → ℕ → Row
row d height = record { desc = d ∷ []; height = height; txs = paid }

-- Heights 9 and 7 of one descriptor, and 8 of another.
abbrev three_rows : List Row
three_rows = row 5 9 ∷ row 5 7 ∷ row 6 8 ∷ []

abbrev seek : List Row → Bytes → List (Bytes × Bytes)
seek column start =
    entries_of fixed fixed-VlqLaws 1 (keep (λ r. not (bytes_lt (key_of r) start)) column)

paid-IsEntry : IsEntry 1 (record { btx_id = 1 ∷ []; indexes = pos 0 ∷ negsuc 2 ∷ [] })
paid-IsEntry = record {
  id = refl;
  some_index = λ e. omega (arith, ap length e);
  indexes = (omega arith, (omega arith, tt));
}

row-IsRow : (d height : ℕ) → height < 2 ^ 32 → IsRow 1 (row d height)
row-IsRow d height h = record {
  some_desc = λ e. omega (arith, ap (λ (l : Bytes). length l) e);
  height = h;
  txs = (paid-IsEntry, tt);
}

get_addr_desc_transactions_lem_example :
    get_addr_desc_transactions note fixed 1 (seek three_rows) (5 ∷ []) 8 20 []
    ≡ ok (calls_of (keep (is_asked (5 ∷ []) 8 20) three_rows))
unfolding bytes_lt pack_address_key be_bytes
get_addr_desc_transactions_lem_example =
    get_addr_desc_transactions_lem fixed fixed-VlqLaws 1 (seek three_rows) three_rows (5 ∷ []) 8 20
      (λ start. refl) ((refl, (refl, tt)), ((refl, tt), (tt, tt)))
      (
        row-IsRow 5 9 (omega arith),
        (row-IsRow 5 7 (omega arith), (row-IsRow 6 8 (omega arith), tt)),
      )
      (omega arith) (omega arith) ((λ e. refl), ((λ e. refl), ((λ e. ground (arith, e)), tt)))

-- A row of a longer descriptor, and one of the descriptor itself.
abbrev two_rows : List Row
two_rows = longer_row (5 ∷ []) 6 [] 9 paid ∷ row 5 9 ∷ []

get_addr_desc_transactions_foreign_example :
    get_addr_desc_transactions note fixed 1 (seek two_rows) (5 ∷ []) 0 (2 ^ 32 - 1) []
    ≡ ok (visited (5 ∷ []) [] ++ (calls_of_txs 9 (reverse paid) ++ visited (5 ∷ []) (row 5 9 ∷ [])))
unfolding bytes_lt pack_address_key be_bytes
get_addr_desc_transactions_foreign_example =
    get_addr_desc_transactions_foreign fixed fixed-VlqLaws 1 (seek two_rows) [] (row 5 9 ∷ [])
      (5 ∷ []) 6 [] 9 paid (λ start. refl) ((refl, tt), (tt, tt))
      (
        record {
          some_desc = λ e. omega (arith, ap (λ (l : Bytes). length l) e);
          height = omega arith;
          txs = (paid-IsEntry, tt);
        },
        (row-IsRow 5 9 (omega arith), tt),
      )
      (omega arith)
