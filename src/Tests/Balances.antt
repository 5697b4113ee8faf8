-- ===== src/Tests/Balances.antt =====
-- The theorems on balances, blocks and their disconnection at concrete data.
use organic_blockbook.Prelude.{
  ◌≡◌, ◌&&◌, refl, arith, [], ◌∷◌, ◌++◌, true, false, none, some, if◌then◌else◌, inl, inr, ◌≢◌,
}
use organic_blockbook.Prelude.Int.{pos, negsuc, ◌+ℤ◌}
use organic_blockbook.Prelude.Bytes.{Bytes, bytes_eq, be_bytes}
use organic_blockbook.Prelude.Maps.{Map, lookup}
use organic_blockbook.Prelude.Options.{ok}
use organic_blockbook.Db.Balance.{
  AddrBalance, received_sat, is_outpoint, no_index, scan_utxo, add_utxo, find_and_mark,
}
use organic_blockbook.Db.Balance.Index.{IsIndexed, add_utxo-IsIndexed}
use organic_blockbook.Db.Balance.Marking.{IsGrouped, Outcome, find_and_mark-Outcome}
use organic_blockbook.Db.BalanceColumn.{
  pack_addr_balance, unpack_addr_balance, utxo, no_utxo, utxo_indexed, is_unspent,
}
use organic_blockbook.Db.BalanceColumn.RoundTrip.{
  unspent, IsStorable, SameTotals, unpack-pack_addr_balance, unpack-pack_addr_balance-IsIndexed,
}
use organic_blockbook.Db.Connect.Addresses.{AddressesMap, entries, add_to_addresses_map}
use organic_blockbook.Db.Connect.IndexLaws.{indexes_of, has_tx, add_to_addresses_map_lem}
use organic_blockbook.Db.Connect.Outputs.{credit, get_addr_desc_balance}
use organic_blockbook.Db.Connect.Inputs.{debit}
use organic_blockbook.Db.Connect.Ledger.{sum_unspent, IsBalanced, credit-IsBalanced}
use organic_blockbook.Db.Connect.Debit.{Holds, debit-IsBalanced}
use organic_blockbook.Db.Keys.{pack_uint}
use organic_blockbook.Db.Store.{Store, empty_store, get_cf, write}
use organic_blockbook.Db.Blocks.{store_balances, cleanup_block_txs}
use organic_blockbook.Db.Blocks.Cleanup.{
  AllStored, block_data, cleanup_block_txs_older, cleanup_block_txs_newer,
}
use organic_blockbook.Db.Blocks.Columns.{get_addr_desc_balance-store_balances}
use organic_blockbook.Db.Blocks.Disconnect.{undo_debit, undo_credit}
use organic_blockbook.Db.Blocks.Disconnect.Totals.{undo_debit-debit, undo_credit-credit}
use organic_blockbook.Db.Blocks.Range.{tidy}
use organic_blockbook.Db.Blocks.Range.Sorting.{IsSorted, tidy_lem}
use mathlib.Core.List.{Perm}
use organic_blockbook.Tests.Fixtures.{fixed, fixed-VlqLaws, small_env, output, three_outputs}

three_outputs-IsIndexed : IsIndexed three_outputs
unfolding no_index
three_outputs-IsIndexed = inl refl

three_outputs-IsGrouped : IsGrouped three_outputs.utxos
unfolding bytes_eq
three_outputs-IsGrouped = (inl (refl, inr (refl, tt)), (inr (refl, tt), (tt, tt)))

three_outputs-IsBalanced : IsBalanced three_outputs
unfolding sum_unspent ◌+ℤ◌
three_outputs-IsBalanced = refl

three_outputs-Holds : Holds three_outputs.utxos (1 ∷ []) (pos 1) (pos 20)
unfolding is_outpoint scan_utxo bytes_eq
three_outputs-Holds = record {
  before = output 1 0 10 ∷ [];
  spent = output 1 1 20;
  after = output 2 0 30 ∷ [];
  stands = refl;
  outpoint = refl;
  first = refl;
  amount = refl;
}

three_outputs-IsStorable : IsStorable 1 three_outputs
three_outputs-IsStorable = record {
  txs = omega arith;
  sent = omega arith;
  balance = omega arith;
  utxos = ground arith;
}

add_utxo-IsIndexed_example :
    IsIndexed (add_utxo three_outputs (output 3 0 5))
    × ((add_utxo three_outputs (output 3 0 5)).utxos ≡ three_outputs.utxos ++ output 3 0 5 ∷ [])
add_utxo-IsIndexed_example = add_utxo-IsIndexed three_outputs (output 3 0 5) three_outputs-IsIndexed

find_and_mark-Outcome_example :
    Outcome (1 ∷ []) (pos 1) three_outputs.utxos (find_and_mark three_outputs (1 ∷ []) (pos 1))
find_and_mark-Outcome_example =
    find_and_mark-Outcome three_outputs (1 ∷ []) (pos 1) three_outputs-IsIndexed
      three_outputs-IsGrouped

unpack-pack_addr_balance_example :
    (unpack_addr_balance fixed (pack_addr_balance fixed three_outputs) 1 utxo
      ≡ some (record three_outputs { utxos = unspent three_outputs.utxos; utxos_map = [] }))
    × (unpack_addr_balance fixed (pack_addr_balance fixed three_outputs) 1 no_utxo
        ≡ some (record three_outputs { utxos = []; utxos_map = [] }))
unpack-pack_addr_balance_example =
    unpack-pack_addr_balance fixed fixed-VlqLaws 1 three_outputs three_outputs-IsStorable

unpack-pack_addr_balance-IsIndexed_example :
    (loaded : AddrBalance) × (unpack_addr_balance fixed
        (pack_addr_balance fixed three_outputs)
        1
        utxo_indexed
      ≡ some loaded)
    × (loaded.utxos ≡ unspent three_outputs.utxos)
    × IsIndexed loaded
    × SameTotals three_outputs loaded
unpack-pack_addr_balance-IsIndexed_example =
    unpack-pack_addr_balance-IsIndexed fixed fixed-VlqLaws 1 three_outputs three_outputs-IsStorable

abbrev one_address : AddressesMap
one_address = (5 ∷ [], record { btx_id = 1 ∷ []; indexes = pos 0 ∷ [] } ∷ []) ∷ []

add_to_addresses_map_lem_example :
    ((d t : Bytes)
      → indexes_of (add_to_addresses_map one_address (5 ∷ []) (1 ∷ []) (negsuc 2)).0 d t ≡ (
          if bytes_eq (5 ∷ []) d && bytes_eq (1 ∷ []) t
          then indexes_of one_address d t ++ negsuc 2 ∷ []
          else indexes_of one_address d t))
    × ((add_to_addresses_map one_address (5 ∷ []) (1 ∷ []) (negsuc 2)).1
        ≡ has_tx (1 ∷ []) (entries (lookup (5 ∷ []) one_address)))
add_to_addresses_map_lem_example = add_to_addresses_map_lem one_address (5 ∷ []) (1 ∷ []) (negsuc 2)

credit-IsBalanced_example :
    IsBalanced (credit three_outputs (output 3 0 5) false)
    × IsIndexed (credit three_outputs (output 3 0 5) false)
    × (received_sat (credit three_outputs (output 3 0 5) false)
        ≡ received_sat three_outputs +ℤ pos 5)
unfolding is_unspent
credit-IsBalanced_example =
    credit-IsBalanced three_outputs (output 3 0 5) false three_outputs-IsIndexed refl
      three_outputs-IsBalanced

debit-IsBalanced_example :
    IsBalanced (debit three_outputs (1 ∷ []) (pos 1) (pos 20) false)
    × ((debit three_outputs (1 ∷ []) (pos 1) (pos 20) false).sent_sat
        ≡ three_outputs.sent_sat +ℤ pos 20)
    × (received_sat (debit three_outputs (1 ∷ []) (pos 1) (pos 20) false)
        ≡ received_sat three_outputs)
debit-IsBalanced_example =
    debit-IsBalanced three_outputs (1 ∷ []) 1 (pos 20) false three_outputs-IsIndexed
      three_outputs-IsGrouped (ground arith) three_outputs-Holds three_outputs-IsBalanced

abbrev one_balance : Map AddrBalance
one_balance = (5 ∷ [], three_outputs) ∷ []

get_addr_desc_balance-store_balances_example :
    get_addr_desc_balance
      (record small_env { store = write empty_store (store_balances fixed one_balance) })
      (5 ∷ [])
      utxo
    ≡ ok (some (record three_outputs { utxos = unspent three_outputs.utxos; utxos_map = [] }))
unfolding lookup bytes_eq
get_addr_desc_balance-store_balances_example =
    get_addr_desc_balance-store_balances small_env fixed-VlqLaws one_balance (5 ∷ []) three_outputs
      (refl, tt) refl (λ e. omega (arith, e)) three_outputs-IsStorable

abbrev two_blocks : Store
two_blocks = record empty_store { block_txs = (pack_uint 1, []) ∷ (pack_uint 2, []) ∷ [] }

two_blocks_at_2 : block_data two_blocks 2 ≢ none
unfolding get_cf pack_uint be_bytes lookup bytes_eq
two_blocks_at_2 = ground arith

two_blocks-AllStored : AllStored two_blocks 2 2
two_blocks-AllStored j low high = let two : j ≡ 2 = omega arith in rw two two_blocks_at_2

cleanup_block_txs_older_example : block_data (cleanup_block_txs 2 4 two_blocks) 2 ≡ none
cleanup_block_txs_older_example =
    cleanup_block_txs_older 2 4 2 two_blocks (omega arith) (omega arith) (omega arith) (omega arith)
      two_blocks-AllStored

cleanup_block_txs_newer_example :
    block_data (cleanup_block_txs 1 2 two_blocks) 2 ≡ block_data two_blocks 2
cleanup_block_txs_newer_example =
    cleanup_block_txs_newer 1 2 2 two_blocks (omega arith) (omega arith) (omega arith)

undo_debit-debit_example :
    ((undo_debit
        (debit three_outputs (1 ∷ []) (pos 1) (pos 20) false)
        (output 1 1 20)
        true).balance_sat
      ≡ three_outputs.balance_sat)
    × ((undo_debit
          (debit three_outputs (1 ∷ []) (pos 1) (pos 20) false)
          (output 1 1 20)
          true).sent_sat
        ≡ three_outputs.sent_sat)
undo_debit-debit_example =
    undo_debit-debit three_outputs (output 1 1 20) 1 false true three_outputs-IsIndexed
      three_outputs-IsGrouped (ground arith) three_outputs-Holds three_outputs-IsBalanced
      (ground arith)

undo_credit-credit_example :
    ((undo_credit
        (credit three_outputs (output 3 0 5) false)
        (3 ∷ [])
        (pos 0)
        (pos 5)
        true).balance_sat
      ≡ three_outputs.balance_sat)
    × ((undo_credit
          (credit three_outputs (output 3 0 5) false)
          (3 ∷ [])
          (pos 0)
          (pos 5)
          true).sent_sat
        ≡ three_outputs.sent_sat)
    × (unspent
          (undo_credit
            (credit three_outputs (output 3 0 5) false)
            (3 ∷ [])
            (pos 0)
            (pos 5)
            true).utxos
        ≡ unspent three_outputs.utxos)
unfolding scan_utxo is_outpoint bytes_eq
undo_credit-credit_example =
    undo_credit-credit three_outputs (output 3 0 5) false true three_outputs-IsIndexed
      (inl (refl, inr (refl, (refl, tt))), (inr (refl, (refl, tt)), (inr (refl, tt), (tt, tt))))
      refl (ground arith)

tidy_lem_example :
    Perm (tidy three_outputs).utxos (unspent three_outputs.utxos)
    × IsSorted (tidy three_outputs).utxos
tidy_lem_example = tidy_lem three_outputs
