-- ===== src/Server/InputLimits.antt =====
-- server/input_limits.go: the limits on what a client sends. Go's `int` is a ℤ here: no result
-- exceeds its range.
pub mod Bounds
use organic_blockbook.Prelude.{
  ℕ, zero, suc, ◌+◌, ◌-◌, ◌*◌, ◌/◌, ◌^◌, ◌≤◌, ◌<◌, ◌≡◌, ◌≢◌, ◌↔◌, ◌⊎◌, inl, inr, refl, arith, Bool,
  true, false, ◌||◌, ltb, if◌then◌else◌, List, [], ◌∷◌, Option, none, some, length, All,
}
use organic_blockbook.Prelude.Int.{ℤ, pos, negsuc, ltb_ℤ, ◌≤ℤ◌, pos_part, neg_part}
use organic_blockbook.Prelude.Bytes.{Bytes}
use organic_blockbook.Prelude.Options.{Result, ok, err}

abbrev pub max_signed_transaction_hex_bytes : ℕ
max_signed_transaction_hex_bytes = 4 * 2 ^ 20

abbrev pub max_websocket_address_subscriptions : ℤ
max_websocket_address_subscriptions = pos 1000

abbrev pub max_websocket_fee_targets : ℕ
max_websocket_fee_targets = 20

abbrev pub max_fee_target_blocks : ℤ
max_fee_target_blocks = pos 1008

abbrev pub max_websocket_request_id_bytes : ℕ
max_websocket_request_id_bytes = 128

abbrev pub max_websocket_method_bytes : ℕ
max_websocket_method_bytes = 64

abbrev pub max_address_history_results : ℕ
max_address_history_results = 100000

pub data LimitError : Type 0 where
  signed_transaction_too_large too_many_websocket_addresses : LimitError
  too_many_fee_targets invalid_fee_target : LimitError
  websocket_request_id_too_large websocket_method_too_large read_failed : LimitError

-- `none` is the nil error.
unfoldable pub validate_signed_transaction_hex : Bytes → Option LimitError
validate_signed_transaction_hex tx =
    if ltb max_signed_transaction_hex_bytes (length tx)
    then some signed_transaction_too_large
    else none

unfoldable pub validated : Option LimitError → Bytes → Result LimitError Bytes
validated none tx = ok tx
validated (some e) tx = err e

-- What the limited reader gives is a parameter: at most that many bytes of the body, or an error.
unfoldable pub read_signed_transaction_body : (ℕ → Option Bytes) → Result LimitError Bytes
unfolding validate_signed_transaction_hex validated
read_signed_transaction_body read_limited =
    elim (read_limited (max_signed_transaction_hex_bytes + 1)) [
      | none ↦ err read_failed
      | some tx ↦ validated (validate_signed_transaction_hex tx) tx
    ]

unfoldable pub validate_websocket_address_count : ℤ → Option LimitError
validate_websocket_address_count count =
    if ltb_ℤ max_websocket_address_subscriptions count
    then some too_many_websocket_addresses
    else none

unfoldable pub validate_fee_targets : List ℤ → Option LimitError
validate_fee_targets [] = none
validate_fee_targets (target ∷ targets) =
    if ltb_ℤ target (pos 1) || ltb_ℤ max_fee_target_blocks target
    then some invalid_fee_target
    else validate_fee_targets targets

unfoldable pub validate_websocket_fee_targets : List ℤ → Option LimitError
unfolding validate_fee_targets
validate_websocket_fee_targets targets =
    if ltb max_websocket_fee_targets (length targets)
    then some too_many_fee_targets
    else validate_fee_targets targets

unfoldable pub validate_websocket_request_metadata : Bytes → Bytes → Option LimitError
validate_websocket_request_metadata id method =
    if ltb max_websocket_request_id_bytes (length id)
    then some websocket_request_id_too_large
    else if ltb max_websocket_method_bytes (length method)
    then some websocket_method_too_large
    else none

-- Go's division of a number by an `int`, which truncates; by zero it panics.
unfoldable pub divide : ℕ → ℤ → Option ℤ
divide a (pos zero) = none
divide a (pos (suc b)) = some (pos (a / suc b))
divide a (negsuc b) = some (if ltb b a then negsuc (a / suc b - 1) else pos 0)

unfoldable pub normalize_page_size : ℤ → ℤ → ℤ → ℤ
normalize_page_size page_size default_page_size max_page_size =
    if ltb_ℤ page_size (pos 1)
    then default_page_size
    else if ltb_ℤ max_page_size page_size
    then max_page_size
    else page_size

abbrev pub at_least_one : ℤ → ℤ
at_least_one z = if ltb_ℤ z (pos 1) then pos 1 else z

unfoldable pub limit_page : ℤ → ℤ → ℤ
limit_page page max_page = if ltb_ℤ max_page page then max_page else page

-- The page and the page size, once it is known; `none` is the division by a page size of zero.
unfoldable pub page_of_size : ℤ → ℤ → Option (ℤ × ℤ)
unfolding divide limit_page
page_of_size page size = elim (divide max_address_history_results size) [
  | none ↦ none
  | some max_page ↦ some (limit_page (at_least_one page) (at_least_one max_page), size)
]

unfoldable pub normalize_address_paging : ℤ → ℤ → ℤ → ℤ → Option (ℤ × ℤ)
unfolding page_of_size normalize_page_size
normalize_address_paging page page_size default_page_size max_page_size =
    page_of_size page (normalize_page_size page_size default_page_size max_page_size)

unfoldable pub normalize_block_height : ℤ → ℕ
normalize_block_height (negsuc n) = 0
normalize_block_height (pos height) = if ltb (2 ^ 32 - 1) height then 2 ^ 32 - 1 else height
