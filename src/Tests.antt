-- ===== src/Tests.antt =====
-- The theorems applied to concrete data.
mod Fixtures
mod Codecs
mod Balances
mod Inputs
mod Sync
mod Bulk
mod Rows
mod State
mod Amounts
mod Protobuf
mod Transactions
mod Websocket
