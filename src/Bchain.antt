-- ===== src/Bchain.antt =====
-- Package bchain: the types that the index shares with the parsers, the base parser, the parser of
-- bchain/coins/pivx for post-quantum transactions, and the mempool.
pub mod Types
pub mod Hex
pub mod BaseParser
pub mod Amounts
pub mod PqTransaction
pub mod Mempool
