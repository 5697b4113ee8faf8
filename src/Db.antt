-- ===== src/Db.antt =====
-- Package db: the index kept in RocksDB.
pub mod Bigint
pub mod Vlq
pub mod Keys
pub mod Codec
pub mod Balance
pub mod BalanceColumn
pub mod Store
pub mod Connect
pub mod AddressColumn
pub mod BlockTxs
pub mod Heights
pub mod Blocks
pub mod Sync
pub mod BulkConnect
pub mod TxCache
pub mod InternalState
