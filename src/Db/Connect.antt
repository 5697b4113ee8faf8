-- ===== src/Db/Connect.antt =====
-- db/rocksdb.go: processAddressesBitcoinType, the pass over the outputs and the inputs of a block.
-- The maps that the pass fills are the state; the source's pointers into them are their entries,
-- so a block whose transactions share an id is outside the model. Log lines and the hit and miss
-- counters are left out.
pub mod Addresses
pub mod Outputs
pub mod Inputs
pub mod IndexLaws
pub mod Ledger
pub mod Debit
