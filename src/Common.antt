-- ===== src/Common.antt =====
-- Package common: the state of the program that is kept in the database.
pub mod InternalState
