-- ===== src/Api.antt =====
-- Package api: what its results are cut to.
pub mod Paging
