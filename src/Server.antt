-- ===== src/Server.antt =====
-- Package server: what it accepts from its clients.
pub mod InputLimits
pub mod Websocket
