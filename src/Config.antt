-- ===== src/Config.antt =====
-- Package config: what the Envoy finds out about its host, and the ingestors' addresses.
pub mod Keys
pub mod Host
pub mod Labels
pub mod Listeners
