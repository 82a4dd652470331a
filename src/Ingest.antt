-- ===== src/Ingest.antt =====
-- The package ingest: what takes in the telemetry of agents and passes it to the connection.
pub mod Bind
pub mod Pipe
pub mod LineProtocol
pub mod TelegrafJson
pub mod Lumberjack
pub mod PerfTest
