-- ===== src/Examples.antt =====
-- The theorems at concrete inputs, and runs of the definitions.
mod Data
mod Processes
mod Systems
mod Configurations
mod Hosts
mod Messages
mod Connections
mod Telemetry
mod Startups
mod Lines
mod TestServers
