-- ===== src/Agents.antt =====
-- Package agents: the runners of the agents and what routes instructions to them.
pub mod Capabilities
pub mod Convert
pub mod Files
pub mod Process
pub mod ConfigServer
pub mod Output
pub mod Operations
pub mod Telegraf
pub mod Filebeat
pub mod JsonFiles
pub mod Restarting
pub mod Running
pub mod Runner
pub mod Router
pub mod TestMonitor
pub mod TestServer
pub mod System
pub mod Loading
pub mod Overlap
