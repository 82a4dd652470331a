-- ===== src/Ambassador.antt =====
-- Package ambassador: the connection to the Ambassador, and the detached mode.
pub mod Session
pub mod Instructions
pub mod Egress
pub mod Connecting
pub mod Stdout
