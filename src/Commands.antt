-- ===== src/Commands.antt =====
-- The commands of the program.
pub mod Startup
pub mod Interrupts
pub mod Stress
pub mod Configuration
pub mod Shutdown
