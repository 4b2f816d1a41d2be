-- ===== src/Daemon.antt =====
-- daemon.rs (src/daemon.rs), one module for each of its parts.
pub mod Files
pub mod Context
pub mod Protocol
pub mod Registry
pub mod Pump
pub mod Publish
pub mod Lifetime
pub mod Child
pub mod Detach
pub mod Tests
