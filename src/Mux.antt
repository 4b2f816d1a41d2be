-- ===== src/Mux.antt =====
-- The multiplexers (src/mux.rs, src/mux/nvim.rs).
pub mod Detect
pub mod Settings
pub mod Nvim
pub mod Tests
pub mod Json
pub mod Spawn
