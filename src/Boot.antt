-- ===== src/Boot.antt =====
-- The boot scripts of internal/boot.
pub mod Script
pub mod Labels
pub mod Arms
pub mod Block
pub mod Dispatch
pub mod Readable
pub mod Sorted
pub mod Resolve
pub mod Table
pub mod Reach
pub mod Tests
