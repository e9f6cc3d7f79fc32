-- ===== src/Ops.antt =====
-- crates/storageprims-ops/src/lib.rs: provider-neutral inspection operations.
pub mod Lines
pub mod Count
pub mod Budget
pub mod Receipt
pub mod Align
pub mod Provider
pub mod Read
pub mod Operations
pub mod Entry
pub mod Meter
