-- ===== src/Core.antt =====
-- crates/storageprims-core/src: the provider-neutral contract.
pub mod Config
pub mod Error
pub mod Uri
pub mod Source
